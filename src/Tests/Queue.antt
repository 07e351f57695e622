-- ===== src/Tests/Queue.antt =====
-- The claims of the queue.
use looper_rust.Prelude.{◌≡◌, refl, Bool, true, false, none, some, ◌&&◌, Memᴰ, pos}
use looper_rust.Storage.Schema.{
  QueueItemRecord, ok, row_ok, index_ok, index_clash, is_indexed, is_active,
}
use looper_rust.Storage.Sql.Heads.{head}
use looper_rust.Storage.Reads.{list_scheduled}
use looper_rust.Storage.Reads.Agreed.{list_scheduled-claim_next}
use looper_rust.Storage.Sql.{order_by, insert_ordered, limit, best, best_from, update_where}
use looper_rust.Storage.Queue.{
  claim_next, scheduled_queue_conditions, before, claimed, claim_next_impl,
}
use looper_rust.Storage.Queue.Claimed.{WasClaimed, claim-WasClaimed, claim-none_left}
use looper_rust.Storage.WellFormed.{after}
use looper_rust.Storage.Queue.Claim.{picks}
use looper_rust.Tests.Samples.{worker_item, planner_item, sample, sample-IsWellFormed}

abbrev any_item : QueueItemRecord → Bool
any_item q = true

-- the most urgent item is claimed first
claim_planner :
    claim_next_impl any_item 20 "scheduler" sample
    ≡ ok (
      some (claimed 20 "scheduler" planner_item),
      after sample (picks planner_item) (claimed 20 "scheduler"),
    )
unfolding claim_next_impl scheduled_queue_conditions before best best_from update_where row_ok
    index_ok index_clash is_indexed is_active
claim_planner = refl

claim-WasClaimed_example :
    WasClaimed any_item 20 "scheduler" sample
      (claimed 20 "scheduler" planner_item)
      (after sample (picks planner_item) (claimed 20 "scheduler"))
claim-WasClaimed_example =
    claim-WasClaimed any_item 20 "scheduler" sample (claimed 20 "scheduler" planner_item)
      (after sample (picks planner_item) (claimed 20 "scheduler")) sample-IsWellFormed claim_planner

-- before their time no item can be claimed
too_early : claim_next_impl any_item 9 "scheduler" sample ≡ ok (none, sample)
unfolding claim_next_impl scheduled_queue_conditions best
too_early = refl

claim-none_left_example :
    (scheduled_queue_conditions sample 9 worker_item && any_item worker_item) ≡ false
claim-none_left_example =
    claim-none_left any_item 9 "scheduler" sample sample sample-IsWellFormed too_early worker_item
      (Memᴰ.head refl)

planner_heads : head (list_scheduled 20 (pos 1) sample) ≡ some planner_item
unfolding list_scheduled scheduled_queue_conditions order_by insert_ordered limit before
planner_heads = refl

list_scheduled-claim_next_example :
    claim_next 20 "scheduler" sample
    ≡ ok (
      some (claimed 20 "scheduler" planner_item),
      after sample (picks planner_item) (claimed 20 "scheduler"),
    )
list_scheduled-claim_next_example =
    list_scheduled-claim_next 20 "scheduler" 0 sample planner_item sample-IsWellFormed planner_heads
