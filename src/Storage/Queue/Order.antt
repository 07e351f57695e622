-- ===== src/Storage/Queue/Order.antt =====
-- The claim order of crates/looper-storage/src/repos/queue.rs is an order with ties.
use looper_rust.Prelude.{◌≡◌, true, false, arith}
use looper_rust.Storage.Schema.{QueueItemRecord}
use looper_rust.Storage.Sql.Order.{IsWeakOrder}
use looper_rust.Storage.Queue.{before}

before_irrefl : (a : QueueItemRecord) → before a a ≡ false
unfolding before
before_irrefl a = ground arith

before_trans : (a b c : QueueItemRecord) → before a b ≡ true → before b c ≡ true → before a c ≡ true
unfolding before
before_trans a b c h k = ground arith

before_gap :
    (a b c : QueueItemRecord) → before a b ≡ false → before b c ≡ false → before a c ≡ false
unfolding before
before_gap a b c h k = ground arith

pub before-IsWeakOrder : IsWeakOrder before
before-IsWeakOrder = record { irrefl = before_irrefl; trans = before_trans; gap = before_gap }
