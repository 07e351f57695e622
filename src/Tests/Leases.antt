-- ===== src/Tests/Leases.antt =====
-- Locks.
use looper_rust.Prelude.{◌≡◌, refl, String}
use looper_rust.Storage.Locks.{acquire, get}
use looper_rust.Storage.Locks.Leases.{keys_ok, acquired, lease_after, acquire-leases}
use looper_rust.Tests.Samples.{rival, leased_db}

acquire-leases_example :
    ((acquire rival leased_db).0 ≡ (acquired rival (get leased_db "repo")).0)
    × ((k : String) → get (acquire rival leased_db).1 k ≡ lease_after rival leased_db k)
unfolding keys_ok
acquire-leases_example = acquire-leases rival leased_db refl
