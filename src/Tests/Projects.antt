-- ===== src/Tests/Projects.antt =====
-- A project with a loop that works.
use looper_rust.Prelude.{◌≡◌, refl, false, none, [], ◌∷◌, any, Memᴰ}
use looper_rust.Storage.Queue
use looper_rust.Storage.Runs.{Repositories, get_latest_by_loop_id}
use looper_rust.Storage.Projects.{is_of_project, upsert}
use looper_rust.Storage.Projects.Replaced.{upsert-loses_work}
use looper_rust.Tests.Samples.{worker_loop, project}
use looper_rust.Tests.Recoveries.{store, busy_db}

abbrev project_store : Repositories
project_store = record store { db = record busy_db { projects = project ∷ [] } }

upsert-loses_work_example :
    (any (is_of_project "p1") (upsert project project_store).db.loops ≡ false)
    × ((Queue.get_latest_by_loop_id (upsert project project_store).db "l1" ≡ none)
        × (get_latest_by_loop_id "l1" (upsert project project_store) ≡ none))
upsert-loses_work_example =
    upsert-loses_work project worker_loop project_store refl (Memᴰ.head refl) refl
