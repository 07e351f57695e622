-- ===== src/Service/Loops/Calls.antt =====
-- The calls of crates/looper-service/src/loop_service.rs that write, as one type.
use looper_rust.Prelude.{ℤ, String, List, [], ◌∷◌}
use looper_rust.Storage.Schema.{Timestamp, Db}
use looper_rust.Service.Loops.{
  CreateInput, TransitionInput, PauseInput, create, transition_status, pause, terminate, resume,
}

-- with the times and, for a new loop, the id
pub data LoopCall : Type 0 where
  creates : CreateInput → Timestamp → String → LoopCall
  transitions : String → TransitionInput → Timestamp → LoopCall
  pauses terminates : PauseInput → Timestamp → LoopCall
  resumes : String → Timestamp → Timestamp → LoopCall

-- the store after a call
unfoldable pub perform : (ℤ → String) → LoopCall → Db → Db
perform to_string (creates input now id) db = (create to_string input now id db).1
perform to_string (transitions id input now) db = (transition_status id input now db).1
perform to_string (pauses input now) db = (pause input now db).1
perform to_string (terminates input now) db = (terminate input now db).1
perform to_string (resumes id at now) db = (resume id at now db).1

unfoldable pub perform_all : (ℤ → String) → List LoopCall → Db → Db
perform_all to_string [] db = db
perform_all to_string (call ∷ calls) db = perform_all to_string calls (perform to_string call db)
