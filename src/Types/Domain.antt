-- ===== src/Types/Domain.antt =====
-- crates/looper-types/src/error.rs: the errors of the texts of loop types and targets.
use looper_rust.Prelude.{String}

pub data DomainError : Type 0 where
  unknown_loop_type unknown_loop_target_type : String → DomainError

pub data Parsed {ℓ} (A : Type ℓ) : Type ℓ where
  ok : A → Parsed A
  err : DomainError → Parsed A
