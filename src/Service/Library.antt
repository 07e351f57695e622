-- ===== src/Service/Library.antt =====
-- What crates/looper-service/src/admit_work.rs uses of the standard library and of serde_json: the
-- spaces of a text, the text of a number, and JSON values with their objects.
use looper_rust.Prelude.{ℤ, String, Bool, Option, List}

pub record Library (Json : Type 0) : Type 0 where
  pub trim : String → String
  pub to_string : ℤ → String
  pub string : String → Json
  pub number : ℤ → Json
  pub is_object : Json → Bool
  -- `Map::new`, `Map::insert`, `Map::entry` with `or_insert`, and the entries
  pub empty : Json
  pub insert : String → Json → Json → Json
  pub or_insert : String → Json → Json → Json
  pub entries : Json → List (String × Json)
  -- `Value::to_string`, `from_str` with `Result::ok`, `Value::get` and `Value::as_str`
  pub to_text : Json → String
  pub from_text : String → Option Json
  pub get : String → Json → Option Json
  pub as_text : Json → Option String
