-- ===== src/Workflow/Expression.antt =====
-- crates/workflow/src/expression.rs: the templates of a workflow, whose parts in double braces are
-- expressions over the data of the run. Here a text is the list of its characters, by their code
-- points. `N` is the type of JSON numbers and `F` the type `f64`.
pub mod Value
pub mod Tokens
pub mod Eval
pub mod Template
pub mod Costs
pub mod Returns
pub mod Scans
pub mod Ends
pub mod Syntax
pub mod Levels
pub mod Reads
pub mod Operands
pub mod Calls
pub mod Written
pub mod Words
pub mod Spelling
pub mod Spelled
pub mod Meant
pub mod Plain
mod Tests
use Prim.Native.Nat.{Ordering}
use ferris_cms.Prelude.{ℕ, Bool, Option, Text, Assoc}
use ferris_cms.Prelude.Int.{ℤ}
use ferris_cms.Schema.Payload.{Json}

-- What the evaluator uses of the standard library and of serde_json.
pub record Std (N F : Type 0) : Type 0 where
  pub trim : Text → Text
  pub to_lowercase : Text → Text
  pub to_uppercase : Text → Text
  pub is_alphabetic : ℕ → Bool
  pub is_alphanumeric : ℕ → Bool
  pub parse_f64 : Text → Option F
  pub as_f64 : N → Option F
  pub as_i64 : N → Option ℤ
  -- `Value::from` of an `i64` and of an `f64`, `Value::to_string`, `serde_json::to_string` and `==`
  pub of_i64 : ℤ → Json N
  pub of_f64 : F → Json N
  pub print : Json N → Text
  pub equal : Json N → Json N → Bool
  -- the operations of `f64`: `n as i64`, `n.fract() == 0.0`, `n.abs() < 9.0e15`, and so on
  pub to_i64 : F → ℤ
  pub is_whole : F → Bool
  pub is_small : F → Bool
  pub zero_f64 : F
  pub feq : F → F → Bool
  pub partial_cmp : F → F → Option Ordering
  pub add : F → F → F
  pub sub : F → F → F
  pub mul : F → F → F
  pub div : F → F → F
  pub neg : F → F
  pub floor : F → F
  pub ceil : F → F
  pub round : F → F

-- An error is kept without its message.
pub data Result {ℓ} (A : Type ℓ) : Type ℓ where
  ok : A → Result A
  err : Result A
  out_of_fuel : Result A

infixl 5 ◌>>=◌
abbrev pub ◌>>=◌ {ℓ κ} : {A : Type ℓ} {B : Type κ} → Result A → (A → Result B) → Result B
ok a >>= f = f a
err >>= f = err
out_of_fuel >>= f = out_of_fuel

-- A `HashMap` is its entries, in the order in which it is iterated.
pub record Context (N : Type 0) : Type 0 where
  pub json : Json N
  pub item_index : ℤ
  pub nodes : Assoc (Json N)
  pub workflow : Json N
  pub execution : Json N
  pub env : Assoc Text
  pub now : Text
  pub today : Text
