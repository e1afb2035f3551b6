-- ===== src/Services/Database.antt =====
-- The rows that the workflow services read and write (crates/db/src/entities/mod.rs), their errors
-- (crates/services/src/lib.rs), and what they use of other parts. A table is the list of its rows.
-- The JSON of a stored document is that document, or `none` where it is no document.
use ferris_cms.Prelude.{ℕ, Bool, Option, none, some, List, [], ◌∷◌, Text, ◌==◌, if◌then◌else◌}
use ferris_cms.Prelude.Int.{ℤ}
use ferris_cms.Workflow.Model.{OwsDocument}

pub record ValidationErrorItem : Type 0 where
  pub path : List Text
  pub message : Text
  pub name : Text

pub data ServiceError : Type 0 where
  validation : List ValidationErrorItem → ServiceError
  not_found conflict : Text → ServiceError
  forbidden unauthorized : ServiceError
  db store internal rbac : Text → ServiceError

-- `workflow::Model`
pub record WorkflowRow (V : Type 0) : Type 0 where
  pub id : ℕ
  pub name : Text
  pub description : Option Text
  pub version : ℕ
  pub active : Bool
  pub definition_json : Option (OwsDocument V)
  pub created_at : ℕ
  pub updated_at : ℕ
  pub created_by : Option ℕ
  pub updated_by : Option ℕ

-- `workflow_execution::Model`
pub record ExecutionRow (V : Type 0) : Type 0 where
  pub id : ℕ
  pub workflow_id : ℕ
  pub status : Text
  pub mode : Text
  pub trigger : Text
  pub started_at : ℕ
  pub finished_at : Option ℕ
  pub duration_ms : Option ℤ
  pub error : Option Text
  pub data_json : Option V

-- `workflow_node_run::Model`
pub record NodeRunRow (V : Type 0) : Type 0 where
  pub id : ℕ
  pub execution_id : ℕ
  pub node_id : Text
  pub node_name : Text
  pub node_type : Text
  pub status : Text
  pub started_at : Option ℕ
  pub finished_at : Option ℕ
  pub duration_ms : Option ℤ
  pub input_json : Option V
  pub output_json : Option V
  pub error : Option Text
  pub attempts : ℕ
  pub order : ℕ

pub record RunOptions (V : Type 0) : Type 0 where
  pub mode : Text
  pub trigger : Text
  pub input : V
  pub max_attempts : ℕ

-- what a spawned thread runs
pub record Job (V : Type 0) : Type 0 where
  pub workflow : OwsDocument V
  pub exec_id : ℕ
  pub opts : RunOptions V

-- the database, and the threads that have not ended
pub record Db (V : Type 0) : Type 0 where
  pub workflows : List (WorkflowRow V)
  pub executions : List (ExecutionRow V)
  pub node_runs : List (NodeRunRow V)
  pub jobs : List (Job V)

pub data Result (A : Type 0) : Type 0 where
  ok : A → Result A
  err : ServiceError → Result A

-- A service operation: its result, and the database after it, also where it fails.
abbrev pub Service : Type 0 → Type 0 → Type 0
Service V A = Db V → Result A × Db V

-- `ok_or_else(|| ServiceError::not_found(message))`
abbrev pub found : {A : Type 0} → Option A → Text → Result A
found (some a) message = ok a
found none message = err (not_found message)

module _ {V A : Type 0} where
  abbrev pub pure : A → Service V A
  pure a s = (ok a, s)

  abbrev pub fail : ServiceError → Service V A
  fail e s = (err e, s)

  abbrev pub lift : Result A → Service V A
  lift r s = (r, s)

abbrev pub after : {V A B : Type 0} → Result A × Db V → (A → Service V B) → Result B × Db V
after (ok a, s) k = k a s
after (err e, s) k = (err e, s)

infixl 5 ◌>>=◌
abbrev pub ◌>>=◌ : {V A B : Type 0} → Service V A → (A → Service V B) → Service V B
(m >>= k) s = after (m s) k

module _ {A : Type 0} (id_of : A → ℕ) where
  -- `find_by_id(id).one(..)`
  unfoldable pub find_row : ℕ → List A → Option A
  find_row id [] = none
  find_row id (r ∷ rs) = let rest = find_row id rs in if id_of r == id then some r else rest

  -- the update of the row with an id
  unfoldable pub update_row : ℕ → A → List A → List A
  update_row id new [] = []
  update_row id new (r ∷ rs) =
      let rest = update_row id new rs in if id_of r == id then new ∷ rest else r ∷ rest

unfoldable pub filter : {A : Type 0} → (A → Bool) → List A → List A
filter p [] = []
filter p (x ∷ xs) = let rest = filter p xs in if p x then x ∷ rest else rest

-- What the runtime crate `ows_runtime` makes of a document and an input: the runtime is not built, or
-- the definition not compiled, or it runs and ends well or with an error, each with the names of the
-- tasks that it ran.
pub data RunResult : Type 0 where
  not_built not_compiled : Text → RunResult
  completed : List Text → RunResult
  raised : List Text → Text → RunResult

-- What an operation uses of other parts.
pub record Env (V : Type 0) : Type 0 where
  pub now : ℕ
  -- the id that the database gives to a new row, from those in the table
  pub new_id : List ℕ → ℕ
  -- `(now - started_at).num_milliseconds()`
  pub num_milliseconds : ℕ → ℕ → ℤ
  -- `rbac::enforce_action`: the error of an action that is refused
  pub enforce_action : Text → Option ServiceError
  -- the id of `current_user`
  pub user : Option ℕ
  -- `Value::as_str`
  pub as_str : V → Option Text
  -- `json!({})` and `json!({ "executed": true })`
  pub no_input : V
  pub executed : V
  pub run : OwsDocument V → V → RunResult
  -- `std::thread::Builder::spawn`: the error of a thread that is not spawned
  pub spawn_error : Option Text
  -- the error of a runtime that the thread does not get
  pub thread_error : Option Text
