-- ===== src/Lib.antt =====
-- ferris-cms: a content management system whose content types are data. This library models the
-- parts of it that decide: which physical names a schema has, how one version of a schema differs
-- from the next, how the expression of a computed field is read, what the query string of a
-- request asks for, how a workflow is ordered and checked, and how workflows are stored, started
-- and ended.
--
-- The program's parts and how they interact. core-domain holds the value types and the naming
-- rules. core-schema holds the schemas: the content-type builder sends new schemas, validation
-- accepts them, and the diff against the current registry drives the DDL of dynamic-store. An
-- entry is checked against its schema before it is written. A computed attribute has an
-- expression, which core-schema parses and dynamic-store writes as SQL. The REST layer parses a
-- query with api-types and hands filters, sort and pagination to dynamic-store. The workflow crate
-- holds Open Workflow documents, their order and their checks; services stores them, starts an
-- execution for a request or an event, and ends it when the thread that runs it ends. Its
-- permissions decide which user may do what.
--
-- Files:
--   Prelude            shared names, Boolean tests, lists, texts (UTF-8 bytes), association lists
--   Domain/Naming      crates/core-domain/src/naming.rs: snake_case, column_name, the table names;
--                      Plural has pascal_case, pluralize and singularize
--   Domain/Uid, Kind, Field, Publication, Token
--                      crates/core-domain/src/types.rs: uids, enumerations and their stored names
--   Schema/Model       crates/core-schema/src/model.rs: Schema, Attribute, table_name, main_field
--   Schema/Diff        crates/core-schema/src/diff.rs: diff, diff_removed, diff_registry, is_noop
--   Schema/Expression  crates/core-schema/src/expression.rs: Expr, next_token, parse_expression
--   Schema/Validation  crates/core-schema/src/validation.rs: validate_schemas; Computed
--                      and Cycles have validate_computed, Attributes validate_attributes,
--                      validate_relation and the dynamic zones, Identity and Enumeration the rest
--   Schema/Payload     crates/core-schema/src/payload.rs: validate_payload
--   Schema/Aggregates  crates/core-schema/src/expression.rs: computed_field_has_relation_aggregate
--   Api/Query          crates/api-types/src/query.rs: Key has split_key, Decode decode_pairs and
--                      percent_decode, Tree Node and its insert, Filter parse_filter_node, Params
--                      from_pairs and the other parameters, Pagination effective_pagination
--   Workflow/Model     crates/workflow/src/model.rs: OwsDocument, task_names, the known functions
--   Workflow/Graph     crates/workflow/src/graph.rs: execution_sequence, next_task, referenced_tasks
--   Workflow/Expression  crates/workflow/src/expression.rs: evaluate, evaluate_string; Value has the
--                      operations on values and call_function, Tokens tokenize, Eval the Parser,
--                      Template single_expression and interpolate; Syntax and Spelling
--                      say what the text of an expression is and what it means
--   Workflow/Validation  crates/workflow/src/validation.rs: validate
--   Services/Database  crates/db/src/entities/mod.rs, crates/services/src/lib.rs: rows and errors
--   Services/Access    crates/services/src/rbac.rs: can_perform, enforce_action and
--                      grant_content_permissions
--   Services/Workflows  crates/services/src/workflow/mod.rs: workflow_create, workflow_save and the
--                      other operations on stored workflows
--   Services/Engine    crates/services/src/workflow/engine.rs: create_execution, run_execution,
--                      execution_cancel, execution_retry, execute_workflow and the thread it spawns
--   Services/Triggers  crates/services/src/workflow/triggers.rs: matching_workflows, the dispatchers
--   Services/Requests  sequences of requests, each in its own environment, and ends of threads
-- The modules below a file hold its proofs, and Tests its runs and the instances of the theorems.
--
-- How it is modelled. A text is the list of its bytes, in Workflow/Expression of its code points.
-- A BTreeMap or an IndexMap is an association list in its order. JSON values, 64-bit floats,
-- `str::parse::<f64>` and `Value::as_str` are parameters, as are the order of a HashMap, what
-- Workflow/Expression uses of the standard library (Std there), the syntax of regular expressions,
-- `str::trim`, `str::parse::<i64>` and `String::from_utf8_lossy`; of JSON values the diff uses
-- that their equality is decidable. A position in a text is the text that is left. An error keeps
-- its kind and not its message. Where the query parser sorts the children of a node by their
-- numeric keys and then parses them, the model parses them first: the same subtrees are parsed,
-- and errors are met in the same order. The arithmetic on `i64` of the pagination wraps around as
-- in a release build; the version of a workflow, which each update raises by one, is a natural
-- number, and its wrap-around at 2^63 is not modelled.
--
-- A service operation maps a database to its result and the database after it, also where it
-- fails. Its environment gives the clock, the user, the permissions, the ids of new rows, the
-- runtime crate and whether a thread is spawned; the clock is read once. A stored document stands
-- for its JSON. The database answers every call. A thread runs to its end in one step, at any time
-- after its spawn: a cancellation comes before or after it.
--
-- Bounds and fuel. The loop of execution_sequence runs on the number of task names and one: each
-- round that goes on marks a name that was not marked. The search of Schema/Aggregates runs on the
-- number of attributes and one: no name is entered again below itself. The loop of
-- detect_computed_cycles runs on the number of computed fields and one: each round removes a
-- field. The parser runs on 16 units for each byte and 16 more: between two tokens it makes at
-- most that many calls. The tokenizer of the templates runs on one unit for each character and
-- one, their evaluator on 8 for each token and 8, the loop of interpolate on 2 for each character
-- and 2.
--
-- Not modelled: the store (dynamic-store, db), the other services and the HTTP layer, the user
-- interface, the model providers of ai, and the binaries. They are I/O or rest on a database. Of
-- the modelled crates, the evaluation of computed fields is left out.
pub mod Prelude
pub mod Domain
pub mod Schema
pub mod Workflow
pub mod Api
pub mod Services
