-- ===== src/Plan.antt =====
-- backend/app/models/load_step.py, and the tables that the requests on the steps of a load plan read.
-- Sequence numbers are natural numbers: the requests of the user interface send no others, although
-- the schema has no bound. Time stamps are left out.
pub mod Validators
pub mod References
pub mod Requests
pub mod Wired
pub mod Growth
pub mod Orders
pub mod Patches
pub mod Inversion
pub mod Editing
pub mod Duplicate
pub mod Clones
pub mod Copies
use Prim.Native.String.{String}
use text.Mathlib.Text.{◌==◌ as str_eq}
use sf_bulk_loader.Prelude.{
  ℕ, ◌==◌, Bool, true, false, not, Option, none, some, List, [], ◌∷◌, if◌then◌else◌, any,
}
use sf_bulk_loader.Job.{Uuid}

pub data Operation : Type 0 where
  insert update upsert delete query query_all : Operation

-- `operation in QUERY_OPERATIONS`
unfoldable pub is_query : Operation → Bool
is_query Operation.query = true
is_query Operation.query_all = true
is_query _ = false

pub record LoadStep : Type 0 where
  pub id : Uuid
  pub load_plan_id : Uuid
  pub sequence : ℕ
  pub object_name : String
  pub operation : Operation
  pub external_id_field : Option String
  pub csv_file_pattern : Option String
  pub soql : Option String
  pub partition_size : Option ℕ
  pub assignment_rule_id : Option String
  pub input_connection_id : Option String
  pub name : Option String
  pub input_from_step_id : Option Uuid

-- `connections` gives the direction of an input connection.
pub record Database : Type 0 where
  pub plans : List Uuid
  pub connections : String → Option String
  -- the steps that rows of `job_record` refer to, which `ON DELETE RESTRICT` keeps
  pub job_steps : List Uuid
  pub steps : List LoadStep

-- What a request answers: a value, an `HTTPException`, or a constraint of the database that the commit
-- violates, which rolls the session back.
pub data Response (A : Type 0) : Type 0 where
  ok : A → Response A
  http : ℕ → Response A
  integrity_error : Response A

-- `not text` of a nullable text is true for NULL and for the empty text.
unfoldable pub has_text : Option String → Bool
has_text none = false
has_text (some t) = not (str_eq t "")

-- `await db.get(LoadStep, id)`
unfoldable pub find_step : Uuid → List LoadStep → Option LoadStep
find_step id [] = none
find_step id (s ∷ steps) = let rest = find_step id steps in if s.id == id then some s else rest

-- A foreign key with a value that is no row's.
unfoldable pub has_plan : Uuid → Database → Bool
has_plan plan_id db = any (λ p. p == plan_id) db.plans
