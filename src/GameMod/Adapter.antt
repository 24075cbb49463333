-- ===== src/GameMod/Adapter.antt =====
-- `normalize_operation` and SimsBuildAdapter of the mod (sims_mod_src/kermp_mod/build_adapter.py). The
-- callable that applies an operation is the game's: a call of it captures, through the mod's hooks,
-- the payloads that it gives, and then raises or not. `applied` has the operations that it was called
-- with, newest last; `dumps` is json.dumps(operation, sort_keys=True).
use ker_mp.Prelude.{
  Bool, List, Option, String, [], false, if◌then◌else◌, none, not, some, text_eq, true, ℕ, ◌&&◌,
  ◌+◌, ◌∷◌,
}
use ker_mp.Prelude.Dict.{Dict, get, put}
use ker_mp.Prelude.Sets.{contains}
use ker_mp.Prelude.Errors.{
  PyError, Result, assertion_error, attribute_error, key_error, ok, os_error, permission_error,
  raise, runtime_error, type_error, value_error, ◌>>=◌,
}
use ker_mp.Value.{Payload, Value, end, get_value, join, null, obj, or_else, str, string, to_dict}
use ker_mp.Net.{error_text}

abbrev pub object_operations : List String
object_operations =
    "object.create" ∷ "object.destroy" ∷ "object.move" ∷ "object.definition" ∷ "object.scale"
    ∷ "object.set_parent" ∷ "object.clear_parent" ∷ "funds.modify" ∷ "wall.create" ∷ "wall.delete"
    ∷ []

-- OBJECT_ID_OPERATIONS
abbrev pub needs_object_id : String → Bool
needs_object_id op =
    contains op object_operations
    && not (contains op ("wall.create" ∷ "wall.delete" ∷ "funds.modify" ∷ []))

pub record Operation : Type 0 where
  pub op : String
  pub args : Payload
  pub op_id : Option String

-- not str(data.get(key, ''))
unfoldable pub has_no : String → Payload → Bool
has_no key d = elim (get key d) [ none ↦ true | some v ↦ text_eq (str v) "" ]

-- if key in data and data[key] is not None: data[key] = str(data[key])
unfoldable pub with_text : String → Payload → Payload
with_text key d = elim (get key d) [
  | none ↦ d
  | some null ↦ d
  | some v ↦ put key (string (str v)) d
]

unfoldable pub with_texts : Payload → Payload
unfolding with_text
with_texts d = with_text "zone_id" (
    with_text "household_id"
      (with_text "definition_id" (with_text "parent_id" (with_text "object_id" d))))

-- payload.get('op_id', payload.get('op_seq')), as a text unless it is None
unfoldable pub given_id : Payload → Option String
given_id payload =
    let v : Value = elim (get "op_id" payload) [ none ↦ get_value "op_seq" payload | some v ↦ v ] in
    elim v [ null ↦ none | x ↦ some (str x) ]

-- The operation is one of the known ones, and `data` has been made a dict.
unfoldable pub normalized : String → Payload → Payload → Result Operation
unfolding has_no with_texts given_id
normalized op payload d =
    if needs_object_id op && has_no "object_id" d
    then raise (value_error "object_id is required")
    else if text_eq op "object.create" && has_no "definition_id" d
    then raise (value_error "definition_id is required")
    else if text_eq op "funds.modify" && has_no "household_id" d
    then raise (value_error "household_id is required")
    else ok (record { op = op; args = with_texts d; op_id = given_id payload })

unfoldable pub normalize_operation : Payload → Result Operation
unfolding normalized
normalize_operation payload =
    let op = str (or_else (get_value "op" payload) (string "")) in
    if not (contains op object_operations)
    then raise (value_error (join "unsupported build operation: " op))
    else to_dict (or_else (get_value "data" payload) (obj end)) >>= λ d. normalized op payload d

-- type(exc).__name__
abbrev pub class_name : PyError → String
class_name (value_error s) = "ValueError"
class_name (key_error s) = "KeyError"
class_name (type_error s) = "TypeError"
class_name (runtime_error s) = "RuntimeError"
class_name (permission_error s) = "PermissionError"
class_name (os_error s) = "OSError"
class_name assertion_error = "AssertionError"
class_name attribute_error = "AttributeError"

-- '%s: %s' % (type(exc).__name__, exc)
abbrev pub describe : PyError → String
describe e = join (class_name e) (join ": " (error_text e))

abbrev pub Applier : Type 0
Applier = Operation → List Payload × Option PyError

pub record SimsBuildAdapter : Type 0 where
  pub capture : Bool
  pub apply : Option Applier
  pub seen : List String
  pub last_local_operation : Option Operation
  pub last_operation_by_type : Dict Operation
  pub last_remote_operation : Option Operation
  pub applying_remote : Bool
  pub operation_counts : Dict ℕ
  pub last_error : Option String
  pub captured_total : ℕ
  pub suppressed_remote_echo : ℕ
  pub capture_errors : ℕ
  pub last_capture : Option Operation
  pub last_capture_error : Option String
  pub last_definition : List (Option String × Option String)
  pub capture_sequence : ℕ
  pub applied : List Operation

abbrev pub new_adapter : SimsBuildAdapter
new_adapter = record {
  capture = false;
  apply = none;
  seen = [];
  last_local_operation = none;
  last_operation_by_type = [];
  last_remote_operation = none;
  applying_remote = false;
  operation_counts = [];
  last_error = none;
  captured_total = 0;
  suppressed_remote_echo = 0;
  capture_errors = 0;
  last_capture = none;
  last_capture_error = none;
  last_definition = [];
  capture_sequence = 0;
  applied = [];
}

unfoldable pub configure : Bool → Option Applier → SimsBuildAdapter → SimsBuildAdapter
configure capture apply a = record a { capture = capture; apply = apply }

unfoldable pub reset_diagnostics : SimsBuildAdapter → SimsBuildAdapter
reset_diagnostics a = record a {
  operation_counts = [];
  captured_total = 0;
  suppressed_remote_echo = 0;
  capture_errors = 0;
  last_capture = none;
  last_capture_error = none;
  last_local_operation = none;
  last_operation_by_type = [];
  last_error = none;
  last_definition = [];
  capture_sequence = 0;
}

-- self.operation_counts[op] = self.operation_counts.get(op, 0) + 1
unfoldable pub count_operation : String → SimsBuildAdapter → SimsBuildAdapter
count_operation op a =
    let n : ℕ = elim (get op a.operation_counts) [ none ↦ 0 | some k ↦ k ] in
    record a { operation_counts = put op (n + 1) a.operation_counts }
