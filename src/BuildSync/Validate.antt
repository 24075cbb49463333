-- ===== src/BuildSync/Validate.antt =====
-- `_validate_build_data` (kermp/buildsync.py). The operation's data is a dict already, as both callers
-- pass one.
use Prim.Native.String.{count}
use text.Mathlib.Text.{starts_with}
use ker_mp.Prelude.{
  Bool, String, [], false, if◌then◌else◌, length, ltb, none, not, some, text_eq, true, ℕ, ◌&&◌,
  ◌||◌, ◌∷◌,
}
use ker_mp.Prelude.Dict.{get, put}
use ker_mp.Prelude.Errors.{Result, ok, raise, value_error}
use ker_mp.Value.{Payload, Value, bool, float, get_value, int, join, null, str, string}

unfoldable pub is_object_operation : String → Bool
is_object_operation op =
    text_eq op "object.create"
    || text_eq op "object.destroy"
    || text_eq op "object.move"
    || text_eq op "object.definition"
    || text_eq op "object.scale"
    || text_eq op "object.set_parent"
    || text_eq op "object.clear_parent"
    || text_eq op "funds.modify"
    || text_eq op "wall.create"
    || text_eq op "wall.delete"

abbrev pub max_build_data_keys : ℕ
max_build_data_keys = 32

abbrev pub max_build_value_length : ℕ
max_build_value_length = 4096

abbrev too_long : Value → Bool
too_long (string s) = ltb max_build_value_length (count s)
too_long v = false

-- The first loop: the length of each key and of each text.
unfoldable pub check_entries : Payload → Result (Unit {0})
check_entries [] = ok tt
check_entries ((k, v) ∷ d) =
    if ltb 128 (count k)
    then raise (value_error "invalid build operation key")
    else if too_long v
    then raise (value_error "build operation value too large")
    else check_entries d

-- The second loop: `if key in result and result[key] is not None: result[key] = str(result[key])`.
unfoldable pub as_text : String → Payload → Payload
as_text key d = elim (get key d) [ none ↦ d | some null ↦ d | some v ↦ put key (string (str v)) d ]

unfoldable pub ids_as_text : Payload → Payload
ids_as_text d = as_text "routing_surface_id" (
    as_text "zone_id" (
      as_text "household_id"
        (as_text "definition_id" (as_text "parent_id" (as_text "object_id" d)))))

-- not str(result.get(key, ""))
unfoldable pub lacks : String → Payload → Bool
lacks key d = elim (get key d) [ none ↦ true | some v ↦ text_eq (str v) "" ]

-- isinstance(result.get("amount"), (int, float)): a bool is an int
abbrev pub is_number : Value → Bool
is_number (bool b) = true
is_number (int z) = true
is_number (float z r) = true
is_number _ = false

unfoldable pub check_required : String → Payload → Result Payload
check_required op d =
    if starts_with op "object." && (lacks "object_id" d && not (text_eq op "object.create"))
    then raise (value_error "object_id is required")
    else if text_eq op "object.create" && lacks "definition_id" d
    then raise (value_error "definition_id is required")
    else if text_eq op "funds.modify" && lacks "household_id" d
    then raise (value_error "household_id is required")
    else if text_eq op "funds.modify" && not (is_number (get_value "amount" d))
    then raise (value_error "funds amount must be numeric")
    else ok d

unfoldable pub validate_build_data : String → Payload → Result Payload
validate_build_data op d =
    if not (is_object_operation op)
    then raise (value_error (join "unsupported build operation: " op))
    else if ltb max_build_data_keys (length d)
    then raise (value_error "invalid build operation data")
    else elim (check_entries d) [ raise e ↦ raise e | ok _ ↦ check_required op (ids_as_text d) ]
