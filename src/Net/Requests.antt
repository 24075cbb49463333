-- ===== src/Net/Requests.antt =====
-- How `_dispatch` of KerMPHost (kermp/net.py) reads a payload.
use ker_mp.Prelude.{List, Option, String, [], if◌then◌else◌, none, not, some, text_eq, ◌&&◌, ◌∷◌}
use ker_mp.Prelude.Dict.{Dict, get}
use ker_mp.Prelude.Int.{ℤ}
use ker_mp.Prelude.Errors.{
  PyError, Result, attribute_error, key_error, ok, os_error, permission_error, raise, runtime_error,
  type_error, value_error, ◌>>=◌,
}
use ker_mp.Value.{
  Items, Payload, Value, arr, cons, end, field, get_value, int, nil, null, obj, of_fields, or_else,
  string, to_int, truthy, repr_text,
}
use ker_mp.Session.{
  Interaction, ReadinessField, set_authority_ready, set_bridge_connected, set_bytes_received,
  set_error, set_save_hash, set_total_bytes, set_zone_ready,
}

-- str(exc): the text of a KeyError is the repr of its key
unfoldable pub error_text : PyError → String
error_text (value_error s) = s
error_text (key_error s) = repr_text s
error_text (type_error s) = s
error_text (runtime_error s) = s
error_text (permission_error s) = s
error_text (os_error s) = s
error_text _ = ""

-- payload.get(key, default), as an int
unfoldable pub int_at : String → ℤ → Payload → Result ℤ
int_at key default d = elim (get key d) [ none ↦ ok default | some v ↦ to_int v ]

-- One of the two counts. The source sets it to a value that is no number too; such a message is outside
-- the model.
unfoldable pub count_field : String → Value → Option ReadinessField
count_field k (int z) =
    if text_eq k "save_bytes_received"
    then some (set_bytes_received z)
    else if text_eq k "save_total_bytes"
    then some (set_total_bytes z)
    else none
count_field k _ = none

-- A field of READINESS that may be set, whatever its value is.
unfoldable pub readiness_field : String → Value → Option ReadinessField
unfolding count_field
readiness_field k v =
    if text_eq k "save_hash"
    then some (set_save_hash v)
    else if text_eq k "error"
    then some (set_error v)
    else if text_eq k "bridge_connected"
    then some (set_bridge_connected v)
    else if text_eq k "zone_ready"
    then some (set_zone_ready v)
    else if text_eq k "simulation_authority_ready"
    then some (set_authority_ready v)
    else count_field k v

-- `{key: value for key, value in env.payload.items() if key in allowed}`
unfoldable pub readiness_fields : Payload → List ReadinessField
readiness_fields [] = []
readiness_fields ((k, v) ∷ d) =
    let rest = readiness_fields d in elim (readiness_field k v) [ none ↦ rest | some f ↦ f ∷ rest ]

-- The entries of `list(payload.get("sims") or [])`; one that is no dict has no `get`.
unfoldable pub payloads : Items → Result (List Payload)
payloads nil = ok []
payloads (cons (obj fs) xs) = payloads xs >>= λ ds. ok (of_fields fs ∷ ds)
payloads (cons _ xs) = raise attribute_error

unfoldable pub sims_of : Payload → Result (List Payload)
sims_of d = elim (or_else (get_value "sims" d) (arr nil)) [
  | arr xs ↦ payloads xs
  | obj end ↦ ok []
  | obj (field k v fs) ↦ raise attribute_error
  | string s ↦ raise attribute_error
  | _ ↦ raise (type_error "object is not iterable")
]

-- The id that `_dispatch` and `_on_game_event` look up for a cancellation without one: that of the
-- first request with this interaction id.
unfoldable pub find_request : Value → Dict Interaction → Option String
find_request id [] = none
find_request id ((k, i) ∷ d) =
    let rest = find_request id d in
    elim i.interaction_id [
      | none ↦ rest
      | some known ↦ elim id [
        | string wanted ↦ if text_eq known wanted then some k else rest
        | _ ↦ rest
      ]
    ]

unfoldable pub cancel_id : Payload → Dict Interaction → Value
cancel_id d requests =
    let given = get_value "request_id" d in
    let wanted = get_value "interaction_id" d in
    if not (truthy given) && truthy wanted
    then elim (find_request wanted requests) [ none ↦ null | some k ↦ string k ]
    else given
