-- ===== src/GameMod/Applying.antt =====
-- `capture_local`, `apply_remote` and `replay_last` of SimsBuildAdapter
-- (sims_mod_src/kermp_mod/build_adapter.py).
use ker_mp.Prelude.{
  Bool, List, Option, String, [], false, if◌then◌else◌, none, not, some, text_eq, true, ◌++◌, ◌+◌,
  ◌∷◌,
}
use ker_mp.Prelude.Dict.{put}
use ker_mp.Prelude.Sets.{contains}
use ker_mp.Prelude.Errors.{PyError, Result, ok, raise}
use ker_mp.Prelude.Int.{pos}
use ker_mp.Value.{Payload, get_value, join, obj, or_else, str, str_int, string, to_fields}
use ker_mp.GameMod.Adapter.{
  Applier, Operation, SimsBuildAdapter, count_operation, describe, normalize_operation,
}

abbrev pub same_text : Option String → Option String → Bool
same_text none none = true
same_text (some s) (some t) = text_eq s t
same_text _ _ = false

-- self._last_definition.get(object_id): an object id may be None, and so may a definition.
unfoldable pub definition_of : Option String → List (Option String × Option String) → Option String
definition_of k [] = none
definition_of k ((j, v) ∷ d) = if same_text j k then v else definition_of k d

unfoldable pub put_definition :
    Option String
    → Option String
    → List (Option String × Option String)
    → List (Option String × Option String)
put_definition k v [] = (k, v) ∷ []
put_definition k v ((j, w) ∷ d) =
    let rest = put_definition k v d in if same_text j k then (j, v) ∷ d else (j, w) ∷ rest

-- An id of a normalized operation is a text or None.
abbrev pub id_in : String → Operation → Option String
id_in key o = elim (get_value key o.args) [ string s ↦ some s | _ ↦ none ]

-- The operation is given its id and is remembered.
unfoldable pub remember :
    Payload → Operation → SimsBuildAdapter → Option Operation × SimsBuildAdapter
unfolding count_operation
remember payload o a =
    let n = a.capture_sequence + 1 in
    let local = string (join "local-" (str_int (pos n))) in
    let done = record o { op_id = some (str (or_else (get_value "op_id" payload) local)) } in
    (
      some done,
      count_operation o.op (record a {
        capture_sequence = n;
        last_local_operation = some done;
        last_operation_by_type = put o.op done a.last_operation_by_type;
        last_capture = some done;
        captured_total = a.captured_total + 1;
      }),
    )

-- `capture_local` of a normalized operation: a definition that the object has already is no news.
unfoldable pub capture_operation :
    Payload → Operation → SimsBuildAdapter → Option Operation × SimsBuildAdapter
unfolding remember definition_of put_definition
capture_operation payload o a =
    let object_id = id_in "object_id" o in
    let definition_id = id_in "definition_id" o in
    if not (text_eq o.op "object.definition")
    then remember payload o a
    else if same_text (definition_of object_id a.last_definition) definition_id
    then (none, a)
    else remember payload o
        (record a { last_definition = put_definition object_id definition_id a.last_definition })

-- `none` stands for the False that `capture_local` returns.
unfoldable pub captured :
    Payload → Result Operation → SimsBuildAdapter → Option Operation × SimsBuildAdapter
unfolding capture_operation
captured payload (raise e) a = (
  none,
  record a {
    last_error = some (describe e);
    capture_errors = a.capture_errors + 1;
    last_capture_error = some (describe e);
  },
)
captured payload (ok o) a = capture_operation payload o a

unfoldable pub capture_local : Payload → SimsBuildAdapter → Option Operation × SimsBuildAdapter
unfolding normalize_operation captured
capture_local payload a =
    if a.applying_remote
    then (none, record a { suppressed_remote_echo = a.suppressed_remote_echo + 1 })
    else captured payload (normalize_operation payload) a

-- The captures that a call of the game's makes while it runs.
unfoldable pub captures : List Payload → SimsBuildAdapter → SimsBuildAdapter
unfolding capture_local
captures [] a = a
captures (p ∷ ps) a = captures ps (capture_local p a).1

-- The call of the game has returned, or has raised; `finally` the echo is let through again.
unfoldable pub after_apply :
    Operation → Option PyError → SimsBuildAdapter → Result Bool × SimsBuildAdapter
after_apply o none a = (ok true, record (count_operation o.op a) { applying_remote = false })
after_apply o (some e) a =
    (raise e, record a { last_error = some (describe e); applying_remote = false })

unfoldable pub run_apply :
    Operation → Option Applier → SimsBuildAdapter → Result Bool × SimsBuildAdapter
unfolding captures after_apply
run_apply o none a = (ok false, a)
run_apply o (some f) a =
    let (echoes, outcome) = f o in
    after_apply o outcome
      (captures echoes (record a { applying_remote = true; applied = a.applied ++ o ∷ [] }))

-- The dict that an operation is.
abbrev pub as_payload : Operation → Payload
as_payload o =
    ("op", string o.op)
    ∷ ("data", obj (to_fields o.args))
    ∷ elim o.op_id [ none ↦ [] | some s ↦ ("op_id", string s) ∷ [] ]

module _ (dumps : Operation → String) where
  -- operation.get('op_id') or json.dumps(operation, sort_keys=True)
  abbrev pub key_of : Operation → String
  key_of o = elim o.op_id [ none ↦ dumps o | some s ↦ if text_eq s "" then dumps o else s ]

  unfoldable pub apply_operation : Operation → SimsBuildAdapter → Result Bool × SimsBuildAdapter
  unfolding run_apply
  apply_operation o a =
      if contains (key_of o) a.seen
      then (ok false, a)
      else run_apply o a.apply
          (record a { seen = key_of o ∷ a.seen; last_remote_operation = some o })

  unfoldable pub apply_normalized :
      Result Operation → SimsBuildAdapter → Result Bool × SimsBuildAdapter
  unfolding apply_operation
  apply_normalized (raise e) a = (ok false, record a { last_error = some (describe e) })
  apply_normalized (ok o) a = apply_operation o a

  unfoldable pub apply_remote : Payload → SimsBuildAdapter → Result Bool × SimsBuildAdapter
  unfolding apply_normalized
  apply_remote payload a = apply_normalized (normalize_operation payload) a

  unfoldable pub replay : Option Operation → SimsBuildAdapter → Result Bool × SimsBuildAdapter
  unfolding apply_remote
  replay none a = (ok false, a)
  replay (some o) a = apply_remote (as_payload o) a

  unfoldable pub replay_last : SimsBuildAdapter → Result Bool × SimsBuildAdapter
  unfolding replay
  replay_last a = replay a.last_local_operation a
