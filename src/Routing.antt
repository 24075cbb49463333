-- ===== src/Routing.antt =====
-- kermp/routing.py: who receives a message, the whitelist of commands, and the open dialogs. The ids
-- that uuid4() makes are the arguments `fresh`; a handler is a function that returns or raises.
pub mod Audience
pub mod Laws
use ker_mp.Prelude.{
  Bool, List, String, [], false, if◌then◌else◌, ltb, none, not, some, text_eq, true, ℕ, ◌*◌, ◌∷◌,
}
use ker_mp.Prelude.Dict.{Dict, get, has_key, pop, put}
use ker_mp.Prelude.Errors.{Result, ok, raise, type_error, value_error}
use ker_mp.Value.{Payload, Value, string, null, bool, int, float, arr, obj, or_else, join, str_int}

pub record RequestCorrelation : Type 0 where
  pub request_id : Value
  pub player_id : String
  pub family : String
  pub completed : Bool

abbrev pub Handler : Type 0
Handler = String → Payload → Result Payload

pub record NetworkedCommandRouter : Type 0 where
  pub handlers : Dict Handler
  pub pending : Dict RequestCorrelation

unfoldable pub register : String → Handler → NetworkedCommandRouter → NetworkedCommandRouter
register family handler r = record r { handlers = put family handler r.handlers }

pub record CommandResult : Type 0 where
  pub request_id : Value
  pub family : String
  pub result : Payload

-- `request_id or uuid.uuid4().hex`
abbrev pub id_or : Value → String → Value
id_or request_id fresh = or_else request_id (string fresh)

-- A request id as a key of `pending`: equal keys for equal ids, a number is no text, True is 1 there,
-- and a list or a dict cannot be a key.
unfoldable pub id_key : Value → Result String
id_key (string s) = ok (join "'" s)
id_key null = ok "None"
id_key (bool b) = ok (if b then "1" else "0")
id_key (int z) = ok (str_int z)
id_key (float z r) = ok r
id_key (arr xs) = raise (type_error "unhashable type: 'list'")
id_key (obj d) = raise (type_error "unhashable type: 'dict'")

-- The call of the handler, with the request already in `pending`.
run_handler :
    String
    → Result Payload
    → RequestCorrelation
    → NetworkedCommandRouter
    → Result CommandResult × NetworkedCommandRouter
run_handler key (raise e) c r = (raise e, r)
run_handler key (ok result) c r = (
  ok (record { request_id = c.request_id; family = c.family; result = result }),
  record r { pending = put key (record c { completed = true }) r.pending },
)

unfoldable pub dispatch_as :
    String
    → Value
    → String
    → String
    → Payload
    → NetworkedCommandRouter
    → Result CommandResult × NetworkedCommandRouter
unfolding run_handler
dispatch_as key request_id player_id family payload r =
    if has_key key r.pending
    then (raise (value_error "duplicate_request_id"), r)
    else elim (get family r.handlers) [
      | none ↦ (raise (value_error "command_not_allowed"), r)
      | some handler ↦
          let c : RequestCorrelation = record {
            request_id = request_id;
            player_id = player_id;
            family = family;
            completed = false;
          } in
          run_handler key (handler player_id payload) c (record r { pending = put key c r.pending })
    ]

-- The id is looked up in `pending`, which raises where it cannot be a key.
unfoldable pub dispatch_keyed :
    Result String
    → Value
    → String
    → String
    → Payload
    → NetworkedCommandRouter
    → Result CommandResult × NetworkedCommandRouter
unfolding dispatch_as
dispatch_keyed (raise e) request_id player_id family payload r = (raise e, r)
dispatch_keyed (ok key) request_id player_id family payload r =
    dispatch_as key request_id player_id family payload r

-- `given` is null for a request without an id.
unfoldable pub dispatch :
    String
    → String
    → String
    → Payload
    → Value
    → NetworkedCommandRouter
    → Result CommandResult × NetworkedCommandRouter
unfolding dispatch_keyed id_key
dispatch fresh player_id family payload given r =
    let request_id = id_or given fresh in
    dispatch_keyed (id_key request_id) request_id player_id family payload r

pub record Dialog : Type 0 where
  pub dialog_id : String
  pub owner_player_id : String
  pub dialog_type : String
  pub payload : Payload

pub record DialogRouter : Type 0 where
  pub pending : Dict Dialog

-- `size` is len(str(payload)).
unfoldable pub open_dialog :
    String → ℕ → String → String → Payload → DialogRouter → Result Dialog × DialogRouter
open_dialog fresh size owner_player_id dialog_type payload d =
    if ltb (64 * 1024) size
    then (raise (value_error "dialog_payload_too_large"), d)
    else let entry : Dialog = record {
      dialog_id = fresh;
      owner_player_id = owner_player_id;
      dialog_type = dialog_type;
      payload = payload;
    } in
      (ok entry, record { pending = put fresh entry d.pending })

pub record DialogAnswer : Type 0 where
  pub dialog : Dialog
  pub response : Payload

-- The dialog is taken out first, and put back, behind the others, for a player who does not own it.
unfoldable pub respond :
    String → String → Payload → DialogRouter → Result DialogAnswer × DialogRouter
respond player_id dialog_id response d = elim (get dialog_id d.pending) [
  | none ↦ (raise (value_error "unknown_or_completed_dialog"), d)
  | some entry ↦
      let left = pop dialog_id d.pending in
      if not (text_eq entry.owner_player_id player_id)
      then (raise (value_error "dialog_not_owned"), record { pending = put dialog_id entry left })
      else (ok (record { dialog = entry; response = response }), record { pending = left })
]

-- The keys of the dialogs of a player.
unfoldable pub owned_keys : String → Dict Dialog → List String
owned_keys player_id [] = []
owned_keys player_id ((k, v) ∷ d) =
    let rest = owned_keys player_id d in
    if text_eq v.owner_player_id player_id then k ∷ rest else rest

unfoldable pub pop_all {ℓ} : {V : Type ℓ} → List String → Dict V → Dict V
pop_all [] d = d
pop_all (k ∷ ks) d = pop_all ks (pop k d)

unfoldable pub disconnect : String → DialogRouter → List String × DialogRouter
unfolding owned_keys pop_all
disconnect player_id d =
    let stale = owned_keys player_id d.pending in
    (stale, record { pending = pop_all stale d.pending })
