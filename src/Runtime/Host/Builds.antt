-- ===== src/Runtime/Host/Builds.antt =====
-- The build branches and the view updates of `_on_game_event` of HostRuntime (kermp/runtime.py).
-- `decode` and `encode` are base64's functions.
use ker_mp.Prelude.{
  Bool, Option, String, [], false, if◌then◌else◌, length, none, not, some, true, ℕ, ◌+◌, ◌∷◌,
}
use ker_mp.Prelude.Int.{pos, ℤ}
use ker_mp.Prelude.Errors.{
  PyError, Result, ok, permission_error, raise, type_error, value_error, ◌>>=◌,
}
use ker_mp.Value.{
  Payload, end, get_value, int, to_fields, join, obj, or_else, str, string, to_dict, to_int,
}
use ker_mp.Protocol.{MessageType}
use ker_mp.Travel.{TravelCoordinator, finished}
use ker_mp.BuildSync.{BuildAuthority, BuildOperation, release_lock, request_lock, submit}
use ker_mp.SaveSync.{Bytes}
use ker_mp.Net.{World, error_text, lock_body, owner, payload_body, reason_body}
use ker_mp.Runtime.Reading.{item, raw_of}
use ker_mp.Runtime.Host.State.{HostRuntime, Ran, ran, to_game, to_players, with_session}

abbrev pub with_build : BuildAuthority → HostRuntime → HostRuntime
with_build a r = with_session (record r.host.session { build = a }) r

-- except (PermissionError, ValueError, TypeError)
abbrev pub is_refusal : PyError → Bool
is_refusal (permission_error s) = true
is_refusal (value_error s) = true
is_refusal (type_error s) = true
is_refusal _ = false

refused : PyError → HostRuntime → Ran
refused e r =
    if is_refusal e
    then ran (to_game MessageType.error (reason_body (error_text e)) r)
    else (raise e, r)

-- The payload of BUILD_APPLY that HostRuntime makes for an operation of its own game.
unfoldable pub host_payload : BuildOperation → Payload
host_payload o =
    ("op_seq", int (pos o.seq))
    ∷ ("op_id", get_value "op_id" o.args)
    ∷ ("player_id", string o.player_id)
    ∷ ("op", string o.op)
    ∷ ("data", obj (to_fields o.args))
    ∷ []

-- An accepted operation goes to the players only: the host's game has applied it.
submitted : World → Result BuildOperation × BuildAuthority → HostRuntime → Ran
unfolding refused host_payload
submitted w (raise e, a) r = refused e (with_build a r)
submitted w (ok o, a) r =
    ran (to_players w MessageType.build_apply (payload_body (host_payload o)) (with_build a r))

-- The lease is taken first. `dict(data or {})` is read before `submit` is called.
unfoldable pub game_build : World → Payload → HostRuntime → Ran
unfolding refused submitted
game_build w payload r =
    let id = r.host.player_id in
    let (granted, a) = request_lock w.now w.stamp id r.host.session.build in
    let r1 = with_build a r in
    if not granted
    then ran (to_game MessageType.build_lock_state (lock_body (owner a.lock) none) r1)
    else elim (to_dict (or_else (get_value "data" payload) (obj end))) [
      | raise e ↦ refused e r1
      | ok args ↦ submitted w (submit w.now id (str (get_value "op" payload)) args a) r1
    ]

-- A lock state that names an owner only is read by everybody as one with `granted_to` null.
unfoldable pub tell_lock : World → Option String → Option String → HostRuntime → HostRuntime
tell_lock w holder granted r =
    let body = lock_body holder granted in
    to_players w MessageType.build_lock_state body (to_game MessageType.build_lock_state body r)

unfoldable pub game_lock_request : World → HostRuntime → Ran
game_lock_request w r =
    let id = r.host.player_id in
    let (granted, a) = request_lock w.now w.stamp id r.host.session.build in
    ran (tell_lock w (owner a.lock) (if granted then some id else none) (with_build a r))

unfoldable pub game_lock_release : World → HostRuntime → Ran
game_lock_release w r =
    let a = (release_lock r.host.player_id r.host.session.build).1 in
    ran (tell_lock w (owner a.lock) none (with_build a r))

-- The epoch of a travel under way.
unfoldable pub open_epoch : TravelCoordinator → Option ℕ
open_epoch c = elim c.current [
  | none ↦ none
  | some t ↦ if finished t.phase then none else some t.epoch
]

module _ (decode : String → Result Bytes) where
  -- The number and the bytes of a view update.
  unfoldable pub view_of : Payload → Result (ℤ × Bytes)
  view_of d = item "msg_id" d >>= λ v. to_int v >>= λ id. raw_of decode d >>= λ raw. ok (id, raw)

module _ (encode : Bytes → String) where
  -- What the players get for a view update.
  unfoldable pub view_fields : ℤ → Bytes → ℕ → Option ℕ → Payload
  view_fields id raw sequence epoch =
      ("msg_id", int id)
      ∷ ("sequence", int (pos sequence))
      ∷ ("payload_b64", string (encode raw))
      ∷ elim epoch [ none ↦ [] | some n ↦ ("epoch", int (pos n)) ∷ [] ]

  -- The number and the bytes have been read.
  unfoldable pub pass_view : World → Result (ℤ × Bytes) → HostRuntime → Ran
  pass_view w (raise e) r =
      ran (to_game MessageType.error (reason_body (join "raw_message_invalid:" (error_text e))) r)
  pass_view w (ok (id, raw)) r =
      let sequence = r.game_sequence + 1 in
      let out = view_fields id raw sequence (open_epoch r.host.session.travel) in
      ran (
        to_players w MessageType.game_raw_message (payload_body out) (record r {
          game_sequence = sequence;
          view_updates_sent = r.view_updates_sent + 1;
          last_view_update_size = length raw;
          last_view_update_msg_id = some id;
        }))

module _ (decode : String → Result Bytes) (encode : Bytes → String) where
  unfoldable pub game_view : World → Payload → HostRuntime → Ran
  unfolding view_of pass_view
  game_view w payload r = pass_view encode w (view_of decode payload) r
