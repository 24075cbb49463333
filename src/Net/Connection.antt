-- ===== src/Net/Connection.antt =====
-- The constructor of KerMPHost and `_handle_conn` (kermp/net.py): what a connection's messages do. A
-- manifest is read by `CompatibilityManifest.from_dict`; a Hello carries what that returns or raises.
use ker_mp.Prelude.{
  Bool, Option, String, [], false, if◌then◌else◌, none, not, some, text_eq, true, ◌||◌, ◌∷◌,
}
use ker_mp.Prelude.Dict.{get, has_key, put}
use ker_mp.Prelude.Int.{lt_ℤ, pos, ℤ}
use ker_mp.Prelude.Errors.{Result, ok, raise, value_error, ◌>>=◌}
use ker_mp.Value.{join, bool, string}
use ker_mp.Protocol.{MessageType}
use ker_mp.Compatibility.{CompatibilityManifest}
use ker_mp.Session.{
  add_player, new_session, set_authority_ready, set_bridge_connected, set_save_hash, set_zone_ready,
  update_readiness,
}
use ker_mp.Net.State.{
  KerMpHost, Message, Peer, World, reason_body, session_body, to_peer, to_stranger,
}
use ker_mp.Net.Sending.{drop_peer, log, send_error}
use ker_mp.Net.Requests.{error_text}
use ker_mp.Net.Dispatch.{Handled, dispatch_message}

unfoldable pub new_host : String → String → String → CompatibilityManifest → Bool → KerMpHost
new_host session_id player_id display_name manifest native_required =
    let empty = new_session session_id (some manifest) native_required in
    let joined = add_player player_id display_name (some manifest) empty in
    let ready =
      (update_readiness player_id
        (set_save_hash (string "host-local")
          ∷ set_bridge_connected (bool false)
          ∷ set_zone_ready (bool false)
          ∷ set_authority_ready (bool true)
          ∷ [])
        joined).1 in
    record {
      player_id = player_id;
      display_name = display_name;
      manifest = manifest;
      session = ready;
      peers = [];
      seq = 0;
      sent = [];
    }

-- The first message of a connection.
pub record Hello : Type 0 where
  pub type : MessageType
  pub sender_id : String
  pub display_name : String
  pub manifest : Result CompatibilityManifest

abbrev pub is_hello : MessageType → Bool
is_hello MessageType.hello = true
is_hello _ = false

-- `from_dict`, and the test that the manifest is the sender's
unfoldable pub own_manifest : Hello → Result CompatibilityManifest
own_manifest x = x.manifest >>= λ m.
    if text_eq m.player_id x.sender_id
    then ok m
    else raise (value_error "manifest_player_id_mismatch")

-- What the connection goes on as: served as a player, or closed.
pub data Outcome : Type 0 where
  serving : Outcome
  closed : Outcome

-- An error to the new connection; then the `finally` clause drops the player whose id the Hello names.
unfoldable pub refuse : String → String → KerMpHost → Outcome × KerMpHost
unfolding log
refuse reason id h =
    (closed, drop_peer id (log (to_stranger MessageType.error (reason_body reason)) h))

unfoldable pub admit : Hello → Result CompatibilityManifest → KerMpHost → Outcome × KerMpHost
admit x (raise e) h = refuse (join "invalid_manifest:" (error_text e)) x.sender_id h
admit x (ok m) h =
    let name = if text_eq x.display_name "" then "Player" else x.display_name in
    let peer : Peer = record { player_id = x.sender_id; display_name = name; last_seq = pos 0 } in
    let session = add_player x.sender_id name (some m) h.session in
    (
      serving,
      log (to_peer x.sender_id MessageType.welcome (session_body session))
          (record h { peers = put x.sender_id peer h.peers; session = session }),
    )

unfoldable pub greet : Hello → KerMpHost → Outcome × KerMpHost
greet x h =
    if not (is_hello x.type)
    then (closed, h)
    else if has_key x.sender_id h.peers || text_eq x.sender_id h.player_id
    then refuse "duplicate_player_id" x.sender_id h
    else admit x (own_manifest x) h

-- `peer and env.seq is not None and env.seq <= peer.last_seq`
unfoldable pub seen_before : Option ℤ → Option Peer → Bool
seen_before (some n) (some p) = not (lt_ℤ p.last_seq n)
seen_before _ _ = false

unfoldable pub note_seq : String → Option ℤ → KerMpHost → KerMpHost
note_seq id none h = h
note_seq id (some n) h = elim (get id h.peers) [
  | none ↦ h
  | some p ↦ record h { peers = put id (record p { last_seq = n }) h.peers }
]

abbrev pub after_dispatch : String → Handled → Outcome × KerMpHost
after_dispatch id (ok _, h) = (serving, h)
after_dispatch id (raise e, h) = (closed, drop_peer id h)

-- A message on the connection of `id`: an exception ends the connection.
unfoldable pub receive : World → String → Message → KerMpHost → Outcome × KerMpHost
receive w id m h =
    if not (text_eq m.sender_id id)
    then (serving, send_error id "sender_id_mismatch" h)
    else if seen_before m.seq (get id h.peers)
    then (serving, h)
    else after_dispatch id (dispatch_message w m (note_seq id m.seq h))
