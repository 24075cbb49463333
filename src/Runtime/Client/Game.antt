-- ===== src/Runtime/Client/Game.antt =====
-- `_on_game_event` of ClientRuntime (kermp/runtime.py): a client sends its player's input to the host.
use ker_mp.Prelude.{
  Bool, List, [], false, if◌then◌else◌, map, none, some, text_eq, true, ◌&&◌, ◌++◌, ◌∷◌,
}
use ker_mp.Prelude.Dict.{keys}
use ker_mp.Prelude.Int.{pos}
use ker_mp.Prelude.Errors.{Result, ok, raise, type_error}
use ker_mp.Value.{
  Items, Payload, Value, arr, bool, get_value, int, nil, obj, of_fields, or_else, str, string,
  to_items, truthy,
}
use ker_mp.Protocol.{MessageType}
use ker_mp.Protocol.Names.{type_of}
use ker_mp.Session.{no_interaction_id}
use ker_mp.Net.{Body, payload_body}
use ker_mp.Runtime.Bridge.{BridgeEvent}
use ker_mp.Runtime.Reading.{letters}
use ker_mp.Runtime.Client.State.{ClientRuntime, Went, send_up, tell_game, went}

-- `while self.pending_build and self.owns_build_lock`: nothing else runs between the sends, so that
-- the lock stays as it is.
unfoldable pub send_builds : List Payload → ClientRuntime → ClientRuntime
send_builds [] c = c
send_builds (d ∷ ds) c = send_builds ds (send_up MessageType.build_operation (payload_body d) c)

unfoldable pub flush_build : ClientRuntime → ClientRuntime
unfolding send_builds
flush_build c =
    if c.owns_build_lock then record (send_builds c.pending_build c) { pending_build = [] } else c

ready_fields : Bool → Body
ready_fields authority =
    payload_body
      (("bridge_connected", bool true) ∷ ("simulation_authority_ready", bool authority) ∷ [])

unfoldable pub client_hello : ClientRuntime → ClientRuntime
unfolding ready_fields
client_hello c = send_up MessageType.readiness (ready_fields false) (
    tell_game "sidecar.welcome"
      (payload_body (
        ("role", string "client")
        ∷ ("player_id", string c.player_id)
        ∷ ("protocol_version", int (pos 1))
        ∷ []))
      c)

-- bool(status.get("role") == "client" and status.get("installed"))
unfoldable pub client_authority : Payload → ClientRuntime → ClientRuntime
unfolding ready_fields
client_authority d c =
    let is_client : Bool = elim (get_value "role" d) [
      | string t ↦ text_eq t "client"
      | _ ↦ false
    ] in
    send_up MessageType.readiness (ready_fields (is_client && truthy (get_value "installed" d))) c

-- `list(payload.get("sims") or [])`, as the list that is sent on
unfoldable pub sims_list : Payload → Result Items
sims_list d = elim (or_else (get_value "sims" d) (arr nil)) [
  | arr xs ↦ ok xs
  | obj fs ↦ ok (to_items (map (λ k. string k) (keys (of_fields fs))))
  | string s ↦ ok (to_items (map (λ k. string k) (letters s)))
  | _ ↦ raise (type_error "object is not iterable")
]

-- active_sim_id not in (None, "", 0, "0")
unfoldable pub select_active : Value → ClientRuntime → ClientRuntime
select_active v c =
    if no_interaction_id v
    then c
    else send_up MessageType.sim_select
        (payload_body (("sim_id", string (str v)) ∷ ("local", bool true) ∷ [])) c

unfoldable pub sims_at : Payload → Result Items → ClientRuntime → Went
unfolding select_active
sims_at d (raise e) c = (raise e, c)
sims_at d (ok xs) c = went (
    select_active (get_value "active_sim_id" d)
      (send_up MessageType.sim_state (payload_body (("sims", arr xs) ∷ [])) c))

unfoldable pub client_sims : Payload → ClientRuntime → Went
unfolding sims_at
client_sims d c = sims_at d (sims_list d) c

unfoldable pub client_build : Payload → ClientRuntime → ClientRuntime
client_build d c =
    let c1 = record c { pending_build = c.pending_build ++ d ∷ [] } in
    if c.owns_build_lock
    then flush_build c1
    else send_up MessageType.build_lock_request (payload_body []) c1

unfoldable pub on_client_type : MessageType → Payload → ClientRuntime → Went
on_client_type MessageType.clock_request_speed d c =
    went (send_up MessageType.clock_request_speed (payload_body d) c)
on_client_type MessageType.clock_request_pause d c =
    went (send_up MessageType.clock_request_pause (payload_body d) c)
on_client_type MessageType.travel_request d c =
    went (send_up MessageType.travel_request (payload_body d) c)
on_client_type MessageType.sim_select d c = went (send_up MessageType.sim_select (payload_body d) c)
on_client_type MessageType.sim_state d c = client_sims d c
on_client_type MessageType.interaction_request d c =
    went (send_up MessageType.interaction_request (payload_body d) c)
on_client_type MessageType.interaction_command d c =
    went (send_up MessageType.interaction_command (payload_body d) c)
on_client_type MessageType.interaction_cancel d c =
    went (send_up MessageType.interaction_cancel (payload_body d) c)
on_client_type MessageType.travel_ready d c =
    went (send_up MessageType.travel_ready (payload_body d) c)
on_client_type MessageType.travel_zone_ready d c =
    went (send_up MessageType.travel_zone_ready (payload_body d) c)
on_client_type MessageType.build_operation d c = went (client_build d c)
on_client_type MessageType.build_lock_request d c =
    went (send_up MessageType.build_lock_request (payload_body []) c)
on_client_type MessageType.build_lock_release d c = went (
    send_up MessageType.build_lock_release (payload_body []) (record c { owns_build_lock = false }))
on_client_type _ d c = went c

unfoldable pub on_client_event : BridgeEvent → ClientRuntime → Went
on_client_event e c =
    if text_eq e.type "game.hello"
    then went (client_hello c)
    else if text_eq e.type "simulation.authority"
    then went (client_authority e.payload c)
    else if text_eq e.type "sims.state"
    then client_sims e.payload c
    else elim (type_of e.type) [ none ↦ went c | some t ↦ on_client_type t e.payload c ]
