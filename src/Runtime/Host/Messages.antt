-- ===== src/Runtime/Host/Messages.antt =====
-- `_on_network_message` of HostRuntime (kermp/runtime.py), which the host calls for the messages that it
-- hands on, whoever has sent them, and for its own broadcasts with `include_host`.
use ker_mp.Prelude.{List, Option, [], if◌then◌else◌, none, some, ◌∷◌}
use ker_mp.Prelude.Errors.{ok, raise}
use ker_mp.Protocol.{MessageType}
use ker_mp.Protocol.Names.{type_text}
use ker_mp.Net.{
  Body, Handled, Message, Sent, World, dispatch_message, failure_body, handed_on, payload_body,
  to_host,
}
use ker_mp.Runtime.Bridge.{send}
use ker_mp.Runtime.Host.State.{HostRuntime, Ran, ran, to_game, to_players}
use ker_mp.Runtime.Host.Travels.{abort_travel, start_travel, travel_ready, travel_zone_ready}

-- A request that the game does not get is announced as rejected.
unfoldable pub pass_request : World → MessageType → MessageType → Body → HostRuntime → Ran
pass_request w type rejected body r =
    let (delivered, b) = send (type_text type) body r.bridge in
    let r1 = record r { bridge = b } in
    ran (if delivered then r1 else to_players w rejected (failure_body body) r1)

-- The branches that pass a message on to the game.
unfoldable pub pass_on : World → MessageType → Body → HostRuntime → Ran
unfolding pass_request
pass_on w MessageType.clock_state body r = ran (to_game MessageType.clock_state body r)
pass_on w MessageType.build_apply body r = ran (to_game MessageType.build_apply body r)
pass_on w MessageType.sim_selection_state body r =
    ran (to_game MessageType.sim_selection_state body r)
pass_on w MessageType.sim_state body r = ran (to_game MessageType.sim_state body r)
pass_on w MessageType.interaction_accepted body r =
    pass_request w MessageType.interaction_request MessageType.interaction_rejected body r
pass_on w MessageType.interaction_command_accepted body r =
    pass_request w MessageType.interaction_command MessageType.interaction_command_rejected body r
pass_on w MessageType.interaction_cancel body r =
    ran (to_game MessageType.interaction_cancel body r)
pass_on w MessageType.interaction_rejected body r =
    ran (to_game MessageType.interaction_rejected body r)
pass_on w MessageType.interaction_queued body r =
    ran (to_game MessageType.interaction_queued body r)
pass_on w MessageType.interaction_started body r =
    ran (to_game MessageType.interaction_started body r)
pass_on w MessageType.interaction_finished body r =
    ran (to_game MessageType.interaction_finished body r)
pass_on w MessageType.interaction_command_rejected body r =
    ran (to_game MessageType.interaction_command_rejected body r)
pass_on w MessageType.error body r = ran (to_game MessageType.error body r)
pass_on w _ body r = ran r

unfoldable pub on_peer_type : World → MessageType → Message → HostRuntime → Ran
on_peer_type w MessageType.travel_request m r = start_travel w m.payload m.sender_id r
on_peer_type w MessageType.travel_ready m r = travel_ready w m.sender_id m.payload r
on_peer_type w MessageType.travel_zone_ready m r = travel_zone_ready w m.sender_id m.payload r
on_peer_type w MessageType.travel_abort m r = abort_travel w "participant_abort" m.payload r
on_peer_type w t m r = pass_on w t (payload_body m.payload) r

-- What the host has just said to its own runtime. Its own broadcasts are none of travel.
unfoldable pub on_notice : World → Sent → HostRuntime → Ran
unfolding on_peer_type
on_notice w (handed_on m) r = on_peer_type w m.type m r
on_notice w (to_host t body) r = pass_on w t body r
on_notice w _ r = ran r

-- The notice with which a handler of the host ended, if it did.
unfoldable pub last_notice : List Sent → List Sent → Option Sent
last_notice [] [] = none
last_notice [] (x ∷ []) = some x
last_notice [] (x ∷ y ∷ ys) = last_notice [] (y ∷ ys)
last_notice (x ∷ xs) [] = none
last_notice (x ∷ xs) (y ∷ ys) = last_notice xs ys

unfoldable pub after_host : World → HostRuntime → Handled → Ran
unfolding last_notice on_notice
after_host w r (raise e, h) = (raise e, record r { host = h })
after_host w r (ok _, h) =
    let r' = record r { host = h } in
    elim (last_notice r.host.sent h.sent) [ none ↦ ran r' | some x ↦ on_notice w x r' ]

-- `_dispatch` of the host with its runtime behind it: a handler speaks to the runtime last.
unfoldable pub dispatch_through : World → Message → HostRuntime → Ran
unfolding after_host
dispatch_through w m r = after_host w r (dispatch_message w m r.host)
