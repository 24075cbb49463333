-- ===== src/Runtime/Host/Plays.antt =====
-- The branches of `_on_game_event` of HostRuntime (kermp/runtime.py) for readiness, the clock, Sims
-- and interactions.
use ker_mp.Prelude.{Bool, String, [], if◌then◌else◌, none, some, true, ◌+◌, ◌==◌, ◌∷◌}
use ker_mp.Prelude.Dict.{get, put, Dict}
use ker_mp.Prelude.Int.{pos}
use ker_mp.Prelude.Errors.{PyError, Result, ok, raise, value_error}
use ker_mp.Value.{Payload, end, get_value, int, null, obj, or_else, str, string, to_dict, bool}
use ker_mp.Protocol.{MessageType}
use ker_mp.Protocol.Names.{type_text}
use ker_mp.Readiness.{PlayerReadiness}
use ker_mp.Session.{
  Cancellation, Clock, HostSession, Interaction, SimSelection, cancel_interaction, select_sim,
  set_authority_ready, set_bridge_connected, update_readiness, update_sims, validate_interaction,
}
use ker_mp.Net.{
  Body, World, allowed_speed, cancel_body, cancel_id, clock_body, error_text, failure_body, int_at,
  interaction_body, is_type_or_value, is_value, payload_body, readiness_body, reason_body,
  selection_body, session_body, with_command,
}
use ker_mp.Runtime.Bridge.{notify, send}
use ker_mp.Runtime.Reading.{given_sims, text_at}
use ker_mp.Runtime.Host.State.{HostRuntime, Ran, ran, to_game, to_players, with_session}

-- The readiness after an update of the host's player, told to the players.
tell_readiness : World → Result PlayerReadiness × HostSession → HostRuntime → Ran
tell_readiness w (raise e, s) r = (raise e, with_session s r)
tell_readiness w (ok x, s) r =
    ran (to_players w MessageType.readiness (readiness_body r.host.player_id x) (with_session s r))

welcome : HostRuntime → Body
welcome r = payload_body (
    ("role", string "host")
    ∷ ("player_id", string r.host.player_id)
    ∷ ("protocol_version", int (pos 1))
    ∷ [])

-- A KeyError of `update_readiness` comes before the welcome is sent.
welcomed : World → Result PlayerReadiness × HostSession → HostRuntime → Ran
unfolding tell_readiness welcome
welcomed w (raise e, s) r = (raise e, with_session s r)
welcomed w (ok x, s) r =
    tell_readiness w (ok x, s) (record r { bridge = notify "sidecar.welcome" (welcome r) r.bridge })

unfoldable pub game_hello : World → HostRuntime → Ran
unfolding welcomed
game_hello w r =
    welcomed w
      (update_readiness r.host.player_id (set_bridge_connected (bool true) ∷ []) r.host.session) r

unfoldable pub simulation_authority : World → HostRuntime → Ran
unfolding tell_readiness
simulation_authority w r =
    tell_readiness w
      (update_readiness r.host.player_id
        (set_bridge_connected (bool true) ∷ set_authority_ready (bool true) ∷ []) r.host.session)
      r

-- A speed that is no speed of the game is left out of account.
unfoldable pub game_clock : World → Payload → HostRuntime → Ran
game_clock w payload r =
    let default = pos r.host.session.clock.speed in
    elim (int_at "speed" default payload) [
      | raise e ↦ (raise e, r)
      | ok z ↦ elim (allowed_speed z) [
        | none ↦ ran r
        | some speed ↦
            let clock : Clock = record {
              sequence = r.host.session.clock.sequence + 1;
              speed = speed;
              paused = speed == 0;
            } in
            ran (
              to_players w MessageType.clock_state (clock_body clock)
                (with_session (record r.host.session { clock = clock }) r))
      ]
    ]

-- The broadcast includes the host, whose runtime passes the selection on to the game.
selected : World → Result SimSelection × HostSession → HostRuntime → Ran
selected w (raise (value_error e), s) r =
    ran (to_game MessageType.error (reason_body e) (with_session s r))
selected w (raise e, s) r = (raise e, with_session s r)
selected w (ok x, s) r = ran (
    to_game MessageType.sim_selection_state (selection_body x)
      (to_players w MessageType.sim_selection_state (selection_body x) (with_session s r)))

unfoldable pub game_select : World → Payload → HostRuntime → Ran
unfolding selected
game_select w payload r =
    selected w (select_sim r.host.player_id (str (get_value "sim_id" payload)) r.host.session) r

-- {"request_id": …, "reason": …}
abbrev pub rejection : Payload → String → Body
rejection payload reason =
    payload_body (("request_id", get_value "request_id" payload) ∷ ("reason", string reason) ∷ [])

-- A request on its way to the game: announced if it was delivered, and else a failure.
unfoldable pub deliver : World → MessageType → MessageType → MessageType → Body → HostRuntime → Ran
deliver w type accepted rejected body r =
    let (delivered, b) = send (type_text type) body r.bridge in
    let r1 = record r { bridge = b } in
    ran (
      if delivered
      then to_players w accepted body r1
      else to_players w rejected (failure_body body) r1)

interacted :
    World
    → (PyError → Bool)
    → MessageType
    → MessageType
    → MessageType
    → Payload
    → Result Interaction × HostSession
    → HostRuntime
    → Ran
interacted w caught type accepted rejected payload (raise e, s) r =
    if caught e
    then ran (to_game rejected (rejection payload (error_text e)) (with_session s r))
    else (raise e, with_session s r)
interacted w caught type accepted rejected payload (ok i, s) r =
    deliver w type accepted rejected (interaction_body i) (with_session s r)

unfoldable pub game_interaction : World → Payload → HostRuntime → Ran
unfolding interacted deliver
game_interaction w payload r =
    interacted w is_value MessageType.interaction_request MessageType.interaction_accepted
      MessageType.interaction_rejected payload
      (validate_interaction (get_value "request_id" payload) r.host.player_id payload
        r.host.session)
      r

commanded : Payload → Result Payload → HostRuntime → Result Interaction × HostSession
commanded payload (raise e) r = (raise e, r.host.session)
commanded payload (ok command) r = with_command command (
    validate_interaction (get_value "request_id" payload) r.host.player_id
      (put "affordance_id" (get_value "affordance_id" command) payload) r.host.session)

unfoldable pub game_command : World → Payload → HostRuntime → Ran
unfolding interacted deliver commanded
game_command w payload r =
    interacted w is_type_or_value MessageType.interaction_command
      MessageType.interaction_command_accepted MessageType.interaction_command_rejected payload
      (commanded payload (to_dict (or_else (get_value "command" payload) (obj end))) r) r

cancelled : World → Payload → Result Cancellation × HostSession → HostRuntime → Ran
cancelled w payload (raise e, s) r =
    if is_value e
    then ran (
        to_game MessageType.interaction_rejected (rejection payload (error_text e))
          (with_session s r))
    else (raise e, with_session s r)
cancelled w payload (ok x, s) r = ran (
    to_players w MessageType.interaction_cancel (cancel_body x)
      (to_game MessageType.interaction_cancel (cancel_body x) (with_session s r)))

unfoldable pub game_cancel : World → Payload → HostRuntime → Ran
unfolding cancelled
game_cancel w payload r =
    cancelled w payload
      (cancel_interaction (cancel_id payload r.host.session.interaction_requests) r.host.player_id
        payload r.host.session)
      r

unfoldable pub game_sims : World → Payload → HostRuntime → Ran
game_sims w payload r = elim (given_sims payload) [
  | raise e ↦ (raise e, r)
  | ok sims ↦
      let s = update_sims sims r.host.session in
      ran (to_players w MessageType.sim_state (session_body s) (with_session s r))
]

-- `interaction_requests[request_id]` as the game reports on it
abbrev pub reported : String → Payload → Interaction → Interaction
reported status payload i = elim (get_value "interaction_id" payload) [
  | null ↦ record i { status = status }
  | v ↦ record i { status = status; interaction_id = some (str v) }
]

-- `status` is what stands behind the last dot of the type.
unfoldable pub game_report : World → MessageType → String → Payload → HostRuntime → Ran
game_report w type status payload r =
    let id = text_at "request_id" payload in
    let s = r.host.session in
    let requests : Dict Interaction = elim (get id s.interaction_requests) [
      | none ↦ s.interaction_requests
      | some i ↦ put id (reported status payload i) s.interaction_requests
    ] in
    ran (
      to_players w type (payload_body payload)
        (with_session (record s { interaction_requests = requests }) r))
