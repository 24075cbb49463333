-- ===== src/Net/Dispatch.antt =====
-- `_dispatch` of KerMPHost (kermp/net.py), a function for each kind of message. An exception that
-- `_dispatch` does not catch is the result `raise`.
use ker_mp.Prelude.{
  Bool, Option, String, [], false, if◌then◌else◌, leb, none, some, true, ℕ, ◌+◌, ◌==◌, ◌∷◌,
}
use ker_mp.Prelude.Dict.{get, put}
use ker_mp.Prelude.Int.{negsuc, pos, ℤ}
use ker_mp.Prelude.Errors.{
  PyError, Result, key_error, ok, permission_error, raise, type_error, value_error,
}
use ker_mp.Value.{Payload, end, get_value, join, obj, or_else, str, string, to_dict, truthy}
use ker_mp.Protocol.{MessageType}
use ker_mp.Routing.{dispatch, respond}
use ker_mp.BuildSync.{BuildLock, release_lock, request_lock, submit}
use ker_mp.Session.{
  Clock, HostSession, Interaction, cancel_interaction, select_sim, set_bytes_received, set_error,
  set_save_hash, set_total_bytes, update_readiness, update_sims, validate_interaction,
}
use ker_mp.Net.State.{
  Body, KerMpHost, Message, World, cancel_body, clock_body, command_body, dialog_body, echo_body,
  handed_on, interaction_body, lock_body, operation_body, readiness_body, selection_body,
  session_body,
}
use ker_mp.Net.Sending.{broadcast, broadcast_all, log, send_error, write_to}
use ker_mp.Net.Requests.{cancel_id, error_text, int_at, readiness_fields, sims_of}

abbrev pub Handled : Type 0
Handled = Result (Unit {0}) × KerMpHost

abbrev pub done : KerMpHost → Handled
done h = (ok tt, h)

-- except (ValueError, KeyError)
abbrev pub is_value_or_key : PyError → Bool
is_value_or_key (value_error s) = true
is_value_or_key (key_error s) = true
is_value_or_key _ = false

abbrev pub is_value : PyError → Bool
is_value (value_error s) = true
is_value _ = false

-- except (TypeError, ValueError)
abbrev pub is_type_or_value : PyError → Bool
is_type_or_value (type_error s) = true
is_type_or_value (value_error s) = true
is_type_or_value _ = false

-- except (PermissionError, KeyError, TypeError)
abbrev pub is_build_error : PyError → Bool
is_build_error (permission_error s) = true
is_build_error (key_error s) = true
is_build_error (type_error s) = true
is_build_error _ = false

-- The except clause of most branches: the error goes to the sender, or on to the caller.
abbrev pub on_error : (PyError → Bool) → String → PyError → KerMpHost → Handled
on_error caught id e h = if caught e then done (send_error id (error_text e) h) else (raise e, h)

-- The result of a method of the session: its value goes to everybody, its error to `on_error`.
abbrev pub announce :
    {A : Type 0}
    → (PyError → Bool)
    → String
    → World
    → MessageType
    → (A → Body)
    → Result A × HostSession
    → KerMpHost
    → Handled
announce caught id w type body (raise e, s) h = on_error caught id e (record h { session = s })
announce caught id w type body (ok a, s) h =
    done (broadcast_all w.dead type (body a) (record h { session = s }))

unfoldable pub on_ping : Message → KerMpHost → Handled
on_ping m h = done (write_to m.sender_id MessageType.pong (echo_body m.message_id) h)

unfoldable pub on_readiness : World → Message → KerMpHost → Handled
on_readiness w m h =
    announce is_value_or_key m.sender_id w MessageType.readiness (readiness_body m.sender_id)
      (update_readiness m.sender_id (readiness_fields m.payload) h.session) h

unfoldable pub on_save_ack : World → Message → KerMpHost → Handled
on_save_ack w m h =
    let hash = str (or_else (get_value "sha256" m.payload) (string "")) in
    elim (int_at "total_bytes" (pos 0) m.payload) [
      | raise e ↦ on_error is_value_or_key m.sender_id e h
      | ok total ↦
          announce is_value_or_key m.sender_id w MessageType.readiness (readiness_body m.sender_id)
            (update_readiness m.sender_id
              (set_save_hash (string hash) ∷ set_bytes_received total ∷ set_total_bytes total ∷ [])
              h.session)
            h
    ]

-- Nothing is caught here.
unfoldable pub on_save_error : World → Message → KerMpHost → Handled
on_save_error w m h =
    let reason : String = elim (get "reason" m.payload) [ none ↦ "unknown" | some v ↦ str v ] in
    announce (λ e. false) m.sender_id w MessageType.readiness (readiness_body m.sender_id)
      (update_readiness m.sender_id (set_error (string (join "save_sync:" reason)) ∷ []) h.session)
      h

-- The clock after `clock.update(sequence=sequence + 1, speed=speed, paused=paused)`, told to all.
unfoldable pub set_clock : World → ℕ → Bool → KerMpHost → KerMpHost
set_clock w speed paused h =
    let clock : Clock = record {
      sequence = h.session.clock.sequence + 1;
      speed = speed;
      paused = paused;
    } in
    broadcast_all w.dead MessageType.clock_state (clock_body clock)
      (record h { session = record h.session { clock = clock } })

-- speed in (0, 1, 2, 3)
unfoldable pub allowed_speed : ℤ → Option ℕ
allowed_speed (pos n) = if leb n 3 then some n else none
allowed_speed (negsuc n) = none

unfoldable pub on_request_speed : World → Message → KerMpHost → Handled
on_request_speed w m h = elim (int_at "speed" (pos 0) m.payload) [
  | raise e ↦ (raise e, h)
  | ok z ↦ elim (allowed_speed z) [
    | none ↦ done (send_error m.sender_id "invalid_clock_speed" h)
    | some speed ↦ done (set_clock w speed (speed == 0) h)
  ]
]

unfoldable pub on_request_pause : World → Message → KerMpHost → Handled
on_request_pause w m h =
    let paused = truthy (get_value "paused" m.payload) in
    let speed = h.session.clock.speed in
    done (set_clock w (if paused then 0 else if speed == 0 then 1 else speed) paused h)

unfoldable pub on_clock_resync : Message → KerMpHost → Handled
on_clock_resync m h =
    done (write_to m.sender_id MessageType.clock_state (clock_body h.session.clock) h)

unfoldable pub on_command : World → Message → KerMpHost → Handled
on_command w m h = elim (to_dict (or_else (get_value "payload" m.payload) (obj end))) [
  | raise e ↦ on_error is_value m.sender_id e h
  | ok args ↦
      let (r, commands) =
        dispatch w.fresh m.sender_id (str (get_value "family" m.payload)) args
          (get_value "request_id" m.payload) h.session.commands in
      announce is_value m.sender_id w MessageType.command_result command_body
        (r, record h.session { commands = commands }) h
]

unfoldable pub on_dialog : World → Message → KerMpHost → Handled
on_dialog w m h = elim (to_dict (or_else (get_value "response" m.payload) (obj end))) [
  | raise e ↦ on_error is_value m.sender_id e h
  | ok response ↦
      let (r, dialogs) =
        respond m.sender_id (str (get_value "dialog_id" m.payload)) response h.session.dialogs in
      announce is_value m.sender_id w MessageType.dialog_response dialog_body
        (r, record h.session { dialogs = dialogs }) h
]

unfoldable pub on_snapshot : Message → KerMpHost → Handled
on_snapshot m h = done (write_to m.sender_id MessageType.snapshot (session_body h.session) h)

abbrev pub owner : Option BuildLock → Option String
owner none = none
owner (some l) = some l.owner_id

unfoldable pub on_lock_request : World → Message → KerMpHost → Handled
on_lock_request w m h =
    let (granted, build) = request_lock w.now w.stamp m.sender_id h.session.build in
    done (
      broadcast w.dead MessageType.build_lock_state
        (lock_body (owner build.lock) (if granted then some m.sender_id else none))
        (record h { session = record h.session { build = build } }))

unfoldable pub on_sim_select : World → Message → KerMpHost → Handled
on_sim_select w m h =
    announce is_value m.sender_id w MessageType.sim_selection_state selection_body
      (select_sim m.sender_id (str (get_value "sim_id" m.payload)) h.session) h

unfoldable pub on_sim_state : World → Message → KerMpHost → Handled
on_sim_state w m h = elim (sims_of m.payload) [
  | raise e ↦ (raise e, h)
  | ok sims ↦
      let session = update_sims sims h.session in
      done (
        broadcast_all w.dead MessageType.sim_state (session_body session)
          (record h { session = session }))
]

unfoldable pub on_interaction : World → Message → KerMpHost → Handled
on_interaction w m h =
    announce is_value m.sender_id w MessageType.interaction_accepted interaction_body
      (validate_interaction (get_value "request_id" m.payload) m.sender_id m.payload h.session) h

-- `request["command"] = command`, in the stored request too
unfoldable pub with_command :
    Payload → Result Interaction × HostSession → Result Interaction × HostSession
with_command command (raise e, s) = (raise e, s)
with_command command (ok i, s) =
    let i' = record i { command = some command } in
    (ok i', record s { interaction_requests = put i.request_id i' s.interaction_requests })

-- `{**env.payload, "affordance_id": command.get("affordance_id")}`
unfoldable pub on_interaction_command : World → Message → KerMpHost → Handled
on_interaction_command w m h = elim (to_dict (or_else (get_value "command" m.payload) (obj end))) [
  | raise e ↦ on_error is_type_or_value m.sender_id e h
  | ok command ↦
      announce is_type_or_value m.sender_id w MessageType.interaction_command_accepted
        interaction_body
        (with_command command (
          validate_interaction (get_value "request_id" m.payload) m.sender_id
            (put "affordance_id" (get_value "affordance_id" command) m.payload) h.session))
        h
]

unfoldable pub on_interaction_cancel : World → Message → KerMpHost → Handled
on_interaction_cancel w m h =
    announce is_value m.sender_id w MessageType.interaction_cancel cancel_body
      (cancel_interaction (cancel_id m.payload h.session.interaction_requests) m.sender_id m.payload
        h.session)
      h

-- The answer names no owner, whoever holds the lease.
unfoldable pub on_lock_release : World → Message → KerMpHost → Handled
on_lock_release w m h =
    let build = (release_lock m.sender_id h.session.build).1 in
    done (
      broadcast w.dead MessageType.build_lock_state (lock_body none none)
        (record h { session = record h.session { build = build } }))

-- `env.payload["op"]` raises KeyError where there is none; ValueError is not caught.
unfoldable pub on_build_operation : World → Message → KerMpHost → Handled
on_build_operation w m h = elim (get "op" m.payload) [
  | none ↦ on_error is_build_error m.sender_id (key_error "op") h
  | some op ↦ elim (to_dict (elim (get "data" m.payload) [ none ↦ obj end | some v ↦ v ])) [
    | raise e ↦ on_error is_build_error m.sender_id e h
    | ok args ↦
        let (r, build) = submit w.now m.sender_id (str op) args h.session.build in
        announce is_build_error m.sender_id w MessageType.build_apply operation_body
          (r, record h.session { build = build }) h
  ]
]

unfoldable pub dispatch_type : MessageType → World → Message → KerMpHost → Handled
dispatch_type MessageType.ping w m h = on_ping m h
dispatch_type MessageType.readiness w m h = on_readiness w m h
dispatch_type MessageType.save_ack w m h = on_save_ack w m h
dispatch_type MessageType.save_error w m h = on_save_error w m h
dispatch_type MessageType.clock_request_speed w m h = on_request_speed w m h
dispatch_type MessageType.clock_request_pause w m h = on_request_pause w m h
dispatch_type MessageType.clock_resync w m h = on_clock_resync m h
dispatch_type MessageType.command_request w m h = on_command w m h
dispatch_type MessageType.dialog_response w m h = on_dialog w m h
dispatch_type MessageType.snapshot_request w m h = on_snapshot m h
dispatch_type MessageType.build_lock_request w m h = on_lock_request w m h
dispatch_type MessageType.sim_select w m h = on_sim_select w m h
dispatch_type MessageType.sim_state w m h = on_sim_state w m h
dispatch_type MessageType.interaction_request w m h = on_interaction w m h
dispatch_type MessageType.interaction_command w m h = on_interaction_command w m h
dispatch_type MessageType.interaction_cancel w m h = on_interaction_cancel w m h
dispatch_type MessageType.build_lock_release w m h = on_lock_release w m h
dispatch_type MessageType.build_operation w m h = on_build_operation w m h
dispatch_type _ w m h = done (log (handed_on m) h)

unfoldable pub dispatch_message : World → Message → KerMpHost → Handled
dispatch_message w m h = dispatch_type m.type w m h
