-- ===== src/Protocol/Names.antt =====
-- The names of the message kinds on the wire (kermp/protocol.py).
use ker_mp.Prelude.{
  List, Option, String, [], arith, eq_iff, if◌then◌else◌, none, refl, some, text_eq, ◌∷◌, ◌≡◌,
}
use ker_mp.Protocol.{MessageType}

-- `message_type.value`
unfoldable pub type_text : MessageType → String
type_text MessageType.hello = "hello"
type_text MessageType.welcome = "welcome"
type_text MessageType.error = "error"
type_text MessageType.ping = "ping"
type_text MessageType.pong = "pong"
type_text MessageType.ack = "ack"
type_text MessageType.compatibility = "compatibility"
type_text MessageType.readiness = "readiness"
type_text MessageType.save_manifest = "save.manifest"
type_text MessageType.save_begin = "save.begin"
type_text MessageType.save_chunk = "save.chunk"
type_text MessageType.save_end = "save.end"
type_text MessageType.save_ack = "save.ack"
type_text MessageType.save_error = "save.error"
type_text MessageType.clock_state = "clock.state"
type_text MessageType.clock_request_speed = "clock.request_speed"
type_text MessageType.clock_request_pause = "clock.request_pause"
type_text MessageType.clock_resync = "clock.resync"
type_text MessageType.command_request = "command.request"
type_text MessageType.command_accepted = "command.accepted"
type_text MessageType.command_rejected = "command.rejected"
type_text MessageType.command_result = "command.result"
type_text MessageType.dialog_open = "dialog.open"
type_text MessageType.dialog_response = "dialog.response"
type_text MessageType.dialog_cancel = "dialog.cancel"
type_text MessageType.travel_request = "travel.request"
type_text MessageType.travel_propose = "travel.propose"
type_text MessageType.travel_ready = "travel.ready"
type_text MessageType.travel_commit = "travel.commit"
type_text MessageType.travel_zone_ready = "travel.zone_ready"
type_text MessageType.travel_resume = "travel.resume"
type_text MessageType.travel_abort = "travel.abort"
type_text MessageType.travel_view_batch = "travel.view_batch"
type_text MessageType.build_lock_request = "build.lock_request"
type_text MessageType.build_lock_state = "build.lock_state"
type_text MessageType.build_operation = "build.operation"
type_text MessageType.build_apply = "build.apply"
type_text MessageType.build_lock_release = "build.lock_release"
type_text MessageType.build_native_request = "build.native.request"
type_text MessageType.build_native_result = "build.native.result"
type_text MessageType.build_native_reject = "build.native.reject"
type_text MessageType.snapshot_request = "snapshot.request"
type_text MessageType.snapshot = "snapshot"
type_text MessageType.sim_select = "sim.select"
type_text MessageType.sim_selection_state = "sim.selection_state"
type_text MessageType.sim_state = "sim.state"
type_text MessageType.interaction_request = "interaction.request"
type_text MessageType.interaction_accepted = "interaction.accepted"
type_text MessageType.interaction_rejected = "interaction.rejected"
type_text MessageType.interaction_queued = "interaction.queued"
type_text MessageType.interaction_started = "interaction.started"
type_text MessageType.interaction_finished = "interaction.finished"
type_text MessageType.interaction_cancel = "interaction.cancel"
type_text MessageType.interaction_command = "interaction.command"
type_text MessageType.interaction_command_accepted = "interaction.command_accepted"
type_text MessageType.interaction_command_rejected = "interaction.command_rejected"
type_text MessageType.game_raw_message = "game.raw_message"

abbrev all_types : List MessageType
all_types =
    MessageType.hello ∷ MessageType.welcome ∷ MessageType.error ∷ MessageType.ping
    ∷ MessageType.pong ∷ MessageType.ack ∷ MessageType.compatibility ∷ MessageType.readiness
    ∷ MessageType.save_manifest ∷ MessageType.save_begin ∷ MessageType.save_chunk
    ∷ MessageType.save_end ∷ MessageType.save_ack ∷ MessageType.save_error ∷ MessageType.clock_state
    ∷ MessageType.clock_request_speed ∷ MessageType.clock_request_pause ∷ MessageType.clock_resync
    ∷ MessageType.command_request ∷ MessageType.command_accepted ∷ MessageType.command_rejected
    ∷ MessageType.command_result ∷ MessageType.dialog_open ∷ MessageType.dialog_response
    ∷ MessageType.dialog_cancel ∷ MessageType.travel_request ∷ MessageType.travel_propose
    ∷ MessageType.travel_ready ∷ MessageType.travel_commit ∷ MessageType.travel_zone_ready
    ∷ MessageType.travel_resume ∷ MessageType.travel_abort ∷ MessageType.travel_view_batch
    ∷ MessageType.build_lock_request ∷ MessageType.build_lock_state ∷ MessageType.build_operation
    ∷ MessageType.build_apply ∷ MessageType.build_lock_release ∷ MessageType.build_native_request
    ∷ MessageType.build_native_result ∷ MessageType.build_native_reject
    ∷ MessageType.snapshot_request ∷ MessageType.snapshot ∷ MessageType.sim_select
    ∷ MessageType.sim_selection_state ∷ MessageType.sim_state ∷ MessageType.interaction_request
    ∷ MessageType.interaction_accepted ∷ MessageType.interaction_rejected
    ∷ MessageType.interaction_queued ∷ MessageType.interaction_started
    ∷ MessageType.interaction_finished ∷ MessageType.interaction_cancel
    ∷ MessageType.interaction_command ∷ MessageType.interaction_command_accepted
    ∷ MessageType.interaction_command_rejected ∷ MessageType.game_raw_message ∷ []

find_type : String → List MessageType → Option MessageType
find_type s [] = none
find_type s (t ∷ ts) = let rest = find_type s ts in if text_eq (type_text t) s then some t else rest

-- The kind whose name a text is.
unfoldable pub type_of : String → Option MessageType
unfolding find_type
type_of s = find_type s all_types

find_type-name :
    (s : String) (ts : List MessageType) (t : MessageType)
    → find_type s ts ≡ some t
    → type_text t ≡ s
unfolding find_type
find_type-name s [] t h = cc
find_type-name s (u ∷ ts) t h = ground (arith, eq_iff (type_text u) s, find_type-name s ts t)

type_of-text : (t : MessageType) → type_of (type_text t) ≡ some t
unfolding type_of type_text
type_of-text MessageType.hello = refl
type_of-text _ = refl

-- Every kind of message is told by its name, and a name that is told has the kind of this name only.
pub type_names :
    (t : MessageType) (s : String)
    → (type_of (type_text t) ≡ some t) × (type_of s ≡ some t → type_text t ≡ s)
type_names t s = (type_of-text t, λ h. find_type-name s all_types t (unfold type_of in h))
