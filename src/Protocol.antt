-- ===== src/Protocol.antt =====
-- kermp/protocol.py: the kinds of messages and their names on the wire.
pub mod Names

pub data MessageType : Type 0 where
  hello welcome error ping pong ack compatibility readiness : MessageType
  save_manifest save_begin save_chunk save_end save_ack save_error : MessageType
  clock_state clock_request_speed clock_request_pause clock_resync : MessageType
  command_request command_accepted command_rejected command_result : MessageType
  dialog_open dialog_response dialog_cancel : MessageType
  travel_request travel_propose travel_ready travel_commit travel_zone_ready travel_resume
        travel_abort travel_view_batch :
      MessageType
  build_lock_request build_lock_state build_operation build_apply build_lock_release
        build_native_request build_native_result build_native_reject :
      MessageType
  snapshot_request snapshot sim_select sim_selection_state sim_state : MessageType
  interaction_request interaction_accepted interaction_rejected interaction_queued
        interaction_started interaction_finished interaction_cancel :
      MessageType
  interaction_command interaction_command_accepted interaction_command_rejected : MessageType
  game_raw_message : MessageType
