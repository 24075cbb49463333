-- ===== src/Runtime/Client/Messages.antt =====
-- `_on_network_message` of ClientRuntime (kermp/runtime.py).
use ker_mp.Prelude.{Bool, String, false, text_eq}
use ker_mp.Prelude.Errors.{Result}
use ker_mp.Value.{Payload, Value, get_value, string}
use ker_mp.Protocol.{MessageType}
use ker_mp.Protocol.Names.{type_text}
use ker_mp.SaveSync.{Bytes}
use ker_mp.Net.{payload_body}
use ker_mp.Runtime.Client.State.{ClientRuntime, Went, tell_game, went}
use ker_mp.Runtime.Client.Views.{on_batch, on_propose, on_resume, on_view}
use ker_mp.Runtime.Client.Saves.{on_save_chunk, on_save_end, on_save_manifest}
use ker_mp.Runtime.Client.Game.{flush_build}

-- owner == self.client.player_id
abbrev pub names : String → Value → Bool
names id (string s) = text_eq s id
names id _ = false

unfoldable pub on_lock_state : Payload → ClientRuntime → ClientRuntime
on_lock_state d c =
    let c1 = record c { owns_build_lock = names c.player_id (get_value "owner_id" d) } in
    flush_build (tell_game (type_text MessageType.build_lock_state) (payload_body d) c1)

unfoldable pub pass_down : MessageType → Payload → ClientRuntime → Went
pass_down t d c = went (tell_game (type_text t) (payload_body d) c)

module _ (decode : String → Result Bytes) (sha256 : Bytes → String) where
  unfoldable pub on_host_type : MessageType → Payload → ClientRuntime → Went
  unfolding pass_down
  on_host_type MessageType.save_manifest d c = on_save_manifest d c
  on_host_type MessageType.save_chunk d c = on_save_chunk decode d c
  on_host_type MessageType.save_end d c = on_save_end sha256 d c
  on_host_type MessageType.game_raw_message d c = on_view decode d c
  on_host_type MessageType.travel_view_batch d c = on_batch decode d c
  on_host_type MessageType.travel_propose d c = on_propose d c
  on_host_type MessageType.travel_resume d c = on_resume decode d c
  on_host_type MessageType.travel_commit d c = pass_down MessageType.travel_commit d c
  on_host_type MessageType.travel_abort d c = pass_down MessageType.travel_abort d c
  on_host_type MessageType.build_lock_state d c = went (on_lock_state d c)
  on_host_type MessageType.build_apply d c = pass_down MessageType.build_apply d c
  on_host_type MessageType.clock_state d c = pass_down MessageType.clock_state d c
  on_host_type MessageType.sim_state d c = pass_down MessageType.sim_state d c
  on_host_type MessageType.sim_selection_state d c = pass_down MessageType.sim_selection_state d c
  on_host_type MessageType.interaction_accepted d c = pass_down MessageType.interaction_accepted d c
  on_host_type MessageType.interaction_rejected d c = pass_down MessageType.interaction_rejected d c
  on_host_type MessageType.interaction_command_accepted d c =
      pass_down MessageType.interaction_command_accepted d c
  on_host_type MessageType.interaction_command_rejected d c =
      pass_down MessageType.interaction_command_rejected d c
  on_host_type MessageType.interaction_queued d c = pass_down MessageType.interaction_queued d c
  on_host_type MessageType.interaction_started d c = pass_down MessageType.interaction_started d c
  on_host_type MessageType.interaction_finished d c = pass_down MessageType.interaction_finished d c
  on_host_type MessageType.interaction_cancel d c = pass_down MessageType.interaction_cancel d c
  on_host_type MessageType.error d c = went (tell_game "sidecar.error" (payload_body d) c)
  on_host_type _ d c = went c
