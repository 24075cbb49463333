-- ===== src/Runtime/Host/Events.antt =====
-- `_on_game_event` of HostRuntime (kermp/runtime.py).
use ker_mp.Prelude.{String, if◌then◌else◌, none, some, text_eq}
use ker_mp.Prelude.Errors.{Result}
use ker_mp.Value.{Payload}
use ker_mp.Protocol.{MessageType}
use ker_mp.Protocol.Names.{type_of}
use ker_mp.SaveSync.{Bytes}
use ker_mp.Net.{World}
use ker_mp.Runtime.Bridge.{BridgeEvent}
use ker_mp.Runtime.Host.State.{HostRuntime, Ran, ran}
use ker_mp.Runtime.Host.Travels.{
  abort_travel, start_travel, travel_ready, travel_zone_ready, view_batch,
}
use ker_mp.Runtime.Host.Plays.{
  game_cancel, game_clock, game_command, game_hello, game_interaction, game_report, game_select,
  game_sims, simulation_authority,
}
use ker_mp.Runtime.Host.Builds.{game_build, game_lock_release, game_lock_request, game_view}

module _ (decode : String → Result Bytes) (encode : Bytes → String) where
  unfoldable pub on_game_type : World → MessageType → Payload → HostRuntime → Ran
  on_game_type w MessageType.clock_state p r = game_clock w p r
  on_game_type w MessageType.game_raw_message p r = game_view decode encode w p r
  on_game_type w MessageType.travel_view_batch p r = view_batch w p r
  on_game_type w MessageType.sim_select p r = game_select w p r
  on_game_type w MessageType.interaction_request p r = game_interaction w p r
  on_game_type w MessageType.interaction_command p r = game_command w p r
  on_game_type w MessageType.interaction_cancel p r = game_cancel w p r
  on_game_type w MessageType.travel_request p r = start_travel w p r.host.player_id r
  on_game_type w MessageType.travel_ready p r = travel_ready w r.host.player_id p r
  on_game_type w MessageType.travel_zone_ready p r = travel_zone_ready w r.host.player_id p r
  on_game_type w MessageType.travel_abort p r = abort_travel w "game_abort" p r
  on_game_type w MessageType.build_operation p r = game_build w p r
  on_game_type w MessageType.build_lock_request p r = game_lock_request w r
  on_game_type w MessageType.build_lock_release p r = game_lock_release w r
  on_game_type w MessageType.sim_state p r = game_sims w p r
  on_game_type w MessageType.interaction_accepted p r =
      game_report w MessageType.interaction_accepted "accepted" p r
  on_game_type w MessageType.interaction_rejected p r =
      game_report w MessageType.interaction_rejected "rejected" p r
  on_game_type w MessageType.interaction_command_accepted p r =
      game_report w MessageType.interaction_command_accepted "command_accepted" p r
  on_game_type w MessageType.interaction_command_rejected p r =
      game_report w MessageType.interaction_command_rejected "command_rejected" p r
  on_game_type w MessageType.interaction_queued p r =
      game_report w MessageType.interaction_queued "queued" p r
  on_game_type w MessageType.interaction_started p r =
      game_report w MessageType.interaction_started "started" p r
  on_game_type w MessageType.interaction_finished p r =
      game_report w MessageType.interaction_finished "finished" p r
  on_game_type w _ p r = ran r

  -- The types that are no kinds of message come first; any other type is left out of account.
  unfoldable pub on_game_event : World → BridgeEvent → HostRuntime → Ran
  on_game_event w e r =
      if text_eq e.type "game.hello"
      then game_hello w r
      else if text_eq e.type "simulation.authority"
      then simulation_authority w r
      else if text_eq e.type "sims.state"
      then game_sims w e.payload r
      else elim (type_of e.type) [ none ↦ ran r | some t ↦ on_game_type w t e.payload r ]
