-- ===== src/GameMod/State.antt =====
-- The globals of the mod (sims_mod_src/kermp_mod/hooks.py) are the fields of `Hooks`. `emitted` has the
-- events that have gone from the mod to its sidecar and `delivered` the messages that it has sent to the
-- game's client, newest last.
use ker_mp.Prelude.{Bool, List, Option, String, [], false, none, ℕ}
use ker_mp.Prelude.Errors.{PyError}
use ker_mp.Prelude.Int.{pos, ℤ}
use ker_mp.Value.{Payload, Value, null}
use ker_mp.SaveSync.{Bytes}
use ker_mp.Runtime.{Note}

-- What the game answers while an event is handled: its active Sim and its zone (none where the call
-- raises), whether it makes a Sim active again, whether its client takes a message, and how its
-- travel command ends and what the mod has noted about it.
pub record Game : Type 0 where
  pub active_sim_id : Option String
  pub zone_id : Option String
  pub restores : Bool
  pub delivers : Bool
  pub travel_end : Option PyError
  pub api_info : Payload

pub record Hooks : Type 0 where
  pub sidecar_role : Value
  pub sidecar_player_id : Value
  pub pending_travel_txn : Value
  pub travel_epoch : ℤ
  pub travel_buffering : Bool
  pub travel_buffer : List Payload
  pub view_updates_received : ℕ
  pub last_view_update_size : ℕ
  pub last_view_update_msg_id : Option ℤ
  pub travel_selected_sim_id : Option String
  pub travel_batch_complete : Bool
  pub travel_api_info : Payload
  pub travel_zone_reported : Bool
  pub travel_local_zone_loaded : Bool
  pub travel_selected_sim_restored : Bool
  pub travel_last_error : Option String
  pub simulation_bypass : Bool
  -- whether the mod is connected to its sidecar, and how many writes will reach it before one raises
  pub sock : Bool
  pub writes_left : ℕ
  pub emitted : List Note
  pub delivered : List (ℤ × Bytes)

abbrev pub max_travel_buffer : ℕ
max_travel_buffer = 256

abbrev pub new_hooks : Hooks
new_hooks = record {
  sidecar_role = null;
  sidecar_player_id = null;
  pending_travel_txn = null;
  travel_epoch = pos 0;
  travel_buffering = false;
  travel_buffer = [];
  view_updates_received = 0;
  last_view_update_size = 0;
  last_view_update_msg_id = none;
  travel_selected_sim_id = none;
  travel_batch_complete = false;
  travel_api_info = [];
  travel_zone_reported = false;
  travel_local_zone_loaded = false;
  travel_selected_sim_restored = false;
  travel_last_error = none;
  simulation_bypass = false;
  sock = false;
  writes_left = 0;
  emitted = [];
  delivered = [];
}
