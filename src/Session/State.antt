-- ===== src/Session/State.antt =====
-- Player and HostSession (kermp/session.py).
use ker_mp.Prelude.{Bool, List, Option, String, [], false, none, ℕ}
use ker_mp.Prelude.Dict.{Dict}
use ker_mp.Value.{Payload}
use ker_mp.Travel.{TravelCoordinator, new_coordinator}
use ker_mp.Readiness.{PlayerReadiness, new_readiness}
use ker_mp.Compatibility.{CompatibilityManifest}
use ker_mp.Routing.{DialogRouter, NetworkedCommandRouter}
use ker_mp.BuildSync.{BuildAuthority, new_authority}

pub record Player : Type 0 where
  pub player_id : String
  pub display_name : String
  pub active_sim_id : Option String
  pub manifest : Option CompatibilityManifest
  pub readiness : PlayerReadiness

abbrev pub new_player : String → String → Player
new_player player_id display_name = record {
  player_id = player_id;
  display_name = display_name;
  active_sim_id = none;
  manifest = none;
  readiness = new_readiness;
}

-- An entry of `sims`, whose "sim_id" is its key.
pub record Sim : Type 0 where
  pub name : String
  pub controllers : List String

-- The host's clock; "game_time" stays None in this program.
pub record Clock : Type 0 where
  pub sequence : ℕ
  pub speed : ℕ
  pub paused : Bool

-- An entry of `interaction_requests`. `target` holds the fields that are only passed on.
pub record Interaction : Type 0 where
  pub request_id : String
  pub player_id : String
  pub sim_id : String
  pub affordance_id : Option String
  pub target : Payload
  pub status : String
  pub interaction_id : Option String
  pub command : Option Payload

pub record HostSession : Type 0 where
  pub session_id : String
  pub session_name : String
  pub players : Dict Player
  pub travel : TravelCoordinator
  pub build : BuildAuthority
  pub sims : Dict Sim
  pub interaction_requests : Dict Interaction
  pub reconnect_sim_ids : Dict String
  pub host_manifest : Option CompatibilityManifest
  pub native_build_buy_required : Bool
  pub clock : Clock
  pub commands : NetworkedCommandRouter
  pub dialogs : DialogRouter

unfoldable pub new_session : String → Option CompatibilityManifest → Bool → HostSession
unfolding new_authority
new_session session_id host_manifest native_required = record {
  session_id = session_id;
  session_name = "KerMP LAN";
  players = [];
  travel = new_coordinator;
  build = new_authority 8 128;
  sims = [];
  interaction_requests = [];
  reconnect_sim_ids = [];
  host_manifest = host_manifest;
  native_build_buy_required = native_required;
  clock = record { sequence = 0; speed = 1; paused = false };
  commands = record { handlers = []; pending = [] };
  dialogs = record { pending = [] };
}
