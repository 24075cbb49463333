-- ===== src/Readiness.antt =====
-- kermp/readiness.py: what a player still has to do before the game can run, and the lifecycle state
-- that the host derives from it. A field that a message sets holds whatever value the message has; the
-- two counts are numbers.
pub mod Laws
use ker_mp.Value.{Value, bool, string, truthy}
use ker_mp.Prelude.Int.{eq_ℤ, pos, ℤ}
use ker_mp.Prelude.{Bool, List, String, [], false, if◌then◌else◌, not, text_eq, true, ◌&&◌}

pub data PlayerLifecycle : Type 0 where
  connected compatibility_checked compatible save_syncing save_synced sims_bridge_waiting
        sims_bridge_connected zone_loading in_zone game_ready in_session disconnected failed :
      PlayerLifecycle

pub record PlayerReadiness : Type 0 where
  pub state : PlayerLifecycle
  pub compatibility_reasons : List String
  pub save_bytes_received : ℤ
  pub save_total_bytes : ℤ
  pub save_hash : Value
  pub bridge_connected : Value
  pub zone_ready : Value
  pub simulation_authority_ready : Value
  pub native_ready : Bool
  pub error : Value

abbrev pub new_readiness : PlayerReadiness
new_readiness = record {
  state = PlayerLifecycle.connected;
  compatibility_reasons = [];
  save_bytes_received = pos 0;
  save_total_bytes = pos 0;
  save_hash = string "";
  bridge_connected = bool false;
  zone_ready = bool false;
  simulation_authority_ready = bool false;
  native_ready = false;
  error = string "";
}

-- not reasons
abbrev pub no_reasons : List String → Bool
no_reasons [] = true
no_reasons _ = false

-- bool(s)
abbrev pub nonempty : String → Bool
nonempty s = not (text_eq s "")

-- save_hash != ""
unfoldable pub is_given : Value → Bool
is_given (string s) = nonempty s
is_given _ = true

unfoldable pub ready : PlayerReadiness → Bool
unfolding is_given
ready r =
    no_reasons r.compatibility_reasons
    && is_given r.save_hash
    && truthy r.bridge_connected
    && truthy r.zone_ready
    && truthy r.simulation_authority_ready
    && r.native_ready
    && not (truthy r.error)

-- The state that `advance` chooses.
unfoldable pub next_state : PlayerReadiness → PlayerLifecycle
unfolding ready
next_state r =
    if truthy r.error
    then PlayerLifecycle.failed
    else if ready r
    then PlayerLifecycle.game_ready
    else if truthy r.zone_ready
    then PlayerLifecycle.in_zone
    else if truthy r.bridge_connected
    then PlayerLifecycle.sims_bridge_connected
    else if truthy r.save_hash
    then PlayerLifecycle.save_synced
    else if not (eq_ℤ r.save_total_bytes (pos 0))
    then PlayerLifecycle.save_syncing
    else if not (no_reasons r.compatibility_reasons)
    then PlayerLifecycle.compatibility_checked
    else PlayerLifecycle.compatible

unfoldable pub advance : PlayerReadiness → PlayerReadiness
unfolding next_state
advance r = record r { state = next_state r }

pub record P0CoreReadiness : Type 0 where
  pub compatibility_ready : Bool
  pub save_ready : Bool
  pub bridge_ready : Bool
  pub zone_ready : Bool
  pub simulation_authority_ready : Bool
  pub clock_ready : Bool
  pub interaction_router_ready : Bool
  pub dialog_router_ready : Bool
  pub travel_ready : Bool
  pub native_build_buy_ready : Bool

-- all(asdict(self).values())
unfoldable pub core_ready : P0CoreReadiness → Bool
core_ready c =
    c.compatibility_ready && c.save_ready && c.bridge_ready && c.zone_ready
    && c.simulation_authority_ready && c.clock_ready && c.interaction_router_ready
    && c.dialog_router_ready && c.travel_ready && c.native_build_buy_ready
