-- ===== src/Session/Core.antt =====
-- When the session can start (kermp/session.py).
use ker_mp.Prelude.{Bool, [], arith, not, refl, ◌&&◌, ◌||◌, ◌∷◌, ◌≡◌}
use ker_mp.Prelude.Dict.{Dict}
use ker_mp.Readiness.{PlayerReadiness, core_ready, no_reasons}
use ker_mp.Value.{truthy}
use ker_mp.Session.State.{HostSession, Player}
use ker_mp.Session.Players.{core_readiness, every, is_cons}

every_and :
    (f g : PlayerReadiness → Bool) (d : Dict Player)
    → every (λ r. f r && g r) d ≡ (every f d && every g d)
unfolding every
every_and f g [] = refl
every_and f g ((k, p) ∷ d) = ground (arith, every_and f g d)

-- What the whole session asks of one player; an error is not asked about.
abbrev pub set_up : Bool → PlayerReadiness → Bool
set_up native_required r =
    no_reasons r.compatibility_reasons
    && truthy r.save_hash
    && truthy r.bridge_connected
    && truthy r.zone_ready
    && truthy r.simulation_authority_ready
    && (not native_required || r.native_ready)

core_ready-every :
    (native : Bool) (d : Dict Player)
    → every (set_up native) d ≡ (
        every (λ r. no_reasons r.compatibility_reasons) d
        && every (λ r. truthy r.save_hash) d
        && every (λ r. truthy r.bridge_connected) d
        && every (λ r. truthy r.zone_ready) d
        && every (λ r. truthy r.simulation_authority_ready) d
        && (not native || every (λ r. r.native_ready) d))
unfolding every
core_ready-every native [] = ground arith
core_ready-every native ((k, p) ∷ d) = ground (arith, core_ready-every native d)

-- The core is ready exactly when there is a player and every player is set up.
pub core_ready_iff :
    (s : HostSession)
    → core_ready (core_readiness s)
      ≡ (is_cons s.players && every (set_up s.native_build_buy_required) s.players)
unfolding core_ready core_readiness
core_ready_iff s = ground (arith, core_ready-every s.native_build_buy_required s.players)
