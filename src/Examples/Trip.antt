-- ===== src/Examples/Trip.antt =====
-- A travel of two players, and the readiness of one (kermp/travel.py, kermp/readiness.py).
use ker_mp.Readiness.Laws.{HasAll}
use ker_mp.Prelude.{◌≢◌, List, String, [], arith, false, none, refl, some, true, ◌↔◌, ◌∷◌, ◌≡◌}
use ker_mp.Prelude.Int.{pos}
use ker_mp.Value.{bool, string, truthy}
use ker_mp.Travel.{
  TravelCall, TravelCoordinator, TravelPhase, TravelTxn, active, after, after_all, begin_zone_wait,
  call_propose, call_ready, call_zone_ready, call_zone_wait, mark_ready, mark_zone_ready,
  new_coordinator, propose,
}
use ker_mp.Travel.Invariant.{IsValid, after_all-IsValid, new_coordinator-IsValid}
use ker_mp.Travel.Barrier.{Resumed, resume_after_all, stale_changes_nothing}
use ker_mp.Travel.Completion.{Completed, travel_calls, travel_completes}
use ker_mp.Readiness.{PlayerLifecycle, PlayerReadiness, advance, new_readiness}
use ker_mp.Readiness.Laws.{advance_states}
use ker_mp.Compatibility.{CompatibilityManifest, compare_manifests}
use ker_mp.Compatibility.Laws.{Compatible, compare_manifests_iff}
use ker_mp.Prelude.Errors.{ok}

abbrev two_players : List String
two_players = "a" ∷ "b" ∷ []

abbrev trip : List TravelCall
trip =
    call_propose "t1" "lot" ("sim" ∷ []) two_players
    ∷ call_ready "a" "t1" none
    ∷ call_ready "b" "t1" (some (pos 1))
    ∷ call_zone_wait "t1"
    ∷ call_zone_ready "a" "t1" none
    ∷ []

after_all-IsValid_example : IsValid (after_all trip new_coordinator)
after_all-IsValid_example = after_all-IsValid trip new_coordinator new_coordinator-IsValid

resume_after_all_example :
    Resumed "t1" (mark_zone_ready "b" "t1" none (after_all trip new_coordinator)).1
unfolding after_all after mark_zone_ready mark_ready propose begin_zone_wait ker_mp.Travel.get_txn
    ker_mp.Prelude.Sets.to_set ker_mp.Prelude.Sets.add ker_mp.Prelude.Sets.contains
    ker_mp.Prelude.Sets.set_eq ker_mp.Prelude.Sets.subset ker_mp.Travel.counted
resume_after_all_example = resume_after_all trip "b" "t1" none refl

abbrev loading_txn : TravelTxn
loading_txn = record {
  epoch = 2;
  txn_id = "t1";
  zone_id = "lot";
  actor_ids = [];
  participants = two_players;
  phase = TravelPhase.waiting_zone_ready;
  ready = two_players;
  zone_ready = [];
}

abbrev loading_coordinator : TravelCoordinator
loading_coordinator = record { current = some loading_txn; epoch_count = 2 }

loading_stale :
    (t : TravelTxn) → loading_coordinator.current ≡ some t → t.txn_id ≡ "t1" → pos 1 ≢ pos t.epoch
loading_stale t h n e = ground (arith, h, e)

stale_changes_nothing_example :
    ((mark_ready "b" "t1" (some (pos 1)) loading_coordinator).1 ≡ loading_coordinator)
    × ((mark_zone_ready "b" "t1" (some (pos 1)) loading_coordinator).1 ≡ loading_coordinator)
    × ((mark_ready "b" "t1" (some (pos 1)) loading_coordinator).0 ≢ ok true)
    × ((mark_zone_ready "b" "t1" (some (pos 1)) loading_coordinator).0 ≢ ok true)
stale_changes_nothing_example =
    stale_changes_nothing "b" "t1" (pos 1) loading_coordinator loading_stale

travel_completes_example : Completed "t2" 1 (
    after_all
      (travel_calls "t2" "lot" [] two_players ("b" ∷ two_players) two_players 1)
      new_coordinator)
unfolding active ker_mp.Travel.is_empty ker_mp.Prelude.Sets.to_set ker_mp.Prelude.Sets.add
    ker_mp.Prelude.Sets.contains
travel_completes_example =
    travel_completes "t2" "lot" [] two_players ("b" ∷ two_players) two_players new_coordinator refl
      refl (λ x m. ground (arith, m)) (λ x m. m)

abbrev nearly_ready : PlayerReadiness
nearly_ready = record new_readiness { bridge_connected = bool true; save_hash = string "f" }

advance_states_example :
    (((advance nearly_ready).state ≡ PlayerLifecycle.game_ready) ↔ HasAll nearly_ready)
    × (((advance nearly_ready).state ≡ PlayerLifecycle.failed) ↔ (truthy nearly_ready.error ≡ true))
advance_states_example = advance_states nearly_ready

abbrev pub build_of_game : String → String → CompatibilityManifest
build_of_game player_id version = record {
  player_id = player_id;
  display_name = player_id;
  kermp_protocol_version = 1;
  kermp_sidecar_version = "1";
  kermp_sims_mod_version = "1";
  sims_mod_protocol_version = 1;
  native_available = false;
  native_api_version = 0;
  native_game_build_supported = false;
  game_version = version;
  enabled_packs = "EP01" ∷ [];
  installed_packs = [];
  sims_mod_package_hash = "";
  native_build_fingerprint = "";
}

compare_manifests_iff_example :
    (compare_manifests (build_of_game "h" "1.1") (build_of_game "a" "1.2") false ≡ [])
    ↔ Compatible false (build_of_game "h" "1.1") (build_of_game "a" "1.2")
compare_manifests_iff_example =
    compare_manifests_iff false (build_of_game "h" "1.1") (build_of_game "a" "1.2")
