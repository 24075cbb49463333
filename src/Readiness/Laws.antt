-- ===== src/Readiness/Laws.antt =====
-- What `advance` of kermp/readiness.py says of a player.
use ker_mp.Prelude.{
  ap, subst, List, String, [], ◌∷◌, ◌≢◌, eq_iff, arith, refl, true, ◌↔◌, ◌≡◌, false,
}
use ker_mp.Value.{Value, string, null, bool, int, float, arr, obj, truthy}
use ker_mp.Readiness.{is_given, PlayerLifecycle, PlayerReadiness, advance, no_reasons, ready}

-- What a player needs for the game: each of the conditions, in the fields themselves.
pub record HasAll (r : PlayerReadiness) : Type 0 where
  pub compatible : r.compatibility_reasons ≡ []
  pub synced : r.save_hash ≢ string ""
  pub bridged : truthy r.bridge_connected ≡ true
  pub in_zone : truthy r.zone_ready ≡ true
  pub authorized : truthy r.simulation_authority_ready ≡ true
  pub native : r.native_ready ≡ true
  pub sound : truthy r.error ≡ false

no_reasons-true : (xs : List String) → no_reasons xs ≡ true → xs ≡ []
no_reasons-true [] h = refl
no_reasons-true (x ∷ xs) h = absurd (ground (arith, h))

is_given-true : (v : Value) → is_given v ≡ true → v ≢ string ""
unfolding is_given
is_given-true v h e = absurd (ground (arith, subst (λ u. is_given u ≡ true) e h))

is_given-other : (v : Value) → v ≢ string "" → is_given v ≡ true
unfolding is_given
is_given-other (string s) n = ground (arith, eq_iff s "", λ (e : s ≡ ""). n (ap string e))
is_given-other null n = refl
is_given-other (bool b) n = refl
is_given-other (int z) n = refl
is_given-other (float z r) n = refl
is_given-other (arr xs) n = refl
is_given-other (obj d) n = refl

game_ready-HasAll :
    (r : PlayerReadiness) → (advance r).state ≡ PlayerLifecycle.game_ready → HasAll r
unfolding advance ready
game_ready-HasAll r h = record {
  compatible = no_reasons-true r.compatibility_reasons (ground (arith, h));
  synced = is_given-true r.save_hash (ground (arith, h));
  bridged = ground (arith, h);
  in_zone = ground (arith, h);
  authorized = ground (arith, h);
  native = ground (arith, h);
  sound = ground (arith, h);
}

HasAll-game_ready :
    (r : PlayerReadiness) → HasAll r → (advance r).state ≡ PlayerLifecycle.game_ready
unfolding advance ready
HasAll-game_ready r v = ground (
  arith,
  v.compatible,
  is_given-other r.save_hash v.synced,
  v.bridged,
  v.in_zone,
  v.authorized,
  v.native,
  v.sound,
)

-- The state is GAME_READY exactly when there is no reason of incompatibility, the save hash is another
-- value than the empty text, the bridge, the zone and the simulation authority have true values, the
-- native backend is there and no error is noted; and it is ERROR exactly when an error is noted, which is
-- any value that is true.
pub advance_states :
    (r : PlayerReadiness)
    → (((advance r).state ≡ PlayerLifecycle.game_ready) ↔ HasAll r)
      × (((advance r).state ≡ PlayerLifecycle.failed) ↔ (truthy r.error ≡ true))
unfolding advance
advance_states r = (
  (game_ready-HasAll r, HasAll-game_ready r),
  ((λ h. ground (arith, h)), (λ h. ground (arith, h))),
)

-- `advance` reads no state: a second call changes nothing, and readiness is the same before and after.
pub advance_idem :
    (r : PlayerReadiness) → (advance (advance r) ≡ advance r) × (ready (advance r) ≡ ready r)
unfolding advance ready
advance_idem r = (ground arith, refl)
