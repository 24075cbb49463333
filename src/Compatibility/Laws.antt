-- ===== src/Compatibility/Laws.antt =====
-- What an empty list of reasons means.
use ker_mp.Prelude.{
  Bool, List, String, [], refl, true, ◌↔◌, ◌∷◌, ◌≡◌, ◌≢◌, arith, eq_iff, eq_refl, text_eq, ℕ, ◌==◌,
}
use ker_mp.Compatibility.{
  CompatibilityManifest, tuple_eq, unknown, compare_manifests, game_versions_differ, native_differs,
  protocols_differ,
}

tuple_eq→eq : (xs ys : List String) → tuple_eq xs ys ≡ true → xs ≡ ys
unfolding tuple_eq
tuple_eq→eq [] [] h = refl
tuple_eq→eq [] (y ∷ ys) h = cc
tuple_eq→eq (x ∷ xs) [] h = cc
tuple_eq→eq (x ∷ xs) (y ∷ ys) h = ground (arith, eq_iff x y, tuple_eq→eq xs ys)

tuple_eq_refl : (xs : List String) → tuple_eq xs xs ≡ true
unfolding tuple_eq
tuple_eq_refl [] = refl
tuple_eq_refl (x ∷ xs) = ground (arith, eq_refl x, tuple_eq_refl xs)

tuple_eq_iff : (xs ys : List String) → (tuple_eq xs ys ≡ true) ↔ (xs ≡ ys)
tuple_eq_iff xs ys = (tuple_eq→eq xs ys, λ e. rw e (tuple_eq_refl ys))

-- The two games can play together.
pub record Compatible (native_required : Bool) (host client : CompatibilityManifest) : Type 0 where
  pub protocol : host.kermp_protocol_version ≡ client.kermp_protocol_version
  pub mod_protocol : host.sims_mod_protocol_version ≡ client.sims_mod_protocol_version
  pub sidecar : host.kermp_sidecar_version ≡ client.kermp_sidecar_version
  pub sims_mod : host.kermp_sims_mod_version ≡ client.kermp_sims_mod_version
  pub known : host.game_version ≢ unknown
  pub game : host.game_version ≡ client.game_version
  pub packs : host.enabled_packs ≡ client.enabled_packs
  pub native :
      native_required ≡ true
      → (host.native_available ≡ true)
        × (client.native_available ≡ true)
        × (host.native_game_build_supported ≡ true)
        × (client.native_game_build_supported ≡ true)
        × (host.native_api_version ≡ client.native_api_version)

module _ (required : Bool) (host client : CompatibilityManifest) where
  Compatible-of_no_reason :
      compare_manifests host client required ≡ [] → Compatible required host client
  unfolding compare_manifests protocols_differ game_versions_differ native_differs
  Compatible-of_no_reason h = record {
    protocol = ground arith;
    mod_protocol = ground arith;
    sidecar = ground (arith, eq_iff host.kermp_sidecar_version client.kermp_sidecar_version);
    sims_mod = ground (arith, eq_iff host.kermp_sims_mod_version client.kermp_sims_mod_version);
    known = λ e. ground (arith, eq_iff unknown host.game_version);
    game = ground (arith, eq_iff host.game_version client.game_version);
    packs = ground (arith, tuple_eq_iff host.enabled_packs client.enabled_packs);
    native = λ r. ground arith;
  }

  no_reason_of_Compatible :
      Compatible required host client → compare_manifests host client required ≡ []
  unfolding compare_manifests protocols_differ game_versions_differ native_differs
  no_reason_of_Compatible c = ground (
    arith,
    c.protocol,
    c.mod_protocol,
    c.native,
    eq_iff host.kermp_sidecar_version client.kermp_sidecar_version,
    eq_iff host.kermp_sims_mod_version client.kermp_sims_mod_version,
    eq_iff unknown host.game_version,
    eq_iff unknown client.game_version,
    eq_iff host.game_version client.game_version,
    tuple_eq_iff host.enabled_packs client.enabled_packs,
  )

  -- No reason is found exactly when the versions, the game and the packs agree, the game version is
  -- known and, where the native part is required, both sides have it in one version.
  pub compare_manifests_iff :
      (compare_manifests host client required ≡ []) ↔ Compatible required host client
  compare_manifests_iff = (Compatible-of_no_reason, no_reason_of_Compatible)

text_eq_comm : (s t : String) → text_eq s t ≡ text_eq t s
text_eq_comm s t = ground (arith, eq_iff s t, eq_iff t s)

tuple_eq_comm : (xs ys : List String) → tuple_eq xs ys ≡ tuple_eq ys xs
unfolding tuple_eq
tuple_eq_comm [] [] = refl
tuple_eq_comm [] (y ∷ ys) = refl
tuple_eq_comm (x ∷ xs) [] = refl
tuple_eq_comm (x ∷ xs) (y ∷ ys) = ground (arith, text_eq_comm x y, tuple_eq_comm xs ys)

eq_ℕ_comm : (a b : ℕ) → (a == b) ≡ (b == a)
eq_ℕ_comm a b = ground arith

native_differs_comm : (a b : CompatibilityManifest) → native_differs a b ≡ native_differs b a
unfolding native_differs
native_differs_comm a b = ground arith

game_versions_differ_comm :
    (a b : CompatibilityManifest) → game_versions_differ a b ≡ game_versions_differ b a
unfolding game_versions_differ
game_versions_differ_comm a b = ground (arith, text_eq_comm a.game_version b.game_version)

protocols_differ_comm : (a b : CompatibilityManifest) → protocols_differ a b ≡ protocols_differ b a
unfolding protocols_differ
protocols_differ_comm a b = ground arith

-- The reasons are the same from either side, and in the same order.
pub compare_manifests_comm :
    (a b : CompatibilityManifest) (required : Bool)
    → compare_manifests a b required ≡ compare_manifests b a required
unfolding compare_manifests
compare_manifests_comm a b required = rw (
  protocols_differ_comm a b,
  text_eq_comm a.kermp_sidecar_version b.kermp_sidecar_version,
  text_eq_comm a.kermp_sims_mod_version b.kermp_sims_mod_version,
  game_versions_differ_comm a b,
  tuple_eq_comm a.enabled_packs b.enabled_packs,
  native_differs_comm a b,
)
