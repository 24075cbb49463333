-- ===== src/Compatibility.antt =====
-- kermp/compatibility.py: the manifests that players exchange and the reasons for which two differ.
-- Reading the local manifest (files, environment) is I/O and is not modelled.
pub mod Laws
use ker_mp.Prelude.{
  Bool, List, String, [], false, if◌then◌else◌, not, text_eq, true, ℕ, ◌&&◌, ◌==◌, ◌||◌, ◌∷◌,
}

abbrev pub unknown : String
unknown = "UNKNOWN"

pub record CompatibilityManifest : Type 0 where
  pub player_id : String
  pub display_name : String
  pub kermp_protocol_version : ℕ
  pub kermp_sidecar_version : String
  pub kermp_sims_mod_version : String
  pub sims_mod_protocol_version : ℕ
  pub native_available : Bool
  pub native_api_version : ℕ
  pub native_game_build_supported : Bool
  pub game_version : String
  pub enabled_packs : List String
  pub installed_packs : List String
  pub sims_mod_package_hash : String
  pub native_build_fingerprint : String

-- Equality of tuples of texts.
unfoldable pub tuple_eq : List String → List String → Bool
tuple_eq [] [] = true
tuple_eq (x ∷ xs) (y ∷ ys) = text_eq x y && tuple_eq xs ys
tuple_eq _ _ = false

-- `if test: reasons.append(reason)`, from the last test to the first
unfoldable pub note : Bool → String → List String → List String
note test reason rest = if test then reason ∷ rest else rest

unfoldable pub protocols_differ : CompatibilityManifest → CompatibilityManifest → Bool
protocols_differ host client =
    not (host.kermp_protocol_version == client.kermp_protocol_version)
    || not (host.sims_mod_protocol_version == client.sims_mod_protocol_version)

unfoldable pub game_versions_differ : CompatibilityManifest → CompatibilityManifest → Bool
game_versions_differ host client =
    (text_eq unknown host.game_version || text_eq unknown client.game_version)
    || not (text_eq host.game_version client.game_version)

unfoldable pub native_differs : CompatibilityManifest → CompatibilityManifest → Bool
native_differs host client =
    not host.native_available
    || not client.native_available
    || not host.native_game_build_supported
    || not client.native_game_build_supported
    || not (host.native_api_version == client.native_api_version)

unfoldable pub compare_manifests :
    CompatibilityManifest → CompatibilityManifest → Bool → List String
unfolding note
compare_manifests host client native_required =
    note (protocols_differ host client) "protocol_mismatch" (
      note (not (text_eq host.kermp_sidecar_version client.kermp_sidecar_version))
        "sidecar_version_mismatch"
        (note (not (text_eq host.kermp_sims_mod_version client.kermp_sims_mod_version))
          "sims_mod_mismatch"
          (note (game_versions_differ host client) "game_version_mismatch" (
            note (not (tuple_eq host.enabled_packs client.enabled_packs)) "pack_mismatch"
              (note (native_required && native_differs host client) "native_api_mismatch" [])))))
