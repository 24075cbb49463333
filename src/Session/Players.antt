-- ===== src/Session/Players.antt =====
-- The methods of HostSession (kermp/session.py) on players and Sims. `self.players[player_id]` on a
-- missing key raises KeyError.
use ker_mp.Prelude.{
  Bool, List, Option, String, [], false, if◌then◌else◌, none, not, some, text_eq, true, ◌&&◌, ◌||◌,
  ◌∷◌,
}
use ker_mp.Prelude.Dict.{Dict, get, has_key, pop, put}
use ker_mp.Prelude.Errors.{Result, key_error, ok, raise, value_error}
use ker_mp.Value.{Payload, get_value, null, str, Value, truthy}
use ker_mp.Travel.{remove_participant}
use ker_mp.Readiness.{P0CoreReadiness, PlayerReadiness, advance, no_reasons, nonempty}
use ker_mp.Compatibility.{CompatibilityManifest, compare_manifests}
use ker_mp.Routing.{disconnect}
use ker_mp.BuildSync.{release_lock}
use ker_mp.Session.State.{HostSession, Player, Sim, new_player}
use ker_mp.Prelude.Int.{ℤ}

abbrev pub is_active : String → Player → Bool
is_active sim_id p = elim p.active_sim_id [ none ↦ false | some s ↦ text_eq s sim_id ]

-- `[p.player_id for p in self.players.values() if p.active_sim_id == sim_id]`
unfoldable pub controllers_of : String → Dict Player → List String
controllers_of sim_id [] = []
controllers_of sim_id ((k, p) ∷ d) =
    let rest = controllers_of sim_id d in if is_active sim_id p then p.player_id ∷ rest else rest

-- `_set_sim_controllers`, on a Sim that is there
unfoldable pub set_sim_controllers : String → HostSession → HostSession
set_sim_controllers sim_id s = elim (get sim_id s.sims) [
  | none ↦ s
  | some sim ↦ record s {
    sims = put sim_id (record sim { controllers = controllers_of sim_id s.players }) s.sims;
  }
]

-- `for sim_id in self.sims: self._set_sim_controllers(sim_id)`
unfoldable pub refreshed : Dict Player → Dict Sim → Dict Sim
refreshed players [] = []
refreshed players ((sim_id, sim) ∷ d) =
    (sim_id, record sim { controllers = controllers_of sim_id players }) ∷ refreshed players d

-- `compare_manifests(...) if self.host_manifest and player_id != self.host_manifest.player_id else []`
unfoldable pub manifest_reasons : String → CompatibilityManifest → HostSession → List String
manifest_reasons player_id manifest s = elim s.host_manifest [
  | none ↦ []
  | some host ↦
      if text_eq player_id host.player_id
      then []
      else compare_manifests host manifest s.native_build_buy_required
]

unfoldable pub set_manifest :
    String → CompatibilityManifest → HostSession → Result (List String) × HostSession
set_manifest player_id manifest s = elim (get player_id s.players) [
  | none ↦ (raise (key_error player_id), s)
  | some p ↦
      let reasons = manifest_reasons player_id manifest s in
      let native =
        if s.native_build_buy_required
        then manifest.native_available && manifest.native_game_build_supported
        else true in
      let readiness =
        advance (record p.readiness { compatibility_reasons = reasons; native_ready = native }) in
      (
        ok reasons,
        record s {
          players =
              put player_id (record p { manifest = some manifest; readiness = readiness })
                s.players;
        },
      )
]

-- `saved in self.sims` for the Sim that the player had before
unfoldable pub restore_sim : String → HostSession → HostSession
restore_sim player_id s = elim (get player_id s.reconnect_sim_ids) [
  | none ↦ s
  | some saved ↦
      if has_key saved s.sims
      then elim (get player_id s.players) [
        | none ↦ s
        | some p ↦ set_sim_controllers saved (record s {
          players = put player_id (record p { active_sim_id = some saved }) s.players;
        })
      ]
      else s
]

unfoldable pub add_player :
    String → String → Option CompatibilityManifest → HostSession → HostSession
add_player player_id display_name manifest s =
    let added = record s {
      players = put player_id (new_player player_id display_name) s.players;
    } in
    let checked : HostSession = elim manifest [
      | none ↦ added
      | some m ↦ (set_manifest player_id m added).1
    ] in
    restore_sim player_id checked

-- `if player and player.active_sim_id: self.reconnect_sim_ids[player_id] = player.active_sim_id`
unfoldable pub remember_sim : String → HostSession → Dict String
remember_sim player_id s = elim (get player_id s.players) [
  | none ↦ s.reconnect_sim_ids
  | some p ↦ elim p.active_sim_id [
    | none ↦ s.reconnect_sim_ids
    | some sim_id ↦
        if nonempty sim_id then put player_id sim_id s.reconnect_sim_ids else s.reconnect_sim_ids
  ]
]

-- `if self.build.lock and self.build.lock.owner_id == player_id: …` is `release_lock`.
unfoldable pub remove_player : String → HostSession → HostSession
remove_player player_id s =
    let players = pop player_id s.players in
    record s {
      reconnect_sim_ids = remember_sim player_id s;
      players = players;
      sims = refreshed players s.sims;
      build = (release_lock player_id s.build).1;
      travel = (remove_participant player_id s.travel).1;
      dialogs = (disconnect player_id s.dialogs).1;
    }

-- The fields that a message sets, in the order of the message.
pub data ReadinessField : Type 0 where
  set_bytes_received : ℤ → ReadinessField
  set_total_bytes : ℤ → ReadinessField
  set_save_hash : Value → ReadinessField
  set_bridge_connected : Value → ReadinessField
  set_zone_ready : Value → ReadinessField
  set_authority_ready : Value → ReadinessField
  set_native_ready : Bool → ReadinessField
  set_error : Value → ReadinessField

unfoldable pub set_field : ReadinessField → PlayerReadiness → PlayerReadiness
set_field (set_bytes_received n) r = record r { save_bytes_received = n }
set_field (set_total_bytes n) r = record r { save_total_bytes = n }
set_field (set_save_hash h) r = record r { save_hash = h }
set_field (set_bridge_connected b) r = record r { bridge_connected = b }
set_field (set_zone_ready b) r = record r { zone_ready = b }
set_field (set_authority_ready b) r = record r { simulation_authority_ready = b }
set_field (set_native_ready b) r = record r { native_ready = b }
set_field (set_error e) r = record r { error = e }

unfoldable pub set_fields : List ReadinessField → PlayerReadiness → PlayerReadiness
set_fields [] r = r
set_fields (f ∷ fs) r = set_fields fs (set_field f r)

unfoldable pub update_readiness :
    String → List ReadinessField → HostSession → Result PlayerReadiness × HostSession
update_readiness player_id fields s = elim (get player_id s.players) [
  | none ↦ (raise (key_error player_id), s)
  | some p ↦
      let readiness = advance (set_fields fields p.readiness) in
      (
        ok readiness,
        record s { players = put player_id (record p { readiness = readiness }) s.players },
      )
]

abbrev pub is_cons : Dict Player → Bool
is_cons [] = false
is_cons (p ∷ ps) = true

unfoldable pub every : (PlayerReadiness → Bool) → Dict Player → Bool
every test [] = true
every test ((k, p) ∷ d) = test p.readiness && every test d

unfoldable pub core_readiness : HostSession → P0CoreReadiness
core_readiness s =
    let some_player = is_cons s.players in
    record {
      compatibility_ready =
          some_player && every (λ r. no_reasons r.compatibility_reasons) s.players;
      save_ready = some_player && every (λ r. truthy r.save_hash) s.players;
      bridge_ready = some_player && every (λ r. truthy r.bridge_connected) s.players;
      zone_ready = some_player && every (λ r. truthy r.zone_ready) s.players;
      simulation_authority_ready =
          some_player && every (λ r. truthy r.simulation_authority_ready) s.players;
      clock_ready = true;
      interaction_router_ready = true;
      dialog_router_ready = true;
      travel_ready = true;
      native_build_buy_ready =
          not s.native_build_buy_required || every (λ r. r.native_ready) s.players;
    }

-- The entries that `update_sims` makes: those with an id, a later one over an earlier one of its id,
-- with the controllers that the id had.
unfoldable pub sims_from : Dict Sim → List Payload → Dict Sim → Dict Sim
sims_from previous [] made = made
sims_from previous (d ∷ ds) made =
    let sim_id = str (get_value "sim_id" d) in
    let old : List String = elim (get sim_id previous) [ none ↦ [] | some sim ↦ sim.controllers ] in
    let name : String = elim (get "name" d) [ none ↦ "" | some v ↦ str v ] in
    let given : Bool = elim (get_value "sim_id" d) [ null ↦ false | _ ↦ nonempty sim_id ] in
    sims_from previous ds
      (if given then put sim_id (record { name = name; controllers = old }) made else made)

unfoldable pub update_sims : List Payload → HostSession → HostSession
update_sims sims s = record s { sims = refreshed s.players (sims_from s.sims sims []) }

unfoldable pub sim_owner : String → Dict Player → Option String
sim_owner sim_id [] = none
sim_owner sim_id ((k, p) ∷ d) = if is_active sim_id p then some p.player_id else sim_owner sim_id d

pub record SimSelection : Type 0 where
  pub player_id : String
  pub sim_id : String
  pub name : String
  pub controllers : List String

-- The Sim after `_set_sim_controllers`, as the result shows it.
unfoldable pub select_sim : String → String → HostSession → Result SimSelection × HostSession
select_sim player_id sim_id s = elim (get player_id s.players) [
  | none ↦ (raise (value_error "unknown_player"), s)
  | some p ↦ elim (get sim_id s.sims) [
    | none ↦ (raise (value_error "invalid_sim_id"), s)
    | some sim ↦
        let players = put player_id (record p { active_sim_id = some sim_id }) s.players in
        let s' = set_sim_controllers sim_id (record s { players = players }) in
        (
          ok (record {
            player_id = player_id;
            sim_id = sim_id;
            name = sim.name;
            controllers = controllers_of sim_id players;
          }),
          s',
        )
  ]
]
