-- ===== src/Session/Control.antt =====
-- Who controls a Sim, in the session of kermp/session.py.
use ker_mp.Prelude.{
  Bool-cases, List, Option, String, [], arith, eq_iff, false, inl, inr, none, refl, some, text_eq,
  true, ◌∷◌, ◌≡◌, Option-cases, ◌⊎◌, ap, sym, ◌∙◌, ◌≢◌, eq_refl,
}
use ker_mp.Prelude.Dict.{Dict, get, put, get-put}
use ker_mp.Prelude.Sets.{Within, contains}
use ker_mp.Session.State.{HostSession, Player, Sim}
use ker_mp.Session.Players.{controllers_of, is_active, refreshed, select_sim, set_sim_controllers}

abbrev pub with_controllers : List String → Option Sim → Option Sim
with_controllers cs none = none
with_controllers cs (some sim) = some (record sim { controllers = cs })

pub get-refreshed :
    (id : String) (players : Dict Player) (d : Dict Sim)
    → get id (refreshed players d) ≡ with_controllers (controllers_of id players) (get id d)
unfolding refreshed get
get-refreshed id players [] = refl
get-refreshed id players ((j, sim) ∷ d) = elim (Bool-cases (text_eq j id)) [
  | inl same ↦ rw (same, (eq_iff j id).0 same)
  | inr other ↦ rw other (get-refreshed id players d)
]

-- Every player who has a Sim is among its controllers.
abbrev pub AllListed : HostSession → Type 0
AllListed s =
    (id : String) (sim : Sim)
    → get id s.sims ≡ some sim
    → Within (controllers_of id s.players) sim.controllers

controllers_of-put :
    (id k x : String) (p : Player) (d : Dict Player)
    → is_active id p ≡ false
    → contains x (controllers_of id (put k p d)) ≡ true
    → contains x (controllers_of id d) ≡ true
unfolding controllers_of put contains
controllers_of-put id k x p [] idle m = ground arith
controllers_of-put id k x p ((j, q) ∷ d) idle m = ground (
  arith,
  λ (n : contains x (controllers_of id (put k p d)) ≡ true). controllers_of-put id k x p d idle n,
)

set_sim_controllers-found :
    (id : String) (s : HostSession) (sim : Sim)
    → get id s.sims ≡ some sim
    → set_sim_controllers id s
      ≡ record s { sims = put id (record sim { controllers = controllers_of id s.players }) s.sims }
unfolding set_sim_controllers
set_sim_controllers-found id s sim h = ground (arith, h)

-- The session in which `player` has the Sim, with the Sim's controllers derived anew.
chosen : String → String → Player → Sim → HostSession → HostSession
chosen p id player sim s =
    let players = put p (record player { active_sim_id = some id }) s.players in
    record s {
      players = players;
      sims = put id (record sim { controllers = controllers_of id players }) s.sims;
    }

chosen-AllListed :
    (p id : String) (player : Player) (sim : Sim) (s : HostSession)
    → AllListed s
    → AllListed (chosen p id player sim s)
unfolding chosen
chosen-AllListed p id player sim s listed j found h x m = elim (Bool-cases (text_eq id j)) [
  | inl same ↦
      let players = put p (record player { active_sim_id = some id }) s.players in
      let name = (eq_iff id j).0 same in
      let it : record sim { controllers = controllers_of id players } ≡ found = ground (
        arith,
        h,
        same,
        get-put id j (record sim { controllers = controllers_of id players }) s.sims,
      ) in
      let listed_now : found.controllers ≡ controllers_of j players =
        ap (λ (u : Sim). u.controllers) (sym it) ∙ ap (λ k. controllers_of k players) name in
      rw listed_now m
  | inr other ↦
      let players = put p (record player { active_sim_id = some id }) s.players in
      let old : get j s.sims ≡ some found = ground (
        arith,
        h,
        other,
        get-put id j (record sim { controllers = controllers_of id players }) s.sims,
      ) in
      listed j found old x
        (controllers_of-put j p x (record player { active_sim_id = some id }) s.players other m)
]

select_sim_cases :
    (p id : String) (s : HostSession)
    → ((select_sim p id s).1 ≡ s)
      ⊎ ((player : Player) × (sim : Sim) × (get p s.players ≡ some player)
          × (get id s.sims ≡ some sim)
          × ((select_sim p id s).1 ≡ chosen p id player sim s))
unfolding select_sim chosen
select_sim_cases p id s = elim (Option-cases (get p s.players)) [
  | inl e ↦ inl (ground (arith, e))
  | inr (player, e) ↦ elim (Option-cases (get id s.sims)) [
    | inl f ↦ inl (ground (arith, e, f))
    | inr (sim, f) ↦
        let t = record s {
          players = put p (record player { active_sim_id = some id }) s.players;
        } in
        inr (player, sim, e, f, ground (arith, e, f, set_sim_controllers-found id t sim f))
  ]
]

-- If every player who has a Sim is among its controllers, then that is still so after `select_sim`,
-- whether it returns or raises.
pub select_sim-AllListed :
    (p id : String) (s : HostSession) → AllListed s → AllListed (select_sim p id s).1
select_sim-AllListed p id s listed = elim (select_sim_cases p id s) [
  | inl e ↦ rw e listed
  | inr (player, sim, _, _, e) ↦ rw e (chosen-AllListed p id player sim s listed)
]

-- A player who selects another Sim has that one from then on, and the entry of the Sim that was left
-- stays as it was: its list of controllers, with the player in it, is not derived anew.
pub select_sim_stale :
    (p old new : String) (s : HostSession) (player : Player) (sim sim' : Sim)
    → get p s.players ≡ some player
    → get old s.sims ≡ some sim
    → get new s.sims ≡ some sim'
    → old ≢ new
    → (get p (select_sim p new s).1.players ≡ some (record player { active_sim_id = some new }))
      × (get old (select_sim p new s).1.sims ≡ some sim)
unfolding select_sim chosen
select_sim_stale p old new s player sim sim' here there known apart =
    let moved = record player { active_sim_id = some new } in
    let players = put p moved s.players in
    let t = record s { players = players } in
    let cs = controllers_of new players in
    let found = set_sim_controllers-found new t sim' known in
    (
      ground (arith, here, known, found, get-put p p moved s.players, eq_refl p),
      ground (
        arith,
        here,
        known,
        found,
        there,
        eq_iff new old,
        get-put new old (record sim' { controllers = cs }) s.sims,
      ),
    )
