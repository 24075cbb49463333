-- ===== src/Session/Leaving.antt =====
-- What a player leaves behind (kermp/session.py).
use ker_mp.Prelude.{
  ◌≢◌, text_eq, eq_iff, refl, String, eq_refl, false, none, some, ◌≡◌, arith, inl, inr, subst,
}
use ker_mp.Prelude.Dict.{get, get-put, has_key, has_key-pop, pop}
use ker_mp.Prelude.Sets.{contains, contains-discard}
use ker_mp.Travel.{TravelCoordinator, TravelTxn, finished, remove_participant, remove_txn}
use ker_mp.BuildSync.{owned_by, release_lock}
use ker_mp.Routing.{Dialog}
use ker_mp.Session.State.{HostSession, Player, Sim}
use ker_mp.Session.Players.{controllers_of, remember_sim, remove_player}
use ker_mp.Session.Control.{get-refreshed}
use ker_mp.Travel.Invariant.{remove_participant_cases}
use ker_mp.Routing.Laws.{disconnect_leaves}

remove_txn-gone : (p : String) (t : TravelTxn) → contains p (remove_txn p t).participants ≡ false
unfolding remove_txn
remove_txn-gone p t = rw (contains-discard p p t.participants, eq_refl p)

remove_participant-gone :
    (p : String) (c : TravelCoordinator) (t : TravelTxn)
    → (remove_participant p c).1.current ≡ some t
    → finished t.phase ≡ false
    → contains p t.participants ≡ false
remove_participant-gone p c t h going = elim (remove_participant_cases p c) [
  | inl (e, over) ↦
      let still : c.current ≡ some t = ground (arith, h, e) in ground (arith, over t still)
  | inr (u, held, _, e) ↦
      let same : remove_txn p u ≡ t = ground (arith, h, e) in
      subst (λ (v : TravelTxn). contains p v.participants ≡ false) same (remove_txn-gone p u)
]

remembered :
    (p : String) (s : HostSession) (was : Player) (id : String)
    → get p s.players ≡ some was
    → was.active_sim_id ≡ some id
    → id ≢ ""
    → get p (remember_sim p s) ≡ some id
unfolding remember_sim
remembered p s was id here has named =
    let named' : text_eq id "" ≡ false = ground (arith, eq_iff id "", named) in
    ground (arith, here, has, named', get-put p p id s.reconnect_sim_ids, eq_refl p)

-- After `remove_player` the player is not among the players, nobody is listed as a controller but the
-- players whose Sim it is, the lease is not the player's, a travel under way does not wait for the
-- player, and no dialog that was the player's is open. The requests of the player stay, and the Sim that
-- the player had is remembered for a return.
pub remove_player_leaves :
    (p : String) (s : HostSession)
    → (has_key p (remove_player p s).players ≡ false)
      × ((id : String) (sim : Sim)
          → get id (remove_player p s).sims ≡ some sim
          → sim.controllers ≡ controllers_of id (remove_player p s).players)
      × (owned_by p (remove_player p s).build.lock ≡ false)
      × ((t : TravelTxn)
          → (remove_player p s).travel.current ≡ some t
          → finished t.phase ≡ false
          → contains p t.participants ≡ false)
      × ((k : String) (d : Dialog)
          → get k s.dialogs.pending ≡ some d
          → d.owner_player_id ≡ p
          → get k (remove_player p s).dialogs.pending ≡ none)
      × ((remove_player p s).interaction_requests ≡ s.interaction_requests)
      × ((was : Player) (id : String)
          → get p s.players ≡ some was
          → was.active_sim_id ≡ some id
          → id ≢ ""
          → get p (remove_player p s).reconnect_sim_ids ≡ some id)
unfolding remove_player
remove_player_leaves p s = (
  rw (has_key-pop p p s.players, eq_refl p),
  λ id sim h. ground (arith, h, get-refreshed id (pop p s.players) s.sims),
  unfold release_lock in ground arith,
  remove_participant-gone p s.travel,
  λ k d h e. (disconnect_leaves p k s.dialogs).0 d h e,
  refl,
  remembered p s,
)
