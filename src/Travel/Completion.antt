-- ===== src/Travel/Completion.antt =====
-- A whole travel through the coordinator of kermp/travel.py, from `propose` to COMPLETE.
use ker_mp.Prelude.{
  List, Option, String, [], arith, eq_refl, false, map, refl, some, true, ℕ, ◌++◌, ◌+◌, ◌==◌, ◌∙◌,
  ◌∷◌, ◌≡◌, ap, subst, sym,
}
use ker_mp.Prelude.Int.{pos, ℤ}
use ker_mp.Prelude.Errors.{ok}
use ker_mp.Prelude.Sets.{Within, to_set, contains-to_set}
use ker_mp.Travel.State.{TravelCoordinator, TravelPhase, TravelTxn}
use ker_mp.Travel.Ops.{
  active, begin_zone_wait, get_txn, is_empty, mark_ready, mark_ready_txn, mark_zone_ready,
  mark_zone_ready_txn, propose, on_txn,
}
use ker_mp.Travel.Calls.{
  TravelCall, after, after_all, call_propose, call_ready, call_zone_ready, call_zone_wait,
}
use ker_mp.Travel.Progress.{
  Awaiting, ready_all, zone_ready_all, Loading, zone_ready_all_completes, ready_all_commits,
}
use ker_mp.Travel.Invariant.{Within-nil, set_eq-nil}

after_all-append :
    (xs ys : List TravelCall) (c : TravelCoordinator)
    → after_all (xs ++ ys) c ≡ after_all ys (after_all xs c)
unfolding after_all
after_all-append [] ys c = refl
after_all-append (x ∷ xs) ys c = after_all-append xs ys (after x c)

get_txn-found :
    (c : TravelCoordinator) (t : TravelTxn)
    → get_txn t.txn_id (record c { current = some t }) ≡ ok t
unfolding get_txn
get_txn-found c t = rw eq_refl

-- Reports of the players `ps` on the transaction that the coordinator holds.
abbrev pub ready_calls : String → Option ℤ → List String → List TravelCall
ready_calls txn_id e ps = map (λ p. call_ready p txn_id e) ps

abbrev pub zone_calls : String → Option ℤ → List String → List TravelCall
zone_calls txn_id e ps = map (λ p. call_zone_ready p txn_id e) ps

txn_id-mark_ready_txn :
    (p : String) (e : Option ℤ) (t : TravelTxn)
    → ((mark_ready_txn p e t).1.txn_id ≡ t.txn_id)
      × ((mark_ready_txn p e t).1.participants ≡ t.participants)
      × ((mark_ready_txn p e t).1.zone_ready ≡ t.zone_ready)
      × ((mark_ready_txn p e t).1.epoch ≡ t.epoch)
unfolding mark_ready_txn
txn_id-mark_ready_txn p e t = ground arith

txn_id-mark_zone_ready_txn :
    (p : String) (e : Option ℤ) (t : TravelTxn)
    → ((mark_zone_ready_txn p e t).1.txn_id ≡ t.txn_id)
      × ((mark_zone_ready_txn p e t).1.epoch ≡ t.epoch)
unfolding mark_zone_ready_txn
txn_id-mark_zone_ready_txn p e t = ground arith

ready_all_kept :
    (ps : List String) (e : Option ℤ) (t : TravelTxn)
    → ((ready_all ps e t).txn_id ≡ t.txn_id)
      × ((ready_all ps e t).participants ≡ t.participants)
      × ((ready_all ps e t).zone_ready ≡ t.zone_ready)
      × ((ready_all ps e t).epoch ≡ t.epoch)
unfolding ready_all
ready_all_kept [] e t = (refl, refl, refl, refl)
ready_all_kept (p ∷ ps) e t =
    let (a, b, c, d) = ready_all_kept ps e (mark_ready_txn p e t).1 in
    let (a', b', c', d') = txn_id-mark_ready_txn p e t in (a ∙ a', b ∙ b', c ∙ c', d ∙ d')

after-call_ready :
    (p : String) (e : Option ℤ) (c : TravelCoordinator) (t : TravelTxn) (txn_id : String)
    → t.txn_id ≡ txn_id
    → after (call_ready p txn_id e) (record c { current = some t })
      ≡ record c { current = some (mark_ready_txn p e t).1 }
unfolding after mark_ready
after-call_ready p e c t txn_id h =
    let found : get_txn txn_id (record c { current = some t }) ≡ ok t =
      rw (← h) (get_txn-found c t) in
    ap (λ r. (on_txn r (mark_ready_txn p e) (record c { current = some t })).1) found

after-call_zone_ready :
    (p : String) (e : Option ℤ) (c : TravelCoordinator) (t : TravelTxn) (txn_id : String)
    → t.txn_id ≡ txn_id
    → after (call_zone_ready p txn_id e) (record c { current = some t })
      ≡ record c { current = some (mark_zone_ready_txn p e t).1 }
unfolding after mark_zone_ready
after-call_zone_ready p e c t txn_id h =
    let found : get_txn txn_id (record c { current = some t }) ≡ ok t =
      rw (← h) (get_txn-found c t) in
    ap (λ r. (on_txn r (mark_zone_ready_txn p e) (record c { current = some t })).1) found

after_all-ready_calls :
    (ps : List String) (e : Option ℤ) (c : TravelCoordinator) (t : TravelTxn) (txn_id : String)
    → t.txn_id ≡ txn_id
    → after_all (ready_calls txn_id e ps) (record c { current = some t })
      ≡ record c { current = some (ready_all ps e t) }
unfolding after_all ready_all
after_all-ready_calls [] e c t txn_id h = refl
after_all-ready_calls (p ∷ ps) e c t txn_id h =
    ap (after_all (ready_calls txn_id e ps)) (after-call_ready p e c t txn_id h)
    ∙ after_all-ready_calls ps e c (mark_ready_txn p e t).1 txn_id
        ((txn_id-mark_ready_txn p e t).0 ∙ h)

after_all-zone_calls :
    (ps : List String) (e : Option ℤ) (c : TravelCoordinator) (t : TravelTxn) (txn_id : String)
    → t.txn_id ≡ txn_id
    → after_all (zone_calls txn_id e ps) (record c { current = some t })
      ≡ record c { current = some (zone_ready_all ps e t) }
unfolding after_all zone_ready_all
after_all-zone_calls [] e c t txn_id h = refl
after_all-zone_calls (p ∷ ps) e c t txn_id h =
    ap (after_all (zone_calls txn_id e ps)) (after-call_zone_ready p e c t txn_id h)
    ∙ after_all-zone_calls ps e c (mark_zone_ready_txn p e t).1 txn_id
        ((txn_id-mark_zone_ready_txn p e t).0 ∙ h)

zone_ready_all_kept :
    (ps : List String) (e : Option ℤ) (t : TravelTxn)
    → ((zone_ready_all ps e t).txn_id ≡ t.txn_id) × ((zone_ready_all ps e t).epoch ≡ t.epoch)
unfolding zone_ready_all
zone_ready_all_kept [] e t = (refl, refl)
zone_ready_all_kept (p ∷ ps) e t =
    let (a, b) = zone_ready_all_kept ps e (mark_zone_ready_txn p e t).1 in
    let (a', b') = txn_id-mark_zone_ready_txn p e t in (a ∙ a', b ∙ b')

begin_zone_wait-committed :
    (c : TravelCoordinator) (t : TravelTxn) (txn_id : String)
    → t.txn_id ≡ txn_id
    → t.phase ≡ TravelPhase.committed
    → after (call_zone_wait txn_id) (record c { current = some t })
      ≡ record c { current = some (record t { phase = TravelPhase.waiting_zone_ready }) }
unfolding after begin_zone_wait
begin_zone_wait-committed c t txn_id h k =
    let found : get_txn txn_id (record c { current = some t }) ≡ ok t =
      rw (← h) (get_txn-found c t) in
    ground (arith, found)

-- Everybody's part of one travel: `readies` and `loads` are the players in the order in which their
-- reports come in.
abbrev pub travel_calls :
    String → String → List String → List String → List String → List String → ℕ → List TravelCall
travel_calls fresh zone_id actor_ids players readies loads epoch =
    call_propose fresh zone_id actor_ids players
    ∷ (ready_calls fresh (some (pos epoch)) readies
        ++ call_zone_wait fresh ∷ zone_calls fresh (some (pos epoch)) loads)

pub record Completed (fresh : String) (epoch : ℕ) (c : TravelCoordinator) : Type 0 where
  pub txn : TravelTxn
  pub held : c.current ≡ some txn
  pub named : txn.txn_id ≡ fresh
  pub done : txn.phase ≡ TravelPhase.complete
  pub numbered : txn.epoch ≡ epoch

new_txn : String → String → List String → List String → ℕ → TravelTxn
new_txn fresh zone_id actor_ids players epoch = record {
  epoch = epoch;
  txn_id = fresh;
  zone_id = zone_id;
  actor_ids = actor_ids;
  participants = to_set players;
  phase = TravelPhase.waiting_ready;
  ready = [];
  zone_ready = [];
}

propose-started :
    (fresh zone_id : String) (actor_ids players : List String) (c : TravelCoordinator)
    → active c ≡ false
    → is_empty (to_set players) ≡ false
    → (propose fresh zone_id actor_ids players c).1 ≡ record {
      current = some (new_txn fresh zone_id actor_ids players (c.epoch_count + 1));
      epoch_count = c.epoch_count + 1;
    }
unfolding propose new_txn
propose-started fresh zone_id actor_ids players c h k = rw (h, k)

eq_ℕ_refl : (n : ℕ) → (n == n) ≡ true
eq_ℕ_refl n = ground arith

module _ (fresh zone_id : String) (actor_ids players readies loads : List String)
    (c : TravelCoordinator) (idle_before : active c ≡ false)
    (some_player : is_empty (to_set players) ≡ false) (all_ready : Within players readies)
    (all_loaded : Within players loads) where
  awaiting :
      Awaiting readies
        (some (pos (c.epoch_count + 1)))
        (new_txn fresh zone_id actor_ids players (c.epoch_count + 1))
  unfolding new_txn
  awaiting = record {
    phase = refl;
    fresh = rw (eq_ℕ_refl (c.epoch_count + 1));
    known = Within-nil (to_set players);
    one_missing = set_eq-nil (to_set players) some_player;
    covered = λ x m. ground (arith, contains-to_set x players, all_ready x, Within-nil readies x);
  }

  loading :
      (t : TravelTxn)
      → t.participants ≡ to_set players
      → t.zone_ready ≡ []
      → t.epoch ≡ c.epoch_count + 1
      → Loading loads
          (some (pos (c.epoch_count + 1)))
          (record t { phase = TravelPhase.waiting_zone_ready })
  loading t p z e = record {
    phase = refl;
    fresh = rw (e, eq_ℕ_refl (c.epoch_count + 1));
    known = rw z (Within-nil t.participants);
    one_missing = rw (z, p) (set_eq-nil (to_set players) some_player);
    covered = λ x m. ground (arith, contains-to_set x players, all_loaded x, p);
  }

  -- If no travel is under way and there is a player, then the calls of one travel, with the reports
  -- of all players in any order, repeated or mixed with those of strangers, end in COMPLETE.
  pub travel_completes :
      Completed fresh (c.epoch_count + 1) (
        after_all
          (travel_calls fresh zone_id actor_ids players readies loads (c.epoch_count + 1))
          c)
  unfolding after_all
  travel_completes =
      let e = some (pos (c.epoch_count + 1)) in
      let t0 = new_txn fresh zone_id actor_ids players (c.epoch_count + 1) in
      let t1 = ready_all readies e t0 in
      let (name, same, none_in, number) = ready_all_kept readies e t0 in
      let t2 : TravelTxn = record t1 { phase = TravelPhase.waiting_zone_ready } in
      let t3 = zone_ready_all loads e t2 in
      let c1 : TravelCoordinator = record { current = some t0; epoch_count = c.epoch_count + 1 } in
      let zone = call_zone_wait fresh ∷ zone_calls fresh e loads in
      let started = propose-started fresh zone_id actor_ids players c idle_before some_player in
      let same_players : t0.participants ≡ to_set players = unfold new_txn in refl in
      let empty_zone : t0.zone_ready ≡ [] = unfold new_txn in refl in
      let first : t0.epoch ≡ c.epoch_count + 1 = unfold new_txn in refl in
      let named : t0.txn_id ≡ fresh = unfold new_txn in refl in
      let agreed = ready_all_commits readies e t0 awaiting in
      let (name', number') = zone_ready_all_kept loads e t2 in
      let begun : (after (call_propose fresh zone_id actor_ids players) c) ≡ c1 =
        unfold after in started in
      let whole =
        ap (after_all (ready_calls fresh e readies ++ zone)) begun
        ∙ after_all-append (ready_calls fresh e readies) zone c1
        ∙ ap (after_all zone) (after_all-ready_calls readies e c1 t0 fresh named)
        ∙ ap (after_all (zone_calls fresh e loads))
            (begin_zone_wait-committed c1 t1 fresh (name ∙ named) agreed)
        ∙ after_all-zone_calls loads e c1 t2 fresh (name ∙ named) in
      subst (Completed fresh (c.epoch_count + 1)) (sym whole) (record {
        txn = t3;
        held = refl;
        named = name' ∙ name ∙ named;
        done =
            zone_ready_all_completes loads e t2
              (loading t1 (same ∙ same_players) (none_in ∙ empty_zone) (number ∙ first));
        numbered = number' ∙ number ∙ first;
      })
