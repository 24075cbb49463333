-- ===== src/Travel/Progress.antt =====
-- The barrier of kermp/travel.py opens: once every participant has reported, in whatever order, the
-- transaction commits, and later completes.
use ker_mp.Prelude.{
  List, Option, String, [], arith, ◌∷◌, ◌≡◌, Bool-cases, false, inl, inr, refl, true, ◌||◌, ◌⊎◌,
  ◌∙◌,
}
use ker_mp.Prelude.Int.{ℤ}
use ker_mp.Travel.State.{TravelPhase, TravelTxn, accepts_zone}
use ker_mp.Travel.Ops.{mark_ready_txn, counted, stale, mark_zone_ready_txn}
use ker_mp.Prelude.Sets.{Within, Within→set_eq, contains, set_eq}
use ker_mp.Travel.Invariant.{Within-counted, covered_next, stale_same}

-- The transaction after `mark_ready` of each of the players.
unfoldable pub ready_all : List String → Option ℤ → TravelTxn → TravelTxn
ready_all [] e t = t
ready_all (p ∷ ps) e t = ready_all ps e (mark_ready_txn p e t).1

-- Waiting for players, with the players `ps` still to report.
pub record Awaiting (ps : List String) (e : Option ℤ) (t : TravelTxn) : Type 0 where
  pub phase : t.phase ≡ TravelPhase.waiting_ready
  pub fresh : stale e t ≡ false
  pub known : Within t.ready t.participants
  pub one_missing : set_eq t.ready t.participants ≡ false
  pub covered :
      (x : String) → contains x t.participants ≡ true → (contains x t.ready || contains x ps) ≡ true

ready_all-committed :
    (ps : List String) (e : Option ℤ) (t : TravelTxn)
    → t.phase ≡ TravelPhase.committed
    → ready_all ps e t ≡ t
unfolding ready_all
ready_all-committed [] e t h = refl
ready_all-committed (p ∷ ps) e t h =
    let same : (mark_ready_txn p e t).1 ≡ t = unfold mark_ready_txn in ground arith in
    rw same (ready_all-committed ps e t h)

module _ (p : String) (ps : List String) (e : Option ℤ) (t : TravelTxn)
    (w : Awaiting (p ∷ ps) e t) where
  mark_ready_txn_next :
      ((mark_ready_txn p e t).1.phase ≡ TravelPhase.committed)
      ⊎ Awaiting ps e (mark_ready_txn p e t).1
  unfolding mark_ready_txn
  mark_ready_txn_next =
      let ready = counted p t.participants t.ready in
      elim (Bool-cases (set_eq ready t.participants)) [
        | inl q ↦ inl (ground (arith, w.phase, w.fresh))
        | inr q ↦ inr (
            rw (w.fresh, w.phase, q)
              (record {
                phase = refl;
                fresh = stale_same e _ t refl ∙ w.fresh;
                known = Within-counted p t.participants t.ready w.known;
                one_missing = q;
                covered = covered_next p ps t.participants t.ready w.covered;
              }))
      ]

pub ready_all_commits :
    (ps : List String) (e : Option ℤ) (t : TravelTxn)
    → Awaiting ps e t
    → (ready_all ps e t).phase ≡ TravelPhase.committed
unfolding ready_all
ready_all_commits [] e t w =
    let covered =
      Within→set_eq t.ready t.participants w.known
        (λ x m. unfold contains in ground (arith, w.covered x)) in
    cc
ready_all_commits (p ∷ ps) e t w = elim (mark_ready_txn_next p ps e t w) [
  | inl done ↦ rw (ready_all-committed ps e (mark_ready_txn p e t).1 done) done
  | inr more ↦ ready_all_commits ps e (mark_ready_txn p e t).1 more
]

-- The transaction after `mark_zone_ready` of each of the players.
unfoldable pub zone_ready_all : List String → Option ℤ → TravelTxn → TravelTxn
zone_ready_all [] e t = t
zone_ready_all (p ∷ ps) e t = zone_ready_all ps e (mark_zone_ready_txn p e t).1

-- Waiting for the zone to load, with the players `ps` still to report.
pub record Loading (ps : List String) (e : Option ℤ) (t : TravelTxn) : Type 0 where
  pub phase : accepts_zone t.phase ≡ true
  pub fresh : stale e t ≡ false
  pub known : Within t.zone_ready t.participants
  pub one_missing : set_eq t.zone_ready t.participants ≡ false
  pub covered :
      (x : String)
      → contains x t.participants ≡ true
      → (contains x t.zone_ready || contains x ps) ≡ true

zone_ready_all-complete :
    (ps : List String) (e : Option ℤ) (t : TravelTxn)
    → t.phase ≡ TravelPhase.complete
    → zone_ready_all ps e t ≡ t
unfolding zone_ready_all
zone_ready_all-complete [] e t h = refl
zone_ready_all-complete (p ∷ ps) e t h =
    let same : (mark_zone_ready_txn p e t).1 ≡ t = unfold mark_zone_ready_txn in ground arith in
    rw same (zone_ready_all-complete ps e t h)

module _ (p : String) (ps : List String) (e : Option ℤ) (t : TravelTxn)
    (w : Loading (p ∷ ps) e t) where
  mark_zone_ready_txn_next :
      ((mark_zone_ready_txn p e t).1.phase ≡ TravelPhase.complete)
      ⊎ Loading ps e (mark_zone_ready_txn p e t).1
  unfolding mark_zone_ready_txn
  mark_zone_ready_txn_next =
      let loaded = counted p t.participants t.zone_ready in
      elim (Bool-cases (set_eq loaded t.participants)) [
        | inl q ↦ inl (ground (arith, w.phase, w.fresh))
        | inr q ↦ inr (
            rw (w.fresh, w.phase, q)
              (record {
                phase = refl;
                fresh = stale_same e _ t refl ∙ w.fresh;
                known = Within-counted p t.participants t.zone_ready w.known;
                one_missing = q;
                covered = covered_next p ps t.participants t.zone_ready w.covered;
              }))
      ]

pub zone_ready_all_completes :
    (ps : List String) (e : Option ℤ) (t : TravelTxn)
    → Loading ps e t
    → (zone_ready_all ps e t).phase ≡ TravelPhase.complete
unfolding zone_ready_all
zone_ready_all_completes [] e t w =
    let covered =
      Within→set_eq t.zone_ready t.participants w.known
        (λ x m. unfold contains in ground (arith, w.covered x)) in
    cc
zone_ready_all_completes (p ∷ ps) e t w = elim (mark_zone_ready_txn_next p ps e t w) [
  | inl done ↦ rw (zone_ready_all-complete ps e (mark_zone_ready_txn p e t).1 done) done
  | inr more ↦ zone_ready_all_completes ps e (mark_zone_ready_txn p e t).1 more
]
