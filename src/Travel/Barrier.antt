-- ===== src/Travel/Barrier.antt =====
-- The barrier of kermp/travel.py: nobody resumes before everybody is ready and in the zone.
use ker_mp.Prelude.{
  ◌≢◌, ap, List, Option, String, arith, inl, inr, refl, some, true, ◌≡◌, ◌≤◌, ◌<◌, ◌∙◌,
}
use ker_mp.Prelude.Int.{ℤ, pos, negsuc}
use ker_mp.Prelude.Errors.{ok, raise, runtime_error}
use ker_mp.Prelude.Sets.{Within}
use ker_mp.Travel.State.{TravelCoordinator, TravelPhase, TravelTxn, accepts_zone, new_coordinator}
use ker_mp.Travel.Ops.{
  abort, active, begin_zone_wait, mark_ready, mark_ready_txn, mark_zone_ready, mark_zone_ready_txn,
  propose, remove_participant, stale,
}
use ker_mp.Travel.Calls.{TravelCall, after, after_all, call_propose}
use ker_mp.Travel.Invariant.{
  IsValid, after_all-IsValid, get_txn_cases, new_coordinator-IsValid,
  mark_zone_ready_txn-IsValidTxn,
}

-- The transaction that a completed barrier leaves.
pub record Resumed (txn_id : String) (c : TravelCoordinator) : Type 0 where
  pub txn : TravelTxn
  pub held : c.current ≡ some txn
  pub named : txn.txn_id ≡ txn_id
  pub done : txn.phase ≡ TravelPhase.complete
  pub readied : Within txn.participants txn.ready
  pub loaded : Within txn.participants txn.zone_ready

pub mark_zone_ready_txn-true :
    (p : String) (e : Option ℤ) (t : TravelTxn)
    → (mark_zone_ready_txn p e t).0 ≡ true
    → ((mark_zone_ready_txn p e t).1.phase ≡ TravelPhase.complete) × (accepts_zone t.phase ≡ true)
unfolding mark_zone_ready_txn
mark_zone_ready_txn-true p e t h = ground arith

kept_zone :
    (p : String) (e : Option ℤ) (t : TravelTxn)
    → ((mark_zone_ready_txn p e t).1.participants ≡ t.participants)
      × ((mark_zone_ready_txn p e t).1.ready ≡ t.ready)
      × ((mark_zone_ready_txn p e t).1.txn_id ≡ t.txn_id)
unfolding mark_zone_ready_txn
kept_zone p e t = ground arith

resume_of_valid :
    (p txn_id : String) (e : Option ℤ) (c : TravelCoordinator)
    → IsValid c
    → (mark_zone_ready p txn_id e c).0 ≡ ok true
    → Resumed txn_id (mark_zone_ready p txn_id e c).1
unfolding mark_zone_ready
resume_of_valid p txn_id e c v h = elim (get_txn_cases txn_id c) [
  | inl missing ↦ ground (arith, missing)
  | inr (t, holds, named, found) ↦
      let (over, accepted) = mark_zone_ready_txn-true p e t (ground (arith, found)) in
      let t' = (mark_zone_ready_txn p e t).1 in
      let w = mark_zone_ready_txn-IsValidTxn p e t (v.txn t holds) in
      let (same, kept, name) = kept_zone p e t in
      rw found (record {
        txn = t';
        held = refl;
        named = name ∙ named;
        done = over;
        readied = rw (same, kept) ((v.txn t holds).all_ready accepted);
        loaded = w.all_zone_ready over;
      })
]

-- After any calls of the coordinator's methods, `mark_zone_ready` answers True only if it has
-- completed the transaction of that id with every participant ready and in the zone.
pub resume_after_all :
    (xs : List TravelCall) (p txn_id : String) (e : Option ℤ)
    → (mark_zone_ready p txn_id e (after_all xs new_coordinator)).0 ≡ ok true
    → Resumed txn_id (mark_zone_ready p txn_id e (after_all xs new_coordinator)).1
resume_after_all xs p txn_id e =
    resume_of_valid p txn_id e _ (after_all-IsValid xs new_coordinator new_coordinator-IsValid)

differs_stale : (e : ℤ) (t : TravelTxn) → e ≢ pos t.epoch → stale (some e) t ≡ true
differs_stale (pos n) t h =
    let other : n ≢ t.epoch = λ same. h (ap (λ k. pos k) same) in ground (arith, other)
differs_stale (negsuc n) t h = refl

-- A report with any epoch, older or newer, but that of the transaction it names, or with the id of
-- another transaction, changes nothing and lets nobody go on.
pub stale_changes_nothing :
    (p txn_id : String) (e : ℤ) (c : TravelCoordinator)
    → ((t : TravelTxn) → c.current ≡ some t → t.txn_id ≡ txn_id → e ≢ pos t.epoch)
    → ((mark_ready p txn_id (some e) c).1 ≡ c)
      × ((mark_zone_ready p txn_id (some e) c).1 ≡ c)
      × ((mark_ready p txn_id (some e) c).0 ≢ ok true)
      × ((mark_zone_ready p txn_id (some e) c).0 ≢ ok true)
unfolding mark_ready mark_zone_ready
stale_changes_nothing p txn_id e c old = elim (get_txn_cases txn_id c) [
  | inl missing ↦ rw missing (refl, refl, (λ h. cc), (λ h. cc))
  | inr (t, holds, named, found) ↦
      let s = differs_stale e t (old t holds named) in
      unfold mark_ready_txn mark_zone_ready_txn in
      rw (found, s) (rw (← holds) (refl, refl, (λ h. cc), (λ h. cc)))
]

epoch-propose :
    (fresh zone_id : String) (actor_ids participants : List String) (c : TravelCoordinator)
    (t : TravelTxn)
    → (propose fresh zone_id actor_ids participants c).0 ≡ ok t
    → c.epoch_count < t.epoch
unfolding propose
epoch-propose fresh zone_id actor_ids participants c t h = ground arith

epoch_count-after :
    (x : TravelCall) (c : TravelCoordinator) → c.epoch_count ≤ (after x c).epoch_count
unfolding after propose mark_ready begin_zone_wait mark_zone_ready abort remove_participant
epoch_count-after (call_propose fresh zone_id actor_ids participants) c = ground arith
epoch_count-after _ c = ground arith

-- No call lowers the epoch counter, and a transaction that `propose` starts has an epoch above all
-- that were used before it.
pub epoch_grows :
    (x : TravelCall) (c : TravelCoordinator)
    → (c.epoch_count ≤ (after x c).epoch_count)
      × ((fresh zone_id : String) (actor_ids participants : List String) (t : TravelTxn)
          → (propose fresh zone_id actor_ids participants c).0 ≡ ok t
          → c.epoch_count < t.epoch)
epoch_grows x c = (
  epoch_count-after x c,
  λ fresh zone_id actor_ids participants t h.
      epoch-propose fresh zone_id actor_ids participants c t h,
)

-- While a transaction is under way, `propose` raises and changes nothing.
pub propose-active :
    (fresh zone_id : String) (actor_ids participants : List String) (c : TravelCoordinator)
    → active c ≡ true
    → propose fresh zone_id actor_ids participants c
      ≡ (raise (runtime_error "travel already in progress"), c)
unfolding propose
propose-active fresh zone_id actor_ids participants c h = rw h
