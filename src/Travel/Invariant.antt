-- ===== src/Travel/Invariant.antt =====
-- What holds of the coordinator of kermp/travel.py after any calls of its methods.
use ker_mp.Travel.Calls.{
  TravelCall, after, after_all, call_abort, call_propose, call_ready, call_remove, call_zone_ready,
  call_zone_wait,
}
use ker_mp.Prelude.Errors.{key_error, ok, raise}
use ker_mp.Prelude.{
  Bool-cases, List, Option, String, [], arith, false, inl, inr, some, true, ◌≡◌, Option-cases,
  text_eq, eq_iff, none, subst, ◌∙◌, ◌∷◌, ◌⊎◌, refl, ◌+◌, ap, if◌then◌else◌, not, ◌||◌,
}
use ker_mp.Prelude.Int.{ℤ, eq_ℤ, pos}
use ker_mp.Prelude.Sets.{
  Within, Within-add, contains, set_eq, Within-discard, contains-add, discard, set_eq→Within,
  to_set, subset,
}
use ker_mp.Travel.State.{
  TravelCoordinator, TravelPhase, TravelTxn, accepts_zone, finished, is_committed, new_coordinator,
}
use ker_mp.Travel.Ops.{
  mark_ready_txn, counted, mark_zone_ready_txn, remove_txn, get_txn, on_txn, active,
  begin_zone_wait, is_empty, mark_ready, propose, remove_participant, abort, mark_zone_ready, stale,
}

-- Only participants are counted; a commit waits for all to be ready, completion for all to be in
-- the zone; and while the coordinator waits for players, one of them is still missing.
pub record IsValidTxn (t : TravelTxn) : Type 0 where
  pub ready_known : Within t.ready t.participants
  pub zone_known : Within t.zone_ready t.participants
  pub all_ready : accepts_zone t.phase ≡ true → Within t.participants t.ready
  pub all_zone_ready : t.phase ≡ TravelPhase.complete → Within t.participants t.zone_ready
  pub one_missing : t.phase ≡ TravelPhase.waiting_ready → set_eq t.ready t.participants ≡ false

-- The transaction, if there is one, is valid and has the newest epoch.
pub record IsValid (c : TravelCoordinator) : Type 0 where
  pub txn : (t : TravelTxn) → c.current ≡ some t → IsValidTxn t
  pub newest : (t : TravelTxn) → c.current ≡ some t → t.epoch ≡ c.epoch_count

pub Within-nil : (s : List String) → Within [] s
unfolding contains
Within-nil s x m = ground arith

pub Within-counted :
    (p : String) (known s : List String) → Within s known → Within (counted p known s) known
unfolding counted
Within-counted p known s h = elim (Bool-cases (contains p known)) [
  | inl e ↦ rw e (Within-add p s known h e)
  | inr e ↦ rw e h
]

pub contains-counted :
    (p x : String) (known s : List String)
    → contains x (counted p known s)
      ≡ (if contains p known then text_eq p x || contains x s else contains x s)
unfolding counted
contains-counted p x known s = ground (arith, contains-add p x s)

pub stale_same : (e : Option ℤ) (t u : TravelTxn) → t.epoch ≡ u.epoch → stale e t ≡ stale e u
stale_same none t u h = refl
stale_same (some e) t u h = ap (λ n. not (eq_ℤ e (pos n))) h

contains_cons :
    (p : String) (ps : List String) (x : String)
    → contains x (p ∷ ps) ≡ (text_eq p x || contains x ps)
unfolding contains
contains_cons p ps x = refl

-- Where the players of `ps` are still to report, those behind `p` are left once `p` has.
pub covered_next :
    (p : String) (ps known s : List String)
    → ((x : String) → contains x known ≡ true → (contains x s || contains x (p ∷ ps)) ≡ true)
    → (x : String) → contains x known ≡ true
    → (contains x (counted p known s) || contains x ps) ≡ true
covered_next p ps known s h x m =
    ground (arith, contains-counted p x known s, h x m, eq_iff p x, contains_cons p ps x)

module _ (p : String) (e : Option ℤ) (t : TravelTxn) (v : IsValidTxn t) where
  pub mark_ready_txn-IsValidTxn : IsValidTxn (mark_ready_txn p e t).1
  unfolding mark_ready_txn
  mark_ready_txn-IsValidTxn =
      let ready = counted p t.participants t.ready in
      record {
        ready_known = λ x m.
            ground
              (arith, v.ready_known x, Within-counted p t.participants t.ready v.ready_known x);
        zone_known = λ x m. ground (arith, v.zone_known x);
        all_ready = λ h x m. ground (
          arith,
          λ (k : accepts_zone t.phase ≡ true). v.all_ready k x,
          λ (q : set_eq ready t.participants ≡ true). (set_eq→Within ready t.participants q).1 x,
        );
        all_zone_ready =
            λ h x m. ground (arith, λ (k : t.phase ≡ TravelPhase.complete). v.all_zone_ready k x);
        one_missing = λ h. ground (arith, v.one_missing);
      }

  pub mark_zone_ready_txn-IsValidTxn : IsValidTxn (mark_zone_ready_txn p e t).1
  unfolding mark_zone_ready_txn
  mark_zone_ready_txn-IsValidTxn =
      let zone_ready = counted p t.participants t.zone_ready in
      record {
        ready_known = λ x m. ground (arith, v.ready_known x);
        zone_known = λ x m.
            ground
              (arith, v.zone_known x, Within-counted p t.participants t.zone_ready v.zone_known x);
        all_ready = λ h x m. ground (arith, λ (k : accepts_zone t.phase ≡ true). v.all_ready k x);
        all_zone_ready = λ h x m. ground (
          arith,
          λ (k : t.phase ≡ TravelPhase.complete). v.all_zone_ready k x,
          λ (q : set_eq zone_ready t.participants ≡ true).
              (set_eq→Within zone_ready t.participants q).1 x,
        );
        one_missing = λ h. ground (arith, v.one_missing);
      }

  remove_txn-IsValidTxn : finished t.phase ≡ false → IsValidTxn (remove_txn p t)
  unfolding remove_txn
  remove_txn-IsValidTxn going =
      let participants = discard p t.participants in
      let ready = discard p t.ready in
      let zone_ready = discard p t.zone_ready in
      record {
        ready_known = Within-discard p t.ready t.participants v.ready_known;
        zone_known = Within-discard p t.zone_ready t.participants v.zone_known;
        all_ready = λ h x m. ground (
          arith,
          λ (k : accepts_zone t.phase ≡ true).
              Within-discard p t.participants t.ready (v.all_ready k) x,
          λ (q : set_eq ready participants ≡ true). (set_eq→Within ready participants q).1 x,
        );
        all_zone_ready = λ h x m. ground (
          arith,
          λ (q : set_eq zone_ready participants ≡ true).
              (set_eq→Within zone_ready participants q).1 x,
        );
        one_missing = λ h. ground arith;
      }

  abort-IsValidTxn : IsValidTxn (record t { phase = TravelPhase.aborted })
  abort-IsValidTxn = record {
    ready_known = v.ready_known;
    zone_known = v.zone_known;
    all_ready = λ h. cc;
    all_zone_ready = λ h. cc;
    one_missing = λ h. cc;
  }

  begin_zone_wait-IsValidTxn :
      is_committed t.phase ≡ true → IsValidTxn (record t { phase = TravelPhase.waiting_zone_ready })
  begin_zone_wait-IsValidTxn k = record {
    ready_known = v.ready_known;
    zone_known = v.zone_known;
    all_ready = λ h. v.all_ready (ground arith);
    all_zone_ready = λ h. cc;
    one_missing = λ h. cc;
  }

IsValid-of_txn :
    (c : TravelCoordinator) (t : TravelTxn)
    → IsValidTxn t
    → t.epoch ≡ c.epoch_count
    → IsValid (record c { current = some t })
IsValid-of_txn c t v e = record {
  txn = λ u p. subst IsValidTxn (ground (arith, p)) v;
  newest = λ u p. ground (arith, p);
}

pub get_txn_cases :
    (txn_id : String) (c : TravelCoordinator)
    → (get_txn txn_id c ≡ raise (key_error "unknown travel transaction"))
      ⊎ ((t : TravelTxn) × (c.current ≡ some t) × (t.txn_id ≡ txn_id) × (get_txn txn_id c ≡ ok t))
unfolding get_txn
get_txn_cases txn_id c = elim (Option-cases c.current) [
  | inl e ↦ inl (ground arith)
  | inr (t, e) ↦ elim (Bool-cases (text_eq t.txn_id txn_id)) [
    | inr other ↦ inl (ground arith)
    | inl found ↦ inr (t, e, (eq_iff t.txn_id txn_id).0 found, ground arith)
  ]
]

on_txn-IsValid {ℓ} :
    {A : Type ℓ} (txn_id : String) (f : TravelTxn → A × TravelTxn) (c : TravelCoordinator)
    → ((t : TravelTxn) → IsValidTxn t → IsValidTxn (f t).1)
    → ((t : TravelTxn) → (f t).1.epoch ≡ t.epoch)
    → IsValid c
    → IsValid (on_txn (get_txn txn_id c) f c).1
on_txn-IsValid txn_id f c keep same v = elim (get_txn_cases txn_id c) [
  | inl e ↦ rw e v
  | inr (t, p, _, e) ↦ rw e (IsValid-of_txn c (f t).1 (keep t (v.txn t p)) (same t ∙ v.newest t p))
]

pub set_eq-nil : (s : List String) → is_empty s ≡ false → set_eq [] s ≡ false
unfolding is_empty set_eq subset contains
set_eq-nil [] h = cc
set_eq-nil (x ∷ s) h = refl

epoch-mark_ready_txn :
    (p : String) (e : Option ℤ) (t : TravelTxn) → (mark_ready_txn p e t).1.epoch ≡ t.epoch
unfolding mark_ready_txn
epoch-mark_ready_txn p e t = ground arith

epoch-mark_zone_ready_txn :
    (p : String) (e : Option ℤ) (t : TravelTxn) → (mark_zone_ready_txn p e t).1.epoch ≡ t.epoch
unfolding mark_zone_ready_txn
epoch-mark_zone_ready_txn p e t = ground arith

new_txn-IsValidTxn :
    (t : TravelTxn)
    → t.ready ≡ []
    → t.zone_ready ≡ []
    → t.phase ≡ TravelPhase.waiting_ready
    → set_eq [] t.participants ≡ false
    → IsValidTxn t
unfolding contains
new_txn-IsValidTxn t r z p e = record {
  ready_known = λ x m. ground arith;
  zone_known = λ x m. ground arith;
  all_ready = λ h. ground arith;
  all_zone_ready = λ h. ground arith;
  one_missing = λ h. rw r e;
}

propose-IsValid :
    (fresh zone_id : String) (actor_ids participants : List String) (c : TravelCoordinator)
    → IsValid c
    → IsValid (propose fresh zone_id actor_ids participants c).1
unfolding propose
propose-IsValid fresh zone_id actor_ids participants c v = elim (Bool-cases (active c)) [
  | inl e ↦ rw e v
  | inr e ↦ rw e (elim (Bool-cases (is_empty (to_set participants))) [
    | inl none_given ↦ rw none_given v
    | inr given ↦ rw given (
        IsValid-of_txn (record c { epoch_count = c.epoch_count + 1 }) _
          (new_txn-IsValidTxn _ refl refl refl (set_eq-nil (to_set participants) given)) refl)
  ])
]

begin_zone_wait-IsValid :
    (txn_id : String) (c : TravelCoordinator) → IsValid c → IsValid (begin_zone_wait txn_id c).1
unfolding begin_zone_wait
begin_zone_wait-IsValid txn_id c v = elim (get_txn_cases txn_id c) [
  | inl e ↦ rw (e, begin_zone_wait) v
  | inr (t, p, _, e) ↦
      rw (e, begin_zone_wait)
        (elim (Bool-cases (is_committed t.phase)) [
          | inr early ↦ rw early v
          | inl agreed ↦ rw agreed (
              IsValid-of_txn c (record t { phase = TravelPhase.waiting_zone_ready })
                (begin_zone_wait-IsValidTxn "" none t (v.txn t p) agreed) (v.newest t p))
        ])
]

pub remove_participant_cases :
    (p : String) (c : TravelCoordinator)
    → ((remove_participant p c ≡ (false, c))
        × ((t : TravelTxn) → c.current ≡ some t → finished t.phase ≡ true))
      ⊎ ((t : TravelTxn) × (c.current ≡ some t)
          × (finished t.phase ≡ false)
          × (remove_participant p c ≡ (true, record c { current = some (remove_txn p t) })))
unfolding remove_participant
remove_participant_cases p c = elim (Option-cases c.current) [
  | inl e ↦ inl (ground (arith, e), λ t h. ground (arith, e, h))
  | inr (t, e) ↦ elim (Bool-cases (finished t.phase)) [
    | inl over ↦ inl (ground (arith, e, over), λ u h. ground (arith, e, h, over))
    | inr going ↦ inr (t, e, going, ground arith)
  ]
]

remove_participant-IsValid :
    (p : String) (c : TravelCoordinator) → IsValid c → IsValid (remove_participant p c).1
remove_participant-IsValid p c v = elim (remove_participant_cases p c) [
  | inl (e, _) ↦ rw e v
  | inr (t, h, going, e) ↦ rw e (
      IsValid-of_txn c (remove_txn p t) (remove_txn-IsValidTxn p none t (v.txn t h) going)
        (unfold remove_txn in v.newest t h))
]

after-IsValid : (x : TravelCall) (c : TravelCoordinator) → IsValid c → IsValid (after x c)
unfolding after
after-IsValid (call_propose fresh zone_id actor_ids participants) c v =
    propose-IsValid fresh zone_id actor_ids participants c v
after-IsValid (call_ready p txn_id e) c v =
    unfold mark_ready in
    on_txn-IsValid txn_id (mark_ready_txn p e) c (mark_ready_txn-IsValidTxn p e)
      (epoch-mark_ready_txn p e) v
after-IsValid (call_zone_wait txn_id) c v = begin_zone_wait-IsValid txn_id c v
after-IsValid (call_zone_ready p txn_id e) c v =
    unfold mark_zone_ready in
    on_txn-IsValid txn_id (mark_zone_ready_txn p e) c (mark_zone_ready_txn-IsValidTxn p e)
      (epoch-mark_zone_ready_txn p e) v
after-IsValid (call_abort txn_id) c v =
    unfold abort in on_txn-IsValid txn_id _ c (λ t k. abort-IsValidTxn "" none t k) (λ t. refl) v
after-IsValid (call_remove p) c v = remove_participant-IsValid p c v

-- A valid coordinator is valid after any calls of its methods.
pub after_all-IsValid :
    (xs : List TravelCall) (c : TravelCoordinator) → IsValid c → IsValid (after_all xs c)
unfolding after_all
after_all-IsValid [] c v = v
after_all-IsValid (x ∷ xs) c v = after_all-IsValid xs (after x c) (after-IsValid x c v)

pub new_coordinator-IsValid : IsValid new_coordinator
new_coordinator-IsValid = record { txn = λ t p. cc; newest = λ t p. cc }
