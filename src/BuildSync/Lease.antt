-- ===== src/BuildSync/Lease.antt =====
-- The lease of kermp/buildsync.py: one player builds at a time.
use ker_mp.Prelude.{
  String, [], arith, eq_iff, eq_refl, false, true, ℕ, ◌++◌, ◌+◌, ◌∷◌, ◌≡◌, ◌≢◌, ◌≤◌, Option, none,
  refl, some,
}
use ker_mp.Prelude.Errors.{PyError, ok, raise}
use ker_mp.Value.{Payload}
use ker_mp.BuildSync.Validate.{validate_build_data}
use ker_mp.BuildSync.Authority.{
  BuildAuthority, BuildLock, BuildOperation, live_lock, owned_by, request_lock, submit, trimmed,
  free_for, record_operation,
}

-- The player holds the lease at this time.
abbrev pub Holds : ℕ → String → BuildAuthority → Type 0
Holds now p a = owned_by p (live_lock now a) ≡ true

owned_free : (p : String) (l : Option BuildLock) → owned_by p l ≡ true → free_for p l ≡ true
owned_free p none h = refl
owned_free p (some l) h = h

not_free :
    (p q : String) (l : Option BuildLock) → owned_by q l ≡ true → q ≢ p → free_for p l ≡ false
not_free p q none h other = cc
not_free p q (some l) h other = ground (arith, eq_iff l.owner_id p, eq_iff l.owner_id q)

-- A lease that nobody else holds is free for the player.
only_holder :
    (p : String) (l : Option BuildLock)
    → ((r : String) → owned_by r l ≡ true → r ≡ p)
    → free_for p l ≡ true
only_holder p none only = refl
only_holder p (some l) only =
    ground (arith, only l.owner_id (eq_refl l.owner_id), eq_iff l.owner_id p)

-- A request is granted exactly if nobody else holds the lease: it is where everybody who holds it is the
-- player, and it is not where another does. Then the player holds it through the lease time; a request
-- that is refused takes the lease from nobody.
pub request_lock_exact :
    (now later : ℕ) (stamp p q : String) (a : BuildAuthority)
    → ((request_lock now stamp p a).0 ≡ true
        → later ≤ now + a.lease_seconds
        → Holds later p (request_lock now stamp p a).1)
      × ((request_lock now stamp p a).0 ≡ false
          → (live_lock now (request_lock now stamp p a).1 ≡ live_lock now a) × ¬ Holds now p a)
      × (Holds now q a → q ≢ p → (request_lock now stamp p a).0 ≡ false)
      × (((r : String) → Holds now r a → r ≡ p) → (request_lock now stamp p a).0 ≡ true)
request_lock_exact now later stamp p q a = (
  λ granted short. unfold request_lock live_lock in ground (arith, eq_refl p),
  λ refused. (
    unfold request_lock live_lock in ground arith,
    λ h. unfold request_lock in ground (arith, owned_free p (live_lock now a)),
  ),
  λ h other. unfold request_lock in ground (arith, not_free p q (live_lock now a) h other),
  λ only. unfold request_lock in ground (arith, only_holder p (live_lock now a) only),
)

-- Only the holder submits. An operation that is accepted was valid, gets the next number, renews the
-- lease of the holder, whose time starts again now, and is the newest of the history; a refused one leaves the numbers, the history
-- and the lease of the holder as they were.
pub submit_exact :
    (now : ℕ) (p op : String) (args : Payload) (a : BuildAuthority)
    → ((o : BuildOperation)
        → (submit now p op args a).0 ≡ ok o
        → Holds now p a
          × (validate_build_data op args ≡ ok o.args)
          × (o.player_id ≡ p)
          × (o.op ≡ op)
          × (o.seq ≡ a.seq + 1)
          × ((submit now p op args a).1.seq ≡ o.seq)
          × ((submit now p op args a).1.history ≡ trimmed a.history_limit (a.history ++ o ∷ []))
          × ((l : BuildLock)
              → live_lock now a ≡ some l
              → (submit now p op args a).1.lock ≡ some (record l { acquired_at = now })))
      × ((e : PyError)
          → (submit now p op args a).0 ≡ raise e
          → ((submit now p op args a).1.seq ≡ a.seq)
            × ((submit now p op args a).1.history ≡ a.history)
            × (live_lock now (submit now p op args a).1 ≡ live_lock now a))
unfolding submit record_operation live_lock
submit_exact now p op args a = (λ o h. ground arith, λ e h. ground arith)
