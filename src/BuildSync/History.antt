-- ===== src/BuildSync/History.antt =====
-- The numbering and the window of the build operations of kermp/buildsync.py.
use ker_mp.Prelude.{
  Bool-cases, List, Option, String, [], arith, drop, if◌then◌else◌, inl, inr, length, length-drop,
  suc, zero, ℕ, ◌++◌, ◌+◌, ◌-◌, ◌==◌, ◌∙◌, ◌∷◌, ◌≡◌, ◌≤◌, length-append, ap, ltb, refl, select, ◌⊎◌,
  sym, true,
}
use ker_mp.Value.{Payload}
use ker_mp.BuildSync.Authority.{
  BuildAuthority, BuildLock, BuildOperation, release_lock, request_lock, submit, trimmed,
  record_operation, history_since, live_lock, new_authority, owned_by,
}
use Prim.Native.Nat.{min}
use ker_mp.Prelude.Errors.{Result, ok, raise}
use ker_mp.BuildSync.Validate.{validate_build_data}

-- The operations carry the numbers from `first` on, without a gap.
abbrev pub Runs : ℕ → List BuildOperation → Type 0
Runs first [] = Unit {0}
Runs first (o ∷ os) = (o.seq ≡ first) × Runs (suc first) os

pub Runs-append :
    (first : ℕ) (os : List BuildOperation) (o : BuildOperation)
    → Runs first os
    → o.seq ≡ first + length os
    → Runs first (os ++ o ∷ [])
Runs-append first [] o r h = (omega arith, tt)
Runs-append first (x ∷ os) o r h = (r.0, Runs-append (suc first) os o r.1 (omega arith))

pub Runs-drop :
    (n first : ℕ) (os : List BuildOperation)
    → Runs first os
    → n ≤ length os
    → Runs (first + n) (drop n os)
Runs-drop zero first os r h = let e : first + 0 ≡ first = omega arith in rw e r
Runs-drop (suc n) first [] r h = absurd (omega arith)
Runs-drop (suc n) first (o ∷ os) r h =
    let e : first + suc n ≡ suc first + n = omega arith in
    rw e (Runs-drop n (suc first) os r.1 (omega arith))

-- The history holds the newest operations, in order and without a gap: all of them while they are no
-- more than the limit (or if the limit is 0), and else as many as the limit says.
pub record IsWindow (limit : ℕ) (a : BuildAuthority) : Type 0 where
  pub kept_limit : a.history_limit ≡ limit
  pub window : length a.history ≡ (if limit == 0 then a.seq else min limit a.seq)
  pub run : Runs (a.seq + 1 - length a.history) a.history

pub data BuildCall : Type 0 where
  call_request : ℕ → String → String → BuildCall
  call_release : String → BuildCall
  call_submit : ℕ → String → String → Payload → BuildCall

unfoldable pub after : BuildCall → BuildAuthority → BuildAuthority
after (call_request now stamp p) a = (request_lock now stamp p a).1
after (call_release p) a = (release_lock p a).1
after (call_submit now p op args) a = (submit now p op args a).1

unfoldable pub after_all : List BuildCall → BuildAuthority → BuildAuthority
after_all [] a = a
after_all (x ∷ xs) a = after_all xs (after x a)

same-IsWindow :
    (limit : ℕ) (a b : BuildAuthority)
    → b.history_limit ≡ a.history_limit
    → b.seq ≡ a.seq
    → b.history ≡ a.history
    → IsWindow limit a
    → IsWindow limit b
same-IsWindow limit a b l s h v = record {
  kept_limit = l ∙ v.kept_limit;
  window = rw (h, s) v.window;
  run = rw (h, s) v.run;
}

length-trimmed :
    (limit : ℕ) (os : List BuildOperation)
    → length (trimmed limit os) ≡ (if limit == 0 then length os else min limit (length os))
unfolding trimmed
length-trimmed limit os = ground (arith, length-drop (length os - limit) os)

Runs-trimmed :
    (limit first : ℕ) (os : List BuildOperation)
    → Runs first os
    → Runs (first + length os - length (trimmed limit os)) (trimmed limit os)
unfolding trimmed
Runs-trimmed limit first os r = elim (Bool-cases (limit == 0)) [
  | inl none_set ↦
      rw none_set (let e : first + length os - length os ≡ first = omega arith in rw e r)
  | inr limited ↦ rw limited (
      let n = length os - limit in
      let e : first + length os - length (drop n os) ≡ first + n =
        omega (arith, length-drop n os) in
      rw e (Runs-drop n first os r (omega arith)))
]

record_operation-IsWindow :
    (now : ℕ) (p op : String) (args : Payload) (lock : Option BuildLock) (limit : ℕ)
    (a : BuildAuthority)
    → IsWindow limit a
    → IsWindow limit (record_operation now p op args lock a).1
unfolding record_operation
record_operation-IsWindow now p op args lock limit a v =
    let (o, b) = record_operation now p op args lock a in
    let first = a.seq + 1 - length a.history in
    let os = a.history ++ o ∷ [] in
    let fits : length a.history ≤ a.seq = ground (arith, v.window) in
    let longer : length os ≡ length a.history + 1 =
      omega (arith, length-append a.history (o ∷ [])) in
    let kept : length (trimmed a.history_limit os)
        ≡ (if limit == 0 then length os else min limit (length os)) =
      rw (← v.kept_limit) (length-trimmed a.history_limit os) in
    let r =
      Runs-trimmed a.history_limit first os (Runs-append first a.history o v.run (omega arith)) in
    let e : first + length os ≡ a.seq + 1 + 1 = omega arith in
    record {
      kept_limit = v.kept_limit;
      window = ground (arith, v.window, kept, longer);
      run = rw e at r;
    }

submit_cases :
    (now : ℕ) (p op : String) (args : Payload) (a : BuildAuthority)
    → ((submit now p op args a).1 ≡ record a { lock = live_lock now a })
      ⊎ ((checked : Payload) × ((submit now p op args a).1
            ≡ (record_operation now p op checked (live_lock now a) a).1))
unfolding submit
submit_cases now p op args a = elim (Bool-cases (owned_by p (live_lock now a))) [
  | inr other ↦ inl (ground (arith, other))
  | inl held ↦ split held (validate_build_data op args) refl
]
  where
    split :
        owned_by p (live_lock now a) ≡ true
        → (r : Result Payload) → validate_build_data op args ≡ r
        → ((submit now p op args a).1 ≡ record a { lock = live_lock now a })
          ⊎ ((checked : Payload) × ((submit now p op args a).1
                ≡ (record_operation now p op checked (live_lock now a) a).1))
    split held (raise e) h = inl (ground (arith, held, h))
    split held (ok checked) h = inr (checked, ground (arith, held, h))

after-IsWindow :
    (limit : ℕ) (x : BuildCall) (a : BuildAuthority) → IsWindow limit a → IsWindow limit (after x a)
unfolding after
after-IsWindow limit (call_request now stamp p) a v =
    unfold request_lock in same-IsWindow limit a _ (ground arith) (ground arith) (ground arith) v
after-IsWindow limit (call_release p) a v =
    unfold release_lock in same-IsWindow limit a _ (ground arith) (ground arith) (ground arith) v
after-IsWindow limit (call_submit now p op args) a v = elim (submit_cases now p op args a) [
  | inl e ↦ rw e (same-IsWindow limit a _ refl refl refl v)
  | inr (checked, e) ↦ rw e (record_operation-IsWindow now p op checked (live_lock now a) limit a v)
]

-- If the history is the window of the newest operations, it still is after any calls.
pub after_all-IsWindow :
    (limit : ℕ) (xs : List BuildCall) (a : BuildAuthority)
    → IsWindow limit a
    → IsWindow limit (after_all xs a)
unfolding after_all
after_all-IsWindow limit [] a v = v
after_all-IsWindow limit (x ∷ xs) a v =
    after_all-IsWindow limit xs (after x a) (after-IsWindow limit x a v)

pub new_authority-IsWindow : (lease limit : ℕ) → IsWindow limit (new_authority lease limit)
unfolding new_authority
new_authority-IsWindow lease limit = record { kept_limit = refl; window = ground arith; run = tt }

drop_nil : (n : ℕ) → ◌≡◌ {A = List BuildOperation} (drop n []) []
drop_nil zero = refl
drop_nil (suc n) = refl

select_above :
    (s first : ℕ) (os : List BuildOperation)
    → Runs first os
    → select (λ o. ltb s o.seq) os ≡ drop (s + 1 - first) os
select_above s first [] r = sym (drop_nil (s + 1 - first))
select_above s first (o ∷ os) r = elim (Bool-cases (ltb s o.seq)) [
  | inl above ↦
      let n : s + 1 - first ≡ 0 = ground (arith, above, r.0) in
      let n' : s + 1 - suc first ≡ 0 = omega arith in
      let rest : select (λ u. ltb s u.seq) os ≡ os = rw n' at (select_above s (suc first) os r.1) in
      rw (n, above) (ap (λ t. o ∷ t) rest)
  | inr below ↦
      let n : s + 1 - first ≡ suc (s + 1 - suc first) = ground (arith, below, r.0) in
      rw (n, below) (select_above s (suc first) os r.1)
]

-- After any calls, a player who has seen the operations up to `seen` gets exactly the ones behind it,
-- numbered without a gap up to the newest, provided that no more than the limit have been missed.
pub history_since_exact :
    (lease limit seen : ℕ) (xs : List BuildCall)
    → seen ≤ (after_all xs (new_authority lease limit)).seq
    → (after_all xs (new_authority lease limit)).seq ≤ seen + limit
    → Runs (seen + 1) (history_since seen (after_all xs (new_authority lease limit)))
      × (seen + length (history_since seen (after_all xs (new_authority lease limit)))
          ≡ (after_all xs (new_authority lease limit)).seq)
unfolding history_since
history_since_exact lease limit seen xs low high =
    let a = after_all xs (new_authority lease limit) in
    let v =
      after_all-IsWindow limit xs (new_authority lease limit)
        (new_authority-IsWindow lease limit) in
    let first = a.seq + 1 - length a.history in
    let cut = select_above seen first a.history v.run in
    let skipped : seen + 1 - first ≤ length a.history = ground (arith, v.window) in
    let start : first + (seen + 1 - first) ≡ seen + 1 = ground (arith, v.window) in
    let r : Runs (seen + 1) (drop (seen + 1 - first) a.history) =
      rw start at (Runs-drop (seen + 1 - first) first a.history v.run skipped) in
    rw cut (r, ground (arith, v.window, length-drop (seen + 1 - first) a.history))
