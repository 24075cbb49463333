-- ===== src/GameMod/Once.antt =====
-- An operation is applied to the game once (sims_mod_src/kermp_mod/build_adapter.py).
use ker_mp.Prelude.{
  List, String, [], arith, false, refl, true, ◌∙◌, ◌∷◌, ◌≡◌, Bool, eq_iff, if_holds, not, text_eq,
  ◌&&◌, ◌++◌, ◌||◌, Option, ap, map, none, some, subst, sym,
}
use ker_mp.Value.{Payload}
use ker_mp.GameMod.Adapter.{
  Operation, SimsBuildAdapter, count_operation, normalize_operation, Applier, configure,
  reset_diagnostics, new_adapter,
}
use ker_mp.GameMod.Applying.{
  capture_local, capture_operation, captures, remember, captured, after_apply, apply_remote, key_of,
  replay_last, run_apply, apply_normalized, apply_operation, as_payload, replay,
}
use ker_mp.Prelude.Sets.{contains}
use ker_mp.Prelude.Errors.{Result, ok, raise, PyError}

-- What was applied and which keys were seen.
abbrev pub ledger : SimsBuildAdapter → List Operation × List String
ledger a = (a.applied, a.seen)

capture_operation-ledger :
    (p : Payload) (o : Operation) (a : SimsBuildAdapter)
    → ledger (capture_operation p o a).1 ≡ ledger a
unfolding capture_operation remember count_operation
capture_operation-ledger p o a = ground arith

captured-ledger :
    (p : Payload) (x : Result Operation) (a : SimsBuildAdapter)
    → ledger (captured p x a).1 ≡ ledger a
unfolding captured
captured-ledger p (raise e) a = refl
captured-ledger p (ok o) a = capture_operation-ledger p o a

capture_local-ledger :
    (p : Payload) (a : SimsBuildAdapter) → ledger (capture_local p a).1 ≡ ledger a
unfolding capture_local
capture_local-ledger p a =
    if_holds (λ (x : Option Operation × SimsBuildAdapter). ledger x.1 ≡ ledger a) a.applying_remote
      _ _ (λ h. refl) (λ h. captured-ledger p (normalize_operation p) a)

captures-ledger : (ps : List Payload) (a : SimsBuildAdapter) → ledger (captures ps a) ≡ ledger a
unfolding captures
captures-ledger [] a = refl
captures-ledger (p ∷ ps) a = captures-ledger ps (capture_local p a).1 ∙ capture_local-ledger p a

abbrev pub distinct : List String → Bool
distinct [] = true
distinct (x ∷ xs) = not (contains x xs) && distinct xs

contains-snoc :
    (y x : String) (xs : List String) → contains y (xs ++ x ∷ []) ≡ (contains y xs || text_eq x y)
unfolding contains
contains-snoc y x [] = ground arith
contains-snoc y x (z ∷ xs) = ground (arith, contains-snoc y x xs)

distinct-snoc :
    (xs : List String) (x : String)
    → distinct xs ≡ true
    → contains x xs ≡ false
    → distinct (xs ++ x ∷ []) ≡ true
unfolding contains
distinct-snoc [] x d c = refl
distinct-snoc (z ∷ xs) x d c =
    ground (arith, distinct-snoc xs x, contains-snoc z x xs, eq_iff x z, eq_iff z x)

after_apply-ledger :
    (o : Operation) (e : Option PyError) (a : SimsBuildAdapter)
    → ledger (after_apply o e a).1 ≡ ledger a
unfolding after_apply count_operation
after_apply-ledger o none a = refl
after_apply-ledger o (some e) a = refl

pub run_apply-seen :
    (o : Operation) (f : Option Applier) (a : SimsBuildAdapter) → (run_apply o f a).1.seen ≡ a.seen
unfolding run_apply
run_apply-seen o none a = refl
run_apply-seen o (some f) a =
    ap (λ l. l.1) (after_apply-ledger o (f o).1 _ ∙ captures-ledger (f o).0 _)

-- What may happen to the adapter; the callables come with `configured`.
pub data AdapterCall : Type 0 where
  configured : Bool → Option Applier → AdapterCall
  captured_one remote_came : Payload → AdapterCall
  replayed diagnostics_reset : AdapterCall

module _ (dumps : Operation → String) where
  unfoldable pub after : AdapterCall → SimsBuildAdapter → SimsBuildAdapter
  after (configured c f) a = configure c f a
  after (captured_one p) a = (capture_local p a).1
  after (remote_came p) a = (apply_remote dumps p a).1
  after replayed a = (replay_last dumps a).1
  after diagnostics_reset a = reset_diagnostics a

  unfoldable pub after_all : List AdapterCall → SimsBuildAdapter → SimsBuildAdapter
  unfolding after
  after_all [] a = a
  after_all (x ∷ xs) a = after_all xs (after x a)

  abbrev pub keys_of : List Operation → List String
  keys_of os = map (key_of dumps) os

  -- No key was applied twice, and every key that was applied is known.
  pub record Once (l : List Operation × List String) : Type 0 where
    pub each : distinct (keys_of l.0) ≡ true
    pub known : (k : String) → contains k (keys_of l.0) ≡ true → contains k l.1 ≡ true

  -- The keys that are known stay known.
  abbrev pub Grows : List Operation × List String → List Operation × List String → Type 0
  Grows l m = (k : String) → contains k l.1 ≡ true → contains k m.1 ≡ true

  keys-snoc :
      (os : List Operation) (o : Operation)
      → keys_of (os ++ o ∷ []) ≡ keys_of os ++ key_of dumps o ∷ []
  keys-snoc [] o = refl
  keys-snoc (p ∷ os) o = ap (λ ks. key_of dumps p ∷ ks) (keys-snoc os o)

  -- What `apply_operation` may do to the ledger: nothing, note the key, or note it and apply.
  Once-marked :
      (o : Operation) (l : List Operation × List String) → Once l → Once (l.0, key_of dumps o ∷ l.1)
  unfolding contains
  Once-marked o l v = record { each = v.each; known = λ k h. ground (arith, v.known k h) }

  Once-applied :
      (o : Operation) (l : List Operation × List String)
      → Once l
      → contains (key_of dumps o) l.1 ≡ false
      → Once (l.0 ++ o ∷ [], key_of dumps o ∷ l.1)
  unfolding contains
  Once-applied o l v new =
      let k0 = key_of dumps o in
      let unused : contains k0 (keys_of l.0) ≡ false = ground (arith, v.known k0) in
      record {
        each = rw (keys-snoc l.0 o) (distinct-snoc (keys_of l.0) k0 v.each unused);
        known =
            λ k h. ground (arith, v.known k, contains-snoc k k0 (keys_of l.0), keys-snoc l.0 o, h);
      }

  run_apply-Once :
      (o : Operation) (f : Option Applier) (a : SimsBuildAdapter)
      → Once (ledger a)
      → contains (key_of dumps o) a.seen ≡ false
      → Once (
          ledger
            (run_apply o f
              (record a { seen = key_of dumps o ∷ a.seen; last_remote_operation = some o })).1)
  unfolding run_apply
  run_apply-Once o none a v new = Once-marked o (ledger a) v
  run_apply-Once o (some f) a v new =
      subst Once (sym (after_apply-ledger o (f o).1 _ ∙ captures-ledger (f o).0 _))
        (Once-applied o (ledger a) v new)

  -- A step that keeps the keys that are known and applies none of them again.
  pub record IsStep (a b : SimsBuildAdapter) : Type 0 where
    pub once : Once (ledger a) → Once (ledger b)
    pub grows : Grows (ledger a) (ledger b)

  same_ledger : (a b : SimsBuildAdapter) → ledger b ≡ ledger a → IsStep a b
  same_ledger a b e = record {
    once = λ v. subst Once (sym e) v;
    grows = λ k h. subst (λ l. contains k l.1 ≡ true) (sym e) h;
  }

  apply_operation-IsStep :
      (o : Operation) (a : SimsBuildAdapter) → IsStep a (apply_operation dumps o a).1
  unfolding apply_operation contains
  apply_operation-IsStep o a =
      if_holds (λ (x : Result Bool × SimsBuildAdapter). IsStep a x.1)
        (contains (key_of dumps o) a.seen) _ _ (λ h. same_ledger a a refl)
        (λ h. record {
          once = λ v. run_apply-Once o a.apply a v h;
          grows = λ k seen. rw (run_apply-seen o a.apply _) (ground (arith, seen));
        })

  apply_normalized-IsStep :
      (x : Result Operation) (a : SimsBuildAdapter) → IsStep a (apply_normalized dumps x a).1
  unfolding apply_normalized
  apply_normalized-IsStep (raise e) a = same_ledger a _ refl
  apply_normalized-IsStep (ok o) a = apply_operation-IsStep o a

  apply_remote-IsStep : (p : Payload) (a : SimsBuildAdapter) → IsStep a (apply_remote dumps p a).1
  unfolding apply_remote
  apply_remote-IsStep p a = apply_normalized-IsStep (normalize_operation p) a

  replay-IsStep : (o : Option Operation) (a : SimsBuildAdapter) → IsStep a (replay dumps o a).1
  unfolding replay
  replay-IsStep none a = same_ledger a a refl
  replay-IsStep (some o) a = apply_remote-IsStep (as_payload o) a

  after-IsStep : (x : AdapterCall) (a : SimsBuildAdapter) → IsStep a (after x a)
  unfolding after configure reset_diagnostics replay_last
  after-IsStep (configured c f) a = same_ledger a _ refl
  after-IsStep (captured_one p) a = same_ledger a _ (capture_local-ledger p a)
  after-IsStep (remote_came p) a = apply_remote-IsStep p a
  after-IsStep replayed a = replay-IsStep a.last_local_operation a
  after-IsStep diagnostics_reset a = same_ledger a _ refl

  pub after_all-IsStep : (xs : List AdapterCall) (a : SimsBuildAdapter) → IsStep a (after_all xs a)
  unfolding after_all
  after_all-IsStep [] a = same_ledger a a refl
  after_all-IsStep (x ∷ xs) a =
      let one = after-IsStep x a in
      let rest = after_all-IsStep xs (after x a) in
      record { once = λ v. rest.once (one.once v); grows = λ k h. rest.grows k (one.grows k h) }

  -- Whatever is captured, received and replayed, in any order and with any callables: the operations
  -- that are applied to the game have different keys, so that none is applied twice.
  pub applied_once :
      (xs : List AdapterCall) → distinct (keys_of (after_all xs new_adapter).applied) ≡ true
  unfolding contains
  applied_once xs =
      let start : Once (ledger new_adapter) = record {
        each = refl;
        known = λ k h. ground (arith, h);
      } in
      let end_of = (after_all-IsStep xs new_adapter).once start in end_of.each
