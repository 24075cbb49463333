-- ===== src/GameMod/Echo.antt =====
-- What one call of `apply_remote` does (sims_mod_src/kermp_mod/build_adapter.py).
use ker_mp.Prelude.{
  Bool, List, Option, String, [], ap, arith, eq_refl, false, if_holds, length, none, refl, some,
  subst, sym, true, ◌++◌, ◌+◌, ◌∙◌, ◌∷◌, ◌≡◌,
}
use ker_mp.Prelude.Sets.{contains}
use ker_mp.Prelude.Errors.{PyError, Result, ok, raise}
use ker_mp.Value.{Payload}
use ker_mp.GameMod.Adapter.{
  Applier, Operation, SimsBuildAdapter, count_operation, normalize_operation,
}
use ker_mp.GameMod.Applying.{
  after_apply, apply_normalized, apply_operation, apply_remote, capture_local, captures, key_of,
  run_apply,
}
use ker_mp.GameMod.Once.{AdapterCall, after_all, after_all-IsStep, run_apply-seen}

-- Captures while an operation is applied are counted and nothing else.
captures_muted :
    (ps : List Payload) (a : SimsBuildAdapter)
    → captures ps (record a { applying_remote = true }) ≡ record a {
      applying_remote = true;
      suppressed_remote_echo = a.suppressed_remote_echo + length ps;
    }
unfolding captures capture_local
captures_muted [] a =
    ap (λ n. record a { applying_remote = true; suppressed_remote_echo = n }) (ground arith)
captures_muted (p ∷ ps) a =
    captures_muted ps (record a { suppressed_remote_echo = a.suppressed_remote_echo + 1 })
    ∙ ap (λ n. record a { applying_remote = true; suppressed_remote_echo = n }) (ground arith)

-- What `apply_remote` answers when the game has been called.
abbrev pub answer : Option PyError → Result Bool
answer none = ok true
answer (some e) = raise e

-- The adapter after the game has been called for the first time with an operation.
pub record Called (key : String) (o : Operation) (f : Applier) (a : SimsBuildAdapter)
    (x : Result Bool × SimsBuildAdapter) : Type 0 where
  pub answered : x.0 ≡ answer (f o).1
  pub applied_it : x.1.applied ≡ a.applied ++ o ∷ []
  pub marked : x.1.seen ≡ key ∷ a.seen
  pub echoes : x.1.suppressed_remote_echo ≡ a.suppressed_remote_echo + length (f o).0
  pub none_captured : x.1.captured_total ≡ a.captured_total
  pub none_remembered : x.1.last_local_operation ≡ a.last_local_operation
  pub sequence_kept : x.1.capture_sequence ≡ a.capture_sequence
  pub listening : x.1.applying_remote ≡ false

after_apply-Called :
    (key : String) (o : Operation) (f : Applier) (a : SimsBuildAdapter) (e : Option PyError)
    → (f o).1 ≡ e
    → Called key o f a (
        after_apply o e (record a {
          applying_remote = true;
          suppressed_remote_echo = a.suppressed_remote_echo + length (f o).0;
          seen = key ∷ a.seen;
          last_remote_operation = some o;
          applied = a.applied ++ o ∷ [];
        }))
unfolding after_apply count_operation
after_apply-Called key o f a none h = record {
  answered = ap answer (sym h);
  applied_it = refl;
  marked = refl;
  echoes = refl;
  none_captured = refl;
  none_remembered = refl;
  sequence_kept = refl;
  listening = refl;
}
after_apply-Called key o f a (some e) h = record {
  answered = ap answer (sym h);
  applied_it = refl;
  marked = refl;
  echoes = refl;
  none_captured = refl;
  none_remembered = refl;
  sequence_kept = refl;
  listening = refl;
}

run_apply-Called :
    (key : String) (o : Operation) (f : Applier) (a : SimsBuildAdapter)
    → Called key o f a
        (run_apply o (some f) (record a { seen = key ∷ a.seen; last_remote_operation = some o }))
unfolding run_apply
run_apply-Called key o f a =
    let b = record a {
      seen = key ∷ a.seen;
      last_remote_operation = some o;
      applied = a.applied ++ o ∷ [];
    } in
    subst (λ c. Called key o f a (after_apply o (f o).1 c)) (sym (captures_muted (f o).0 b))
      (after_apply-Called key o f a (f o).1 refl)

module _ (dumps : Operation → String) where
  -- An operation that is new to an adapter with a callable is applied to the game once, and
  -- `apply_remote` answers as the call ends: True, or its exception. What the game captures meanwhile
  -- is counted as an echo and not reported, and afterwards captures are let through again.
  pub new_operation_applied :
      (p : Payload) (o : Operation) (f : Applier) (a : SimsBuildAdapter)
      → normalize_operation p ≡ ok o
      → contains (key_of dumps o) a.seen ≡ false
      → a.apply ≡ some f
      → Called (key_of dumps o) o f a (apply_remote dumps p a)
  unfolding apply_remote apply_operation apply_normalized
  new_operation_applied p o f a good new has =
      let key = key_of dumps o in
      let noted = record a { seen = key ∷ a.seen; last_remote_operation = some o } in
      let called : apply_operation dumps o a ≡ run_apply o a.apply noted = rw new refl in
      subst (Called key o f a)
        (sym
          (ap (λ x. apply_normalized dumps x a) good ∙ called ∙ ap (λ g. run_apply o g noted) has))
        (run_apply-Called key o f a)

  seen_skipped :
      (o : Operation) (a : SimsBuildAdapter)
      → contains (key_of dumps o) a.seen ≡ true
      → apply_operation dumps o a ≡ (ok false, a)
  unfolding apply_operation
  seen_skipped o a h = rw h refl

  run_apply-marks :
      (o : Operation) (a : SimsBuildAdapter)
      → contains (key_of dumps o) (apply_operation dumps o a).1.seen ≡ true
  unfolding apply_operation contains
  run_apply-marks o a =
      if_holds (λ (x : Result Bool × SimsBuildAdapter). contains (key_of dumps o) x.1.seen ≡ true)
        (contains (key_of dumps o) a.seen) _ _ (λ h. h)
        (λ h. rw (run_apply-seen o a.apply _) (ground (arith, eq_refl (key_of dumps o))))

  -- An operation is tried once only: also where the call of the game raised, where no callable was set,
  -- or where an earlier session used its number, `apply_remote` of an operation with the same key
  -- answers False and changes nothing, whatever has happened in between.
  pub never_tried_again :
      (p q : Payload) (o u : Operation) (xs : List AdapterCall) (a : SimsBuildAdapter)
      → normalize_operation p ≡ ok o
      → normalize_operation q ≡ ok u
      → key_of dumps u ≡ key_of dumps o
      → let b = after_all dumps xs (apply_remote dumps p a).1 in
        apply_remote dumps q b ≡ (ok false, b)
  unfolding apply_remote apply_normalized
  never_tried_again p q o u xs a good again same =
      let first = (apply_remote dumps p a).1 in
      let b = after_all dumps xs first in
      let marked : contains (key_of dumps o) first.seen ≡ true =
        subst (λ x. contains (key_of dumps o) (apply_normalized dumps x a).1.seen ≡ true) (sym good)
          (run_apply-marks o a) in
      let kept = (after_all-IsStep dumps xs first).grows (key_of dumps o) marked in
      ap (λ x. apply_normalized dumps x b) again
      ∙ seen_skipped u b (subst (λ k. contains k b.seen ≡ true) (sym same) kept)
