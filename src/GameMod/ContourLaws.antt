-- ===== src/GameMod/ContourLaws.antt =====
-- What `contour_delta` finds (sims_mod_src/kermp_mod/build_adapter.py).
use ker_mp.Prelude.{
  Bool, List, String, [], arith, eq_iff, if◌then◌else◌, not, refl, text_eq, true, ℕ, ◌&&◌, ◌++◌,
  ◌+◌, ◌||◌, ◌∙◌, ◌∷◌, ◌≡◌, ap, eq_refl, false, if_holds, suc, zero, ◌-◌, ◌⊎◌,
}
use ker_mp.Prelude.Dict.{Dict, get-put, has_key, has_key-put, put, get, has_key-get}
use ker_mp.Prelude.Sets.{contains}
use ker_mp.GameMod.Contours.{
  count_into, tally, contour_delta, first_with, keys_in, repeat_item, surplus,
}
use ker_mp.Value.{Value}

-- How often a text is in a list.
unfoldable pub times : String → List String → ℕ
times k [] = 0
times k (x ∷ xs) = let rest = times k xs in if text_eq x k then rest + 1 else rest

times-append : (k : String) (xs ys : List String) → times k (xs ++ ys) ≡ times k xs + times k ys
unfolding times
times-append k [] ys = omega arith
times-append k (x ∷ xs) ys = ground (arith, times-append k xs ys)

tally-count_into :
    (k : String) (d : Dict ℕ) (ks : List String)
    → tally k (count_into d ks) ≡ tally k d + times k ks
unfolding count_into times tally
tally-count_into k d [] = omega arith
tally-count_into k d (x ∷ xs) =
    tally-count_into k (put x (tally x d + 1) d) xs
    ∙ ground (arith, get-put x k (tally x d + 1) d, eq_iff x k)

has_key-count_into :
    (k : String) (d : Dict ℕ) (ks : List String)
    → has_key k (count_into d ks) ≡ (has_key k d || contains k ks)
unfolding count_into contains
has_key-count_into k d [] = ground arith
has_key-count_into k d (x ∷ xs) =
    has_key-count_into k (put x (tally x d + 1) d) xs
    ∙ ground (arith, has_key-put x k (tally x d + 1) d)

-- Each key once.
abbrev unique : Dict ℕ → Bool
unique [] = true
unique ((k, n) ∷ d) = not (has_key k d) && unique d

unique-put : (k : String) (n : ℕ) (d : Dict ℕ) → unique d ≡ true → unique (put k n d) ≡ true
unfolding put has_key
unique-put k n [] u = refl
unique-put k n ((j, m) ∷ d) u =
    ground (arith, u, unique-put k n d, has_key-put k j n d, eq_iff j k, eq_iff k j)

unique-count_into :
    (d : Dict ℕ) (ks : List String) → unique d ≡ true → unique (count_into d ks) ≡ true
unfolding count_into
unique-count_into d [] u = u
unique-count_into d (x ∷ xs) u = unique-count_into (put x (tally x d + 1) d) xs (unique-put x _ d u)

tally-absent : (k : String) (d : Dict ℕ) → has_key k d ≡ false → tally k d ≡ 0
unfolding tally
tally-absent k d h = ground (arith, has_key-get k d, h)

-- Where the key is the one that is asked for, the count, and 0 elsewhere.
abbrev only_at : Bool → ℕ → ℕ
only_at b n = if b then n else 0

module _ (dumps : Value → String) where
  keys-append :
      (xs ys : List Value) → keys_in dumps (xs ++ ys) ≡ keys_in dumps xs ++ keys_in dumps ys
  keys-append [] ys = refl
  keys-append (x ∷ xs) ys = ap (λ ks. dumps x ∷ ks) (keys-append xs ys)

  times-first_with :
      (j k : String) (items : List Value)
      → contains j (keys_in dumps items) ≡ true
      → times k (keys_in dumps (first_with dumps j items)) ≡ only_at (text_eq j k) 1
  unfolding first_with times contains
  times-first_with j k [] h = absurd (ground (arith, h))
  times-first_with j k (item ∷ items) h =
      if_holds (λ x. times k (keys_in dumps x) ≡ only_at (text_eq j k) 1) (text_eq (dumps item) j)
        (item ∷ []) (first_with dumps j items) (λ e. ground (arith, e, eq_iff (dumps item) j))
        (λ e. times-first_with j k items (ground (arith, e, h)))

  times-repeat_item :
      (k : String) (b : Bool) (n : ℕ) (item : List Value)
      → times k (keys_in dumps item) ≡ only_at b 1
      → times k (keys_in dumps (repeat_item n item)) ≡ only_at b n
  unfolding repeat_item times
  times-repeat_item k b zero item h = ground arith
  times-repeat_item k b (suc n) item h =
      ap (λ ks. times k ks) (keys-append item (repeat_item n item))
      ∙ times-append k (keys_in dumps item) (keys_in dumps (repeat_item n item))
      ∙ ground (arith, h, times-repeat_item k b n item h)

  times-surplus :
      (k : String) (items : List Value) (d others : Dict ℕ)
      → unique d ≡ true
      → ((j : String) → has_key j d ≡ true → contains j (keys_in dumps items) ≡ true)
      → times k (keys_in dumps (surplus dumps items d others)) ≡ tally k d - tally k others
  unfolding surplus times tally get has_key
  times-surplus k items [] others u known = ground arith
  times-surplus k items ((j, n) ∷ d) others u known =
      let extra = repeat_item (n - tally j others) (first_with dumps j items) in
      let rest = surplus dumps items d others in
      let here =
        times-repeat_item k (text_eq j k) (n - tally j others) (first_with dumps j items)
          (times-first_with j k items (known j (ground (arith, eq_refl j)))) in
      let later =
        times-surplus k items d others (ground (arith, u)) (λ i h. known i (ground (arith, h))) in
      ap (λ ks. times k ks) (keys-append extra rest)
      ∙ times-append k (keys_in dumps extra) (keys_in dumps rest)
      ∙ ground (arith, here, later, u, tally-absent k d, eq_iff j k)

  counted-surplus :
      (k : String) (items others : List Value)
      → times k (
          keys_in dumps (
            surplus dumps items
              (count_into [] (keys_in dumps items))
              (count_into [] (keys_in dumps others))))
        ≡ times k (keys_in dumps items) - times k (keys_in dumps others)
  unfolding tally get has_key
  counted-surplus k items others =
      let found : (j : String)
          → has_key j (count_into [] (keys_in dumps items)) ≡ true
          → contains j (keys_in dumps items) ≡ true =
        λ j h. ground (arith, has_key-count_into j [] (keys_in dumps items), h) in
      times-surplus k items (count_into [] (keys_in dumps items))
        (count_into [] (keys_in dumps others)) (unique-count_into [] (keys_in dumps items) refl)
        found
      ∙ ground (
        arith,
        tally-count_into k [] (keys_in dumps items),
        tally-count_into k [] (keys_in dumps others),
      )

  -- A contour is added as many times as it comes more often afterwards than before, and removed as
  -- many times as it comes less often: what was before with what was added is what is there afterwards
  -- with what was removed, whatever the order, and no contour is both added and removed.
  pub contour_delta_balances :
      (before later : List Value) (k : String)
      → let delta = contour_delta dumps before later in
        (times k (keys_in dumps before) + times k (keys_in dumps delta.added)
          ≡ times k (keys_in dumps later) + times k (keys_in dumps delta.removed))
        × ((times k (keys_in dumps delta.added) ≡ 0) ⊎ (times k (keys_in dumps delta.removed) ≡ 0))
  unfolding contour_delta
  contour_delta_balances before later k =
      let added = counted-surplus k later before in
      let removed = counted-surplus k before later in
      (ground (arith, added, removed), ground (arith, added, removed))
