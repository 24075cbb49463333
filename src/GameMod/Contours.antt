-- ===== src/GameMod/Contours.antt =====
-- `contour_delta` of the mod (sims_mod_src/kermp_mod/build_adapter.py), as far as what was added and
-- removed goes: contours are compared by their JSON text. `dumps` is json.dumps of a contour, with
-- sorted keys.
use ker_mp.Prelude.{
  List, String, [], if◌then◌else◌, length, map, none, some, suc, text_eq, zero, ℕ, ◌++◌, ◌+◌, ◌-◌,
  ◌∷◌,
}
use ker_mp.Prelude.Dict.{Dict, get, keys, put}
use ker_mp.Value.{Value}

-- counts.get(key, 0)
unfoldable pub tally : String → Dict ℕ → ℕ
tally key d = elim (get key d) [ none ↦ 0 | some n ↦ n ]

-- for key in keys: counts[key] = counts.get(key, 0) + 1
unfoldable pub count_into : Dict ℕ → List String → Dict ℕ
unfolding tally
count_into counts [] = counts
count_into counts (key ∷ keys) = count_into (put key (tally key counts + 1) counts) keys

unfoldable pub repeat_item : ℕ → List Value → List Value
repeat_item zero item = []
repeat_item (suc n) item = item ++ repeat_item n item

-- `changed` is left out: it compares contours by their ids.
pub record ContourDelta : Type 0 where
  pub before_count : ℕ
  pub after_count : ℕ
  pub added : List Value
  pub removed : List Value

module _ (dumps : Value → String) where
  -- items[keys.index(key)], as a list: there is one for each key that was counted.
  unfoldable pub first_with : String → List Value → List Value
  first_with key [] = []
  first_with key (item ∷ items) =
      if text_eq (dumps item) key then item ∷ [] else first_with key items

  -- for key, count in counts.items(): as many of its first item as it is counted more often
  unfoldable pub surplus : List Value → Dict ℕ → Dict ℕ → List Value
  unfolding repeat_item first_with
  surplus items [] others = []
  surplus items ((key, count) ∷ counts) others =
      repeat_item (count - tally key others) (first_with key items) ++ surplus items counts others

  abbrev pub keys_in : List Value → List String
  keys_in items = map dumps items

  unfoldable pub contour_delta : List Value → List Value → ContourDelta
  unfolding surplus count_into
  contour_delta before later =
      let before_counts = count_into [] (keys_in before) in
      let after_counts = count_into [] (keys_in later) in
      record {
        before_count = length before;
        after_count = length later;
        added = surplus later after_counts before_counts;
        removed = surplus before before_counts after_counts;
      }
