-- ===== src/Runtime/Client/InOrder.antt =====
-- The order of view updates in ClientRuntime (kermp/runtime.py): what each handler keeps.
use ker_mp.Prelude.{
  Bool-cases, List, String, [], ap, arith, false, inl, inr, leb, length, length-append, map, refl,
  sym, text_eq, true, ◌++◌, ◌∙◌, ◌∷◌, ◌≡◌, ◌≤◌, if_holds,
}
use ker_mp.Prelude.Int.{lt_ℤ, pos, ℤ}
use ker_mp.Prelude.Rising.{Le_of_lt, Le_refl, Rising, Rising-Le, Rising-snoc, Rising-up}
use ker_mp.Prelude.Errors.{Result, ok, raise}
use ker_mp.Value.{Payload}
use ker_mp.SaveSync.{Bytes}
use ker_mp.Net.{Body}
use ker_mp.Runtime.Client.State.{
  ClientRuntime, Went, max_buffered_view_updates, sidecar_error, tell_game, went,
}
use ker_mp.Runtime.Client.Views.{apply_game_message, keep_view, sequence_of, take_view}
use ker_mp.Runtime.Client.Shown.{AppliedAll, applied_one, quiet, shown, sort_views-Rising}

abbrev pub kept_numbers : ClientRuntime → List ℤ
kept_numbers c = map sequence_of c.buffered_view_updates

-- The updates that are shown and those that are kept rise up to the last number taken, there are few,
-- and none is kept while updates are shown at once.
pub record InOrder (c : ClientRuntime) : Type 0 where
  pub mid : ℤ
  pub shown_up : Rising (pos 0) (shown c) mid
  pub kept_up : Rising mid (kept_numbers c) c.last_game_sequence
  pub few : length c.buffered_view_updates ≤ max_buffered_view_updates
  pub direct : c.buffer_view_updates ≡ false → c.buffered_view_updates ≡ []

-- What is left of it after an exception.
pub record Showable (c : ClientRuntime) : Type 0 where
  pub up : Rising (pos 0) (shown c) c.last_game_sequence
  pub few : length c.buffered_view_updates ≤ max_buffered_view_updates

abbrev pub Sound : Went → Type 0
Sound (raise e, c) = Showable c
Sound (ok _, c) = InOrder c

pub InOrder-Showable : {c : ClientRuntime} → InOrder c → Showable c
InOrder-Showable {c} v = record {
  up =
      Rising-up (pos 0) v.mid c.last_game_sequence (shown c) v.shown_up
        (Rising-Le v.mid c.last_game_sequence (kept_numbers c) v.kept_up);
  few = v.few;
}

-- Nothing that the order is about has changed.
pub same_order :
    (a b : ClientRuntime)
    → shown b ≡ shown a
    → b.buffered_view_updates ≡ a.buffered_view_updates
    → b.last_game_sequence ≡ a.last_game_sequence
    → b.buffer_view_updates ≡ a.buffer_view_updates
    → InOrder a
    → InOrder b
same_order a b s k l f v = record {
  mid = v.mid;
  shown_up = rw s v.shown_up;
  kept_up = rw (k, l) v.kept_up;
  few = rw k v.few;
  direct = λ h. k ∙ v.direct (sym f ∙ h);
}

-- What was kept is forgotten.
pub emptied_order :
    (a b : ClientRuntime)
    → shown b ≡ shown a
    → b.buffered_view_updates ≡ []
    → b.last_game_sequence ≡ a.last_game_sequence
    → InOrder a
    → InOrder b
emptied_order a b s k l v = record {
  mid = a.last_game_sequence;
  shown_up = rw s (InOrder-Showable v).up;
  kept_up = rw (k, l) (Le_refl a.last_game_sequence);
  few = rw k (omega arith);
  direct = λ h. k;
}

-- A note of another kind to the game.
pub tell_game-InOrder :
    (type : String) (body : Body) (c : ClientRuntime)
    → text_eq type "game.raw_message" ≡ false
    → InOrder c
    → InOrder (tell_game type body c)
unfolding tell_game
tell_game-InOrder type body c other v =
    same_order c _ (quiet type body c.bridge other) refl refl refl v

pub sidecar_error-InOrder :
    (reason : String) (c : ClientRuntime) → InOrder c → InOrder (sidecar_error reason c)
unfolding sidecar_error
sidecar_error-InOrder reason c v = tell_game-InOrder "sidecar.error" _ c refl v

-- A number above the last one is taken.
pub numbered_order :
    (sequence : ℤ) (c : ClientRuntime)
    → lt_ℤ c.last_game_sequence sequence ≡ true
    → InOrder c
    → InOrder (record c { last_game_sequence = sequence })
numbered_order sequence c h v = record {
  mid = v.mid;
  shown_up = v.shown_up;
  kept_up =
      Rising-up v.mid c.last_game_sequence sequence (kept_numbers c) v.kept_up
        (Le_of_lt c.last_game_sequence sequence h);
  few = v.few;
  direct = v.direct;
}

map-snoc :
    (f : Payload → ℤ) (xs : List Payload) (d : Payload)
    → map f (xs ++ d ∷ []) ≡ map f xs ++ f d ∷ []
map-snoc f [] d = refl
map-snoc f (x ∷ xs) d = ap (λ t. f x ∷ t) (map-snoc f xs d)

-- An update with the number just taken is kept.
keep_view-InOrder :
    (d : Payload) (c : ClientRuntime) (last : ℤ)
    → lt_ℤ last (sequence_of d) ≡ true
    → c.last_game_sequence ≡ sequence_of d
    → c.buffer_view_updates ≡ true
    → InOrder (record c { last_game_sequence = last })
    → InOrder c
    → InOrder (keep_view d c)
unfolding keep_view
keep_view-InOrder d c last h taken buffering before v =
    elim (Bool-cases (leb max_buffered_view_updates (length c.buffered_view_updates))) [
      | inl full ↦ rw full (sidecar_error-InOrder "view_update_buffer_full" c v)
      | inr room ↦
          let up : Rising before.mid (map sequence_of (c.buffered_view_updates ++ d ∷ []))
              (sequence_of d) =
            rw (map-snoc sequence_of c.buffered_view_updates d)
              (Rising-snoc before.mid last (sequence_of d) (kept_numbers c) before.kept_up h) in
          let sorted =
            sort_views-Rising before.mid (sequence_of d) (c.buffered_view_updates ++ d ∷ []) up in
          rw room (record {
            mid = before.mid;
            shown_up = before.shown_up;
            kept_up = rw (sorted, taken) up;
            few = rw sorted (ground (arith, length-append c.buffered_view_updates (d ∷ []), room));
            direct = λ off. ground (arith, buffering, off);
          })
    ]

module _ (decode : String → Result Bytes) where
  -- An update is shown at once, while none is kept.
  applied-Sound :
      (d : Payload) (x : Went) (c : ClientRuntime)
      → AppliedAll (sequence_of d) c x.1
      → c.last_game_sequence ≡ sequence_of d
      → c.buffered_view_updates ≡ []
      → Sound x
  applied-Sound d (raise e, b) c a taken none_kept = record {
    up = rw (a.last, taken) a.rising;
    few = rw (a.kept, none_kept) (omega arith);
  }
  applied-Sound d (ok u, b) c a taken none_kept = record {
    mid = sequence_of d;
    shown_up = a.rising;
    kept_up = rw (a.kept, none_kept, a.last, taken) (Le_refl (sequence_of d));
    few = rw (a.kept, none_kept) (omega arith);
    direct = λ h. a.kept ∙ none_kept;
  }

  pub take_view-Sound :
      (sequence : ℤ) (d : Payload) (c : ClientRuntime)
      → lt_ℤ c.last_game_sequence sequence ≡ true
      → sequence_of d ≡ sequence
      → InOrder c
      → Sound (take_view decode sequence d c)
  unfolding take_view
  take_view-Sound sequence d c h number v =
      let c1 : ClientRuntime = record c { last_game_sequence = sequence } in
      let v1 = numbered_order sequence c h v in
      let above : lt_ℤ c.last_game_sequence (sequence_of d) ≡ true = rw number h in
      if_holds Sound c.buffer_view_updates (went (keep_view d c1)) (apply_game_message decode d c1)
        (λ on. keep_view-InOrder d c1 c.last_game_sequence above (sym number) on v v1)
        (λ off.
          applied-Sound d (apply_game_message decode d c1) c1
            (applied_one decode c.last_game_sequence d c1 (InOrder-Showable v).up above)
            (sym number) (v.direct off))
