-- ===== src/Runtime/Client/Shown.antt =====
-- The view updates that the game gets, and those that are kept (kermp/runtime.py), by their numbers.
use ker_mp.Prelude.{
  List, String, [], ap, append_assoc, if◌then◌else◌, inl, inr, refl, sym, text_eq, ℕ, ◌++◌, ◌∙◌,
  ◌∷◌, ◌≡◌, ◌⊎◌, Bool, append-nil, false, suc, true, zero, length, map, ◌+◌,
}
use ker_mp.Prelude.Int.{ℤ, pos, lt_ℤ}
use ker_mp.Net.{Body, payload_body}
use ker_mp.Runtime.Bridge.{LocalGameBridge, Note, notify, send}
use ker_mp.Runtime.Client.State.{ClientRuntime, tell_game, Went, and_next}
use ker_mp.Runtime.Client.Views.{
  sequence_of, apply_game_message, apply_all, insert_view, sort_views, with_bytes, with_number,
}
use ker_mp.Prelude.Rising.{Le, Rising, Le_of_lt, Rising-Le, Rising-snoc, Rising-up}
use ker_mp.Prelude.Errors.{Result, ok, raise}
use ker_mp.Value.{Payload}
use ker_mp.Protocol.{MessageType}
use ker_mp.Protocol.Names.{type_text}
use ker_mp.SaveSync.{Bytes}

-- The number of a view update among what the game gets.
abbrev pub view_number : Note → List ℤ
view_number n =
    if text_eq n.type "game.raw_message"
    then elim n.body as (λ b. List ℤ) [ payload_body d ↦ sequence_of d ∷ [] | _ ↦ [] ]
    else []

abbrev pub view_numbers : List Note → List ℤ
view_numbers [] = []
view_numbers (n ∷ ns) = view_number n ++ view_numbers ns

pub view_numbers-append :
    (xs ys : List Note) → view_numbers (xs ++ ys) ≡ view_numbers xs ++ view_numbers ys
view_numbers-append [] ys = refl
view_numbers-append (n ∷ ns) ys =
    ap (λ t. view_number n ++ t) (view_numbers-append ns ys)
    ∙ sym (append_assoc (view_number n) (view_numbers ns) (view_numbers ys))

-- The numbers of the updates that the game has got.
abbrev pub shown : ClientRuntime → List ℤ
shown c = view_numbers c.bridge.sent

notify_at :
    (type : String) (body : Body) (sent : List Note) (connected : Bool) (left : ℕ)
    → let b : LocalGameBridge = record { connected = connected; writes_left = left; sent = sent } in
      ((notify type body b).sent ≡ sent)
      ⊎ ((notify type body b).sent ≡ sent ++ record { type = type; body = body } ∷ [])
unfolding notify send
notify_at type body sent false left = inl refl
notify_at type body sent true zero = inl refl
notify_at type body sent true (suc n) = inr refl

-- A note reaches the game, or is lost.
notify_cases :
    (type : String) (body : Body) (b : LocalGameBridge)
    → ((notify type body b).sent ≡ b.sent)
      ⊎ ((notify type body b).sent ≡ b.sent ++ record { type = type; body = body } ∷ [])
notify_cases type body b = notify_at type body b.sent b.connected b.writes_left

-- What a note of another kind does to the view updates: nothing.
pub quiet :
    (type : String) (body : Body) (b : LocalGameBridge)
    → text_eq type "game.raw_message" ≡ false
    → view_numbers (notify type body b).sent ≡ view_numbers b.sent
quiet type body b other = elim (notify_cases type body b) [
  | inl e ↦ ap view_numbers e
  | inr e ↦
      let none_new : view_numbers (record { type = type; body = body } ∷ []) ≡ [] = rw other refl in
      ap view_numbers e
      ∙ view_numbers-append b.sent (record { type = type; body = body } ∷ [])
      ∙ ap (λ t. view_numbers b.sent ++ t) none_new
      ∙ append-nil (view_numbers b.sent)
]

-- From `c` to `c'` the update `d` was shown or lost, and nothing else changed.
pub record Applied (d : Payload) (c c' : ClientRuntime) : Type 0 where
  pub new : (shown c' ≡ shown c) ⊎ (shown c' ≡ shown c ++ sequence_of d ∷ [])
  pub kept : c'.buffered_view_updates ≡ c.buffered_view_updates
  pub last : c'.last_game_sequence ≡ c.last_game_sequence

shown_view :
    (d : Payload) (b : LocalGameBridge)
    → (view_numbers (notify (type_text MessageType.game_raw_message) (payload_body d) b).sent
        ≡ view_numbers b.sent)
      ⊎ (view_numbers (notify (type_text MessageType.game_raw_message) (payload_body d) b).sent
          ≡ view_numbers b.sent ++ sequence_of d ∷ [])
unfolding type_text
shown_view d b = elim (notify_cases "game.raw_message" (payload_body d) b) [
  | inl e ↦ inl (ap view_numbers e)
  | inr e ↦ inr (
      ap view_numbers e
      ∙ view_numbers-append b.sent
          (record { type = "game.raw_message"; body = payload_body d } ∷ []))
]

with_number-Applied :
    (d : Payload) (r : Result ℤ) (c : ClientRuntime) → Applied d c (with_number d r c).1
unfolding with_number tell_game
with_number-Applied d (raise e) c = record { new = inl refl; kept = refl; last = refl }
with_number-Applied d (ok id) c = record { new = shown_view d c.bridge; kept = refl; last = refl }

with_bytes-Applied :
    (d : Payload) (r : Result Bytes) (c : ClientRuntime) → Applied d c (with_bytes d r c).1
unfolding with_bytes
with_bytes-Applied d (raise e) c = record { new = inl refl; kept = refl; last = refl }
with_bytes-Applied d (ok raw) c =
    let a = with_number-Applied d _ (record c { last_view_update_size = length raw }) in
    record { new = a.new; kept = a.kept; last = a.last }

-- Updates were shown in rising order, behind what was shown before, up to `hi`.
pub record AppliedAll (hi : ℤ) (c c' : ClientRuntime) : Type 0 where
  pub rising : Rising (pos 0) (shown c') hi
  pub kept : c'.buffered_view_updates ≡ c.buffered_view_updates
  pub last : c'.last_game_sequence ≡ c.last_game_sequence

module _ (decode : String → Result Bytes) where
  pub apply_game_message-Applied :
      (d : Payload) (c : ClientRuntime) → Applied d c (apply_game_message decode d c).1
  unfolding apply_game_message
  apply_game_message-Applied d c =
      let a =
        with_bytes-Applied d _ (record c { view_updates_received = c.view_updates_received + 1 }) in
      record { new = a.new; kept = a.kept; last = a.last }

  -- One update above what is shown.
  pub applied_one :
      (m : ℤ) (d : Payload) (c : ClientRuntime)
      → Rising (pos 0) (shown c) m
      → lt_ℤ m (sequence_of d) ≡ true
      → AppliedAll (sequence_of d) c (apply_game_message decode d c).1
  applied_one m d c r h =
      let a = apply_game_message-Applied d c in
      record {
        rising = elim a.new [
          | inl e ↦
              rw e (Rising-up (pos 0) m (sequence_of d) (shown c) r (Le_of_lt m (sequence_of d) h))
          | inr e ↦ rw e (Rising-snoc (pos 0) m (sequence_of d) (shown c) r h)
        ];
        kept = a.kept;
        last = a.last;
      }

  applied_next :
      (hi : ℤ) (x : Went) (f : ClientRuntime → Went) (c : ClientRuntime) (m : ℤ)
      → AppliedAll m c x.1
      → Le m hi
      → (AppliedAll m c x.1 → AppliedAll hi x.1 (f x.1).1)
      → AppliedAll hi c (and_next x f).1
  applied_next hi (raise e, b) f c m a h g = record {
    rising = Rising-up (pos 0) m hi (shown b) a.rising h;
    kept = a.kept;
    last = a.last;
  }
  applied_next hi (ok u, b) f c m a h g =
      let a' = g a in
      record { rising = a'.rising; kept = a'.kept ∙ a.kept; last = a'.last ∙ a.last }

  pub apply_all-AppliedAll :
      (ds : List Payload) (m hi : ℤ) (c : ClientRuntime)
      → Rising (pos 0) (shown c) m
      → Rising m (map sequence_of ds) hi
      → AppliedAll hi c (apply_all decode ds c).1
  unfolding apply_all
  apply_all-AppliedAll [] m hi c r s = record {
    rising = Rising-up (pos 0) m hi (shown c) r s;
    kept = refl;
    last = refl;
  }
  apply_all-AppliedAll (d ∷ ds) m hi c r s =
      applied_next hi (apply_game_message decode d c) (apply_all decode ds) c (sequence_of d)
        (applied_one m d c r s.0) (Rising-Le (sequence_of d) hi (map sequence_of ds) s.1)
        (λ a.
          apply_all-AppliedAll ds (sequence_of d) hi (apply_game_message decode d c).1 a.rising s.1)

-- Updates in rising order are sorted.
pub sort_views-Rising :
    (lo hi : ℤ) (ds : List Payload) → Rising lo (map sequence_of ds) hi → sort_views ds ≡ ds
unfolding sort_views insert_view
sort_views-Rising lo hi [] r = refl
sort_views-Rising lo hi (d ∷ []) r = refl
sort_views-Rising lo hi (d ∷ e ∷ es) r =
    let tail = sort_views-Rising (sequence_of d) hi (e ∷ es) r.1 in
    let above = Le_of_lt (sequence_of d) (sequence_of e) r.1.0 in
    ap (insert_view d) tail ∙ rw above refl
