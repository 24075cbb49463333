-- ===== src/GameMod/Silent.antt =====
-- View updates after a travel (sims_mod_src/kermp_mod/hooks.py).
use ker_mp.GameMod.State.{Game, Hooks, max_travel_buffer}
use ker_mp.GameMod.Travels.{
  Hooked, begin_travel_buffer, hold_client, is_client, prepare_at, set_simulation_bypass,
  travel_abort, travel_prepare,
}
use ker_mp.Prelude.{
  if◌then◌else◌, ◌++◌, List, arith, false, if_holds, length, refl, subst, sym, true, ◌≡◌, String,
  [], leb, length-append, ◌∷◌,
}
use ker_mp.Prelude.Errors.{Result, ok, raise}
use ker_mp.Prelude.Int.{negsuc, ℤ, eq_ℤ, pos}
use ker_mp.Value.{Payload, get_value}
use ker_mp.SaveSync.{Bytes}
use ker_mp.Net.{int_at}
use ker_mp.GameMod.Views.{
  HookEvent, aborted, batched, buffer_at, committed, handle, handle_all, prepared, raw_game_message,
  raw_message, receive_raw_game_message, resumed, welcomed, zone_spun_up, sidecar_connects,
  sidecar_leaves,
}
use ker_mp.GameMod.Holding.{
  Holds, after_zone_spin_up-Holds, emit-Holds, begin_travel_buffer-Holds, travel_commit-Holds,
  travel_prepare-Holds, travel_resume-Holds, travel_view_batch-Holds, same_held,
}

module _ (shown : List (ℤ × Bytes)) (decode : String → Result Bytes) where
  buffer_at-Holds :
      (d : Payload) (x : Result ℤ) (s : Hooks)
      → leb max_travel_buffer (length s.travel_buffer) ≡ false
      → Holds shown s
      → Holds shown (buffer_at decode d x s).1
  unfolding buffer_at
  buffer_at-Holds d (raise e) s room v = v
  buffer_at-Holds d (ok epoch) s room v =
      if_holds (Holds shown) (eq_ℤ epoch s.travel_epoch) _ _
        (λ h. record {
          buffering = v.buffering;
          delivered_all = v.delivered_all;
          few = ground (arith, room, length-append s.travel_buffer (d ∷ []));
        })
        (λ h. v)

  receive-Holds :
      (g : Game) (d : Payload) (s : Hooks)
      → Holds shown s
      → Holds shown (receive_raw_game_message decode g d s).1
  unfolding receive_raw_game_message
  receive-Holds g d s v =
      let P : Hooked → Type 0 = λ x. Holds shown x.1 in
      if_holds P s.travel_buffering _ _
        (λ h.
          if_holds P (leb max_travel_buffer (length s.travel_buffer)) _ _ (λ h. v)
            (λ h. buffer_at-Holds d (int_at "epoch" s.travel_epoch d) s h v))
        (λ h. absurd (ground (arith, h, v.buffering)))

  handle-Holds :
      (g : Game) (x : HookEvent) (s : Hooks) → Holds shown s → Holds shown (handle decode g x s).1
  unfolding handle travel_abort raw_game_message
  handle-Holds g (welcomed d) s v = same_held shown s _ refl v
  handle-Holds g (prepared d) s v = travel_prepare-Holds shown g d s v
  handle-Holds g (committed d) s v = travel_commit-Holds shown g d s v
  handle-Holds g (batched d) s v = travel_view_batch-Holds shown g d s v
  handle-Holds g (resumed d) s v = travel_resume-Holds shown g d s v
  handle-Holds g (aborted d) s v = same_held shown s _ refl v
  handle-Holds g (raw_message d) s v =
      if_holds (λ (x : Hooked). Holds shown x.1) (is_client s) _ _ (λ h. receive-Holds g d s v)
        (λ h. v)
  handle-Holds g zone_spun_up s v = after_zone_spin_up-Holds shown g s v
  handle-Holds g (sidecar_connects n) s v = same_held shown s _ refl v
  handle-Holds g sidecar_leaves s v = same_held shown s _ refl v

  handle_all-Holds :
      (xs : List (Game × HookEvent)) (s : Hooks)
      → Holds shown s
      → Holds shown (handle_all decode xs s)
  unfolding handle_all
  handle_all-Holds [] s v = v
  handle_all-Holds ((g, x) ∷ xs) s v = handle_all-Holds xs _ (handle-Holds g x s v)

  hold_client-begins :
      (s : Hooks) → is_client s ≡ true → s.delivered ≡ shown → Holds shown (hold_client s)
  unfolding hold_client
  hold_client-begins s client e =
      if_holds (Holds shown) (is_client s)
        (begin_travel_buffer s.travel_epoch (set_simulation_bypass true s)) s
        (λ h. begin_travel_buffer-Holds shown s.travel_epoch (set_simulation_bypass true s) e)
        (λ h. absurd (ground (arith, h, client)))

  prepare_at-begins :
      (g : Game) (epoch : ℤ) (s : Hooks)
      → is_client s ≡ true
      → s.delivered ≡ shown
      → Holds shown (prepare_at g (ok epoch) s).1
  unfolding prepare_at
  prepare_at-begins g epoch s client e =
      let s1 = record s {
        travel_epoch = epoch;
        travel_selected_sim_id = g.active_sim_id;
        travel_zone_reported = false;
      } in
      emit-Holds shown "travel.ready" _ (hold_client s1) (hold_client-begins s1 client e)

  travel_prepare-begins :
      (g : Game) (d : Payload) (epoch : ℤ) (s : Hooks)
      → is_client s ≡ true
      → int_at "epoch" (pos 0) d ≡ ok epoch
      → s.delivered ≡ shown
      → Holds shown (travel_prepare g d s).1
  unfolding travel_prepare
  travel_prepare-begins g d epoch s client given e =
      let s1 = record s { pending_travel_txn = get_value "txn_id" d } in
      subst (λ x. Holds shown (prepare_at g x s1).1) (sym given)
        (prepare_at-begins g epoch s1 client e)

eq_ℤ-refl : (a : ℤ) → eq_ℤ a a ≡ true
eq_ℤ-refl (pos n) = ground arith
eq_ℤ-refl (negsuc n) = ground arith

eq_ℤ-same : (a b : ℤ) → a ≡ b → eq_ℤ a b ≡ true
eq_ℤ-same a b h = subst (λ c. eq_ℤ a c ≡ true) h (eq_ℤ-refl a)

module _ (decode : String → Result Bytes) where
  buffer_at-same :
      (d : Payload) (x : Result ℤ) (s : Hooks)
      → x ≡ ok s.travel_epoch
      → (buffer_at decode d x s).1.travel_buffer ≡ s.travel_buffer ++ d ∷ []
  unfolding buffer_at
  buffer_at-same d (raise e) s h = cc
  buffer_at-same d (ok epoch) s h =
      let same : epoch ≡ s.travel_epoch = cc in
      if_holds (λ (t : Hooks). t.travel_buffer ≡ s.travel_buffer ++ d ∷ [])
        (eq_ℤ epoch s.travel_epoch) (record s { travel_buffer = s.travel_buffer ++ d ∷ [] }) s
        (λ k. refl) (λ k. absurd (ground (arith, k, eq_ℤ-same epoch s.travel_epoch same)))

  -- An update with the epoch of the mod goes to the end of what is kept, while there is room.
  kept_view :
      (shown : List (ℤ × Bytes)) (g : Game) (u : Payload) (s : Hooks)
      → Holds shown s
      → is_client s ≡ true
      → int_at "epoch" s.travel_epoch u ≡ ok s.travel_epoch
      → (raw_game_message decode g u s).1.travel_buffer ≡ (
          if leb max_travel_buffer (length s.travel_buffer)
          then s.travel_buffer
          else s.travel_buffer ++ u ∷ [])
  unfolding raw_game_message receive_raw_game_message
  kept_view shown g u s v client given =
      let kept = buffer_at-same u (int_at "epoch" s.travel_epoch u) s given in
      ground (arith, v.buffering, client, kept)

  -- From the first travel that a client's mod is told to prepare, nothing that the mod is told, no
  -- loading of a zone and no change of its connection makes it send a view update to the game again.
  -- It keeps 256 updates at most: one with its epoch is put behind those that are kept while there is
  -- room, and dropped when there is none.
  pub silent_from_first_travel :
      (g : Game) (d : Payload) (epoch : ℤ) (s : Hooks) (xs : List (Game × HookEvent))
      → is_client s ≡ true
      → int_at "epoch" (pos 0) d ≡ ok epoch
      → let t = handle_all decode xs (travel_prepare g d s).1 in
        Holds s.delivered t
        × ((h : Game) (u : Payload)
            → is_client t ≡ true
            → int_at "epoch" t.travel_epoch u ≡ ok t.travel_epoch
            → (raw_game_message decode h u t).1.travel_buffer ≡ (
                if leb max_travel_buffer (length t.travel_buffer)
                then t.travel_buffer
                else t.travel_buffer ++ u ∷ []))
  silent_from_first_travel g d epoch s xs client given =
      let t = handle_all decode xs (travel_prepare g d s).1 in
      let held =
        handle_all-Holds s.delivered decode xs (travel_prepare g d s).1
          (travel_prepare-begins s.delivered decode g d epoch s client given refl) in
      (held, λ h u c e. kept_view s.delivered h u t held c e)
