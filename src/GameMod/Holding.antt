-- ===== src/GameMod/Holding.antt =====
-- While the mod keeps view updates: what its travel handlers leave as it is
-- (sims_mod_src/kermp_mod/hooks.py).
use ker_mp.GameMod.State.{Game, Hooks, max_travel_buffer}
use ker_mp.GameMod.Travels.{
  invoked, then_next, send_event, has_role, reported_zone, restore_active_sim, Hooked,
  after_zone_spin_up, begin_travel_buffer, commit_at, committing, emit, finish_zone_hydration,
  hold_client, invoke_travel, is_client, prepare_at, resume_with, set_simulation_bypass,
  travel_commit, travel_prepare, travel_resume, travel_view_batch, view_batch_at, zone_is_loaded,
}
use ker_mp.Prelude.{
  String, ℕ, Option, none, some, zero, suc, if◌then◌else◌, Bool, List, ap, arith, false, if_holds,
  length, refl, subst, sym, true, ◌∙◌, ◌≡◌, ◌≤◌, not, text_eq, ◌&&◌,
}
use ker_mp.Prelude.Errors.{PyError, Result, ok, raise}
use ker_mp.Prelude.Int.{ℤ, eq_ℤ, pos}
use ker_mp.GameMod.Adapter.{describe}
use ker_mp.Value.{Payload, get_value, truthy}
use ker_mp.SaveSync.{Bytes}
use ker_mp.Net.{int_at}
use ker_mp.Runtime.{kind_of, epoch_of}

-- View updates are kept, few of them, and those in `shown` are all that the client's game has got.
pub record Holds (shown : List (ℤ × Bytes)) (s : Hooks) : Type 0 where
  pub buffering : s.travel_buffering ≡ true
  pub delivered_all : s.delivered ≡ shown
  pub few : length s.travel_buffer ≤ max_travel_buffer

abbrev held_part : Hooks → Bool × (List (ℤ × Bytes) × List Payload)
held_part s = (s.travel_buffering, (s.delivered, s.travel_buffer))

module _ (shown : List (ℤ × Bytes)) where
  pub same_held : (s t : Hooks) → held_part t ≡ held_part s → Holds shown s → Holds shown t
  same_held s t e v = record {
    buffering = ap (λ x. x.0) e ∙ v.buffering;
    delivered_all = ap (λ x. x.1.0) e ∙ v.delivered_all;
    few = subst (λ x. length x ≤ max_travel_buffer) (sym (ap (λ x. x.1.1) e)) v.few;
  }

  pub begin_travel_buffer-Holds :
      (epoch : ℤ) (s : Hooks) → s.delivered ≡ shown → Holds shown (begin_travel_buffer epoch s)
  unfolding begin_travel_buffer
  begin_travel_buffer-Holds epoch s e = record {
    buffering = refl;
    delivered_all = e;
    few = ground arith;
  }

  pub hold_client-Holds : (s : Hooks) → Holds shown s → Holds shown (hold_client s)
  unfolding hold_client
  hold_client-Holds s v =
      if_holds (Holds shown) (is_client s) _ _
        (λ h.
          begin_travel_buffer-Holds s.travel_epoch (set_simulation_bypass true s) v.delivered_all)
        (λ h. v)

  send_event-Holds :
      (b : Bool) (n : ℕ) (type : String) (d : Payload) (s : Hooks)
      → Holds shown s
      → Holds shown (send_event b n type d s).1
  unfolding send_event
  send_event-Holds false n type d s v = v
  send_event-Holds true zero type d s v = v
  send_event-Holds true (suc n) type d s v = same_held s _ refl v

  pub emit-Holds :
      (type : String) (d : Payload) (s : Hooks) → Holds shown s → Holds shown (emit type d s).1
  unfolding emit
  emit-Holds type d s v = send_event-Holds s.sock s.writes_left type d s v

  then_next-Holds :
      (x : Hooked) (f : Hooks → Hooked)
      → Holds shown x.1
      → ((s : Hooks) → Holds shown s → Holds shown (f s).1)
      → Holds shown (then_next x f).1
  then_next-Holds (raise e, s) f v g = v
  then_next-Holds (ok u, s) f v g = g s v

  pub prepare_at-Holds :
      (g : Game) (x : Result ℤ) (s : Hooks) → Holds shown s → Holds shown (prepare_at g x s).1
  unfolding prepare_at
  prepare_at-Holds g (raise e) s v = v
  prepare_at-Holds g (ok epoch) s v =
      let s1 = record s {
        travel_epoch = epoch;
        travel_selected_sim_id = g.active_sim_id;
        travel_zone_reported = false;
      } in
      emit-Holds "travel.ready" _ (hold_client s1) (hold_client-Holds s1 (same_held s s1 refl v))

  invoked-Holds : (o : Option PyError) (s : Hooks) → Holds shown s → Holds shown (invoked o s).1
  unfolding invoked
  invoked-Holds none s v = v
  invoked-Holds (some e) s v =
      let s1 = record s { travel_last_error = some (describe e) } in
      emit-Holds "travel.abort" _ s1 (same_held s s1 refl v)

  invoke_travel-Holds : (g : Game) (s : Hooks) → Holds shown s → Holds shown (invoke_travel g s).1
  unfolding invoke_travel
  invoke_travel-Holds g s v =
      let s1 = record s { travel_api_info = g.api_info } in
      if_holds (λ (x : Hooked). Holds shown x.1) (not (has_role s)) (ok tt, s)
        (invoked g.travel_end s1) (λ h. v)
        (λ h. invoked-Holds g.travel_end s1 (same_held s s1 refl v))

  pub commit_at-Holds :
      (g : Game) (d : Payload) (x : Result ℤ) (s : Hooks)
      → Holds shown s
      → Holds shown (commit_at g d x s).1
  unfolding commit_at
  commit_at-Holds g d (raise e) s v = v
  commit_at-Holds g d (ok epoch) s v =
      let s1 = committing d epoch s in
      invoke_travel-Holds g (hold_client s1) (hold_client-Holds s1 (same_held s s1 refl v))

  pub finish_zone_hydration-Holds :
      (g : Game) (s : Hooks) → Holds shown s → Holds shown (finish_zone_hydration g s).1
  unfolding finish_zone_hydration
  finish_zone_hydration-Holds g s v =
      let s1 = record s { travel_selected_sim_restored = restore_active_sim g s } in
      if_holds (λ (x : Hooked). Holds shown x.1) s.travel_zone_reported (ok tt, s) _ (λ h. v)
        (λ h.
          then_next-Holds (emit "travel.zone_ready" _ s1) reported_zone
            (emit-Holds "travel.zone_ready" _ s1 (same_held s s1 refl v))
            (λ t w. same_held t _ refl w))

  pub view_batch_at-Holds :
      (g : Game) (d : Payload) (x : Result ℤ) (s : Hooks)
      → Holds shown s
      → Holds shown (view_batch_at g d x s).1
  unfolding view_batch_at
  view_batch_at-Holds g d (raise e) s v = v
  view_batch_at-Holds g d (ok epoch) s v =
      let P : Hooked → Type 0 = λ x. Holds shown x.1 in
      let s1 = record s { travel_batch_complete = false } in
      let s2 = record s { travel_batch_complete = true } in
      if_holds P (not (eq_ℤ epoch s.travel_epoch)) _ _ (λ h. v)
        (λ h.
          if_holds P (text_eq (kind_of d) "begin") _ _
            (λ h.
              if_holds (Holds shown) (is_client s) _ _
                (λ h. begin_travel_buffer-Holds s.travel_epoch s1 v.delivered_all)
                (λ h. same_held s s1 refl v))
            (λ h.
              if_holds P (text_eq (kind_of d) "end") _ _
                (λ h.
                  if_holds P (is_client s && zone_is_loaded g (get_value "zone_id" d))
                    (finish_zone_hydration g s2) (ok tt, s2)
                    (λ h. finish_zone_hydration-Holds g s2 (same_held s s2 refl v))
                    (λ h. same_held s s2 refl v))
                (λ h. v)))

  pub resume_with-Holds :
      (g : Game) (d : Payload) (x : Result ℤ) (s : Hooks)
      → Holds shown s
      → Holds shown (resume_with g d x s).1
  unfolding resume_with
  resume_with-Holds g d (raise e) s v = v
  resume_with-Holds g d (ok epoch) s v =
      let loaded = zone_is_loaded g (get_value "zone_id" d) in
      if_holds (λ (x : Hooked). Holds shown x.1)
        (eq_ℤ epoch s.travel_epoch && (s.travel_batch_complete && loaded))
        (finish_zone_hydration g s) (ok tt, s) (λ h. finish_zone_hydration-Holds g s v) (λ h. v)

  pub after_zone_spin_up-Holds :
      (g : Game) (s : Hooks) → Holds shown s → Holds shown (after_zone_spin_up g s).1
  unfolding after_zone_spin_up
  after_zone_spin_up-Holds g s v =
      let P : Hooked → Type 0 = λ x. Holds shown x.1 in
      let s1 = record s { travel_local_zone_loaded = true } in
      let s2 = record s1 { travel_batch_complete = true } in
      if_holds P (not (truthy s.pending_travel_txn)) (ok tt, s) _ (λ h. v)
        (λ h.
          if_holds P (is_client s)
            (if s.travel_batch_complete then finish_zone_hydration g s1 else (ok tt, s1)) _
            (λ h.
              if_holds P s.travel_batch_complete (finish_zone_hydration g s1) (ok tt, s1)
                (λ h. finish_zone_hydration-Holds g s1 (same_held s s1 refl v))
                (λ h. same_held s s1 refl v))
            (λ h.
              then_next-Holds (emit "travel.view_batch" _ s2) _
                (emit-Holds "travel.view_batch" _ s2 (same_held s s2 refl v))
                (λ t w. emit-Holds "travel.zone_ready" _ t w)))

  pub travel_prepare-Holds :
      (g : Game) (d : Payload) (s : Hooks) → Holds shown s → Holds shown (travel_prepare g d s).1
  unfolding travel_prepare
  travel_prepare-Holds g d s v =
      let s1 = record s { pending_travel_txn = get_value "txn_id" d } in
      prepare_at-Holds g (int_at "epoch" (pos 0) d) s1 (same_held s s1 refl v)

  pub travel_commit-Holds :
      (g : Game) (d : Payload) (s : Hooks) → Holds shown s → Holds shown (travel_commit g d s).1
  unfolding travel_commit
  travel_commit-Holds g d s v =
      let s1 = record s { pending_travel_txn = get_value "txn_id" d } in
      commit_at-Holds g d (int_at "epoch" s.travel_epoch d) s1 (same_held s s1 refl v)

  pub travel_view_batch-Holds :
      (g : Game) (d : Payload) (s : Hooks) → Holds shown s → Holds shown (travel_view_batch g d s).1
  unfolding travel_view_batch
  travel_view_batch-Holds g d s v = view_batch_at-Holds g d (epoch_of d) s v

  pub travel_resume-Holds :
      (g : Game) (d : Payload) (s : Hooks) → Holds shown s → Holds shown (travel_resume g d s).1
  unfolding travel_resume
  travel_resume-Holds g d s v =
      let x = int_at "epoch" s.travel_epoch d in
      if_holds (λ (x : Hooked). Holds shown x.1) (is_client s) (resume_with g d x s) (ok tt, s)
        (λ h. resume_with-Holds g d x s v) (λ h. v)
