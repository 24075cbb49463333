-- ===== src/Runtime/Client/Keeps.antt =====
-- Each handler of view updates in ClientRuntime (kermp/runtime.py) keeps their order.
use ker_mp.Prelude.{String, [], arith, false, if_holds, map, not, refl, text_eq, true, ◌&&◌, ◌≡◌}
use ker_mp.Prelude.Int.{eq_ℤ, lt_ℤ, pos, ℤ}
use ker_mp.Prelude.Rising.{Le_refl, Rising}
use ker_mp.Prelude.Errors.{Result, ok, raise}
use ker_mp.Value.{Payload, Value, null}
use ker_mp.SaveSync.{Bytes}
use ker_mp.Net.{int_at, payload_body}
use ker_mp.Runtime.Client.State.{ClientRuntime, Went, and_next, went}
use ker_mp.Runtime.Client.Views.{
  apply_all, batch_at, check_epoch, checked_view, finish_local_travel, mark_local_zone_loaded,
  on_batch, on_propose, on_resume, on_view, pass_batch, propose_at, resume_at, sequence_of,
  sort_views, view_at, with_epoch,
}
use ker_mp.Runtime.Client.Shown.{AppliedAll, apply_all-AppliedAll, sort_views-Rising}
use ker_mp.Protocol.Names.{type_text}
use ker_mp.Runtime.Reading.{kind_of}
use ker_mp.Runtime.Client.InOrder.{
  InOrder, InOrder-Showable, Sound, emptied_order, same_order, sidecar_error-InOrder,
  take_view-Sound, tell_game-InOrder,
}

pub and_next-Sound :
    (x : Went) (f : ClientRuntime → Went)
    → Sound x
    → ((c : ClientRuntime) → InOrder c → Sound (f c))
    → Sound (and_next x f)
and_next-Sound (raise e, c) f s g = s
and_next-Sound (ok u, c) f s g = g c s

module _ (decode : String → Result Bytes) where
  with_epoch-Sound :
      (sequence : ℤ) (d : Payload) (r : Result ℤ) (c : ClientRuntime)
      → lt_ℤ c.last_game_sequence sequence ≡ true
      → sequence_of d ≡ sequence
      → InOrder c
      → Sound (with_epoch decode sequence d r c)
  unfolding with_epoch
  with_epoch-Sound sequence d (raise e) c h number v = InOrder-Showable v
  with_epoch-Sound sequence d (ok epoch) c h number v =
      if_holds Sound (not (eq_ℤ epoch c.travel_epoch)) _ _
        (λ stale. sidecar_error-InOrder "stale_travel_epoch" c v)
        (λ fresh. take_view-Sound decode sequence d c h number v)

  check_epoch-Sound :
      (sequence : ℤ) (d : Payload) (x : Value) (c : ClientRuntime)
      → lt_ℤ c.last_game_sequence sequence ≡ true
      → sequence_of d ≡ sequence
      → InOrder c
      → Sound (check_epoch decode sequence d x c)
  unfolding check_epoch
  check_epoch-Sound sequence d null c h number v =
      if_holds Sound (not (eq_ℤ c.travel_epoch (pos 0))) _ _
        (λ e. sidecar_error-InOrder "missing_travel_epoch" c v)
        (λ e. take_view-Sound decode sequence d c h number v)
  check_epoch-Sound sequence d x c h number v =
      if_holds Sound (eq_ℤ c.travel_epoch (pos 0)) _ _
        (λ e. take_view-Sound decode sequence d c h number v)
        (λ e. with_epoch-Sound sequence d _ c h number v)

  checked_view-Sound :
      (sequence : ℤ) (d : Payload) (r : Result Bytes) (c : ClientRuntime)
      → lt_ℤ c.last_game_sequence sequence ≡ true
      → sequence_of d ≡ sequence
      → InOrder c
      → Sound (checked_view decode sequence d r c)
  unfolding checked_view
  checked_view-Sound sequence d (raise e) c h number v = sidecar_error-InOrder _ c v
  checked_view-Sound sequence d (ok raw) c h number v = check_epoch-Sound sequence d _ c h number v

  view_at-Sound :
      (d : Payload) (r : Result ℤ) (c : ClientRuntime)
      → int_at "sequence" (pos 0) d ≡ r
      → InOrder c
      → Sound (view_at decode d r c)
  unfolding view_at sequence_of
  view_at-Sound d (raise e) c read v = InOrder-Showable v
  view_at-Sound d (ok sequence) c read v =
      if_holds Sound (not (lt_ℤ c.last_game_sequence sequence)) _ _ (λ old. v)
        (λ new.
          checked_view-Sound sequence d _ c (ground (arith, new)) (rw (read, sequence_of) refl) v)

  pub on_view-Sound : (d : Payload) (c : ClientRuntime) → InOrder c → Sound (on_view decode d c)
  unfolding on_view
  on_view-Sound d c v = view_at-Sound d _ c refl v

  -- The updates that are kept go to the game.
  finished-Sound :
      (x : Went) (c : ClientRuntime)
      → AppliedAll c.last_game_sequence c x.1
      → InOrder c
      → Sound (
          and_next x
            (λ c'. went (record c' { buffered_view_updates = []; buffer_view_updates = false })))
  finished-Sound (raise e, b) c a v = record { up = rw a.last a.rising; few = rw a.kept v.few }
  finished-Sound (ok u, b) c a v = record {
    mid = c.last_game_sequence;
    shown_up = a.rising;
    kept_up = rw a.last (Le_refl c.last_game_sequence);
    few = omega arith;
    direct = λ h. refl;
  }

  finish_local_travel-Sound : (c : ClientRuntime) → InOrder c → Sound (finish_local_travel decode c)
  unfolding finish_local_travel
  finish_local_travel-Sound c v =
      let sorted = sort_views-Rising v.mid c.last_game_sequence c.buffered_view_updates v.kept_up in
      let up : Rising v.mid (map sequence_of (sort_views c.buffered_view_updates))
          c.last_game_sequence =
        rw sorted v.kept_up in
      finished-Sound (apply_all decode (sort_views c.buffered_view_updates) c) c
        (apply_all-AppliedAll decode (sort_views c.buffered_view_updates) v.mid c.last_game_sequence
          c v.shown_up up)
        v

  pub mark_local_zone_loaded-Sound :
      (epoch : ℤ) (c : ClientRuntime) → InOrder c → Sound (mark_local_zone_loaded decode epoch c)
  unfolding mark_local_zone_loaded
  mark_local_zone_loaded-Sound epoch c v =
      let c1 : ClientRuntime = record c { local_zone_loaded = true } in
      let v1 = same_order c c1 refl refl refl refl v in
      if_holds Sound (not (eq_ℤ epoch c.travel_epoch)) _ _ (λ stale. v)
        (λ fresh.
          if_holds Sound c.travel_batch_complete _ _ (λ e. finish_local_travel-Sound c1 v1)
            (λ e. v1))

  pass_batch-InOrder : (d : Payload) (c : ClientRuntime) → InOrder c → InOrder (pass_batch d c)
  unfolding pass_batch type_text
  pass_batch-InOrder d c v = tell_game-InOrder "travel.view_batch" (payload_body d) c refl v

  batch_at-Sound :
      (d : Payload) (r : Result ℤ) (c : ClientRuntime) → InOrder c → Sound (batch_at decode d r c)
  unfolding batch_at
  batch_at-Sound d (raise e) c v = InOrder-Showable v
  batch_at-Sound d (ok epoch) c v =
      let c1 : ClientRuntime = record c { travel_batch_complete = true } in
      let v1 = same_order c c1 refl refl refl refl v in
      if_holds Sound (not (eq_ℤ epoch c.travel_epoch)) _ _
        (λ stale. sidecar_error-InOrder "stale_travel_epoch" c v)
        (λ fresh.
          if_holds Sound (text_eq (kind_of d) "begin") _ _
            (λ begin. pass_batch-InOrder d _ (emptied_order c _ refl refl refl v))
            (λ e.
              if_holds Sound (text_eq (kind_of d) "end") _ _
                (λ ended.
                  and_next-Sound _ _
                    (if_holds Sound c.local_zone_loaded _ _ (λ h. finish_local_travel-Sound c1 v1)
                      (λ h. v1))
                    (λ b w. pass_batch-InOrder d b w))
                (λ e'. pass_batch-InOrder d c v)))

  pub on_batch-Sound : (d : Payload) (c : ClientRuntime) → InOrder c → Sound (on_batch decode d c)
  unfolding on_batch
  on_batch-Sound d c v = batch_at-Sound d _ c v

  resume_at-Sound :
      (d : Payload) (r : Result ℤ) (c : ClientRuntime) → InOrder c → Sound (resume_at decode d r c)
  unfolding resume_at type_text
  resume_at-Sound d (raise e) c v = InOrder-Showable v
  resume_at-Sound d (ok epoch) c v =
      and_next-Sound _ _
        (if_holds Sound (eq_ℤ epoch c.travel_epoch && c.travel_batch_complete) _ _
          (λ h. finish_local_travel-Sound c v) (λ h. v))
        (λ b w. tell_game-InOrder "travel.resume" (payload_body d) b refl w)

  pub on_resume-Sound : (d : Payload) (c : ClientRuntime) → InOrder c → Sound (on_resume decode d c)
  unfolding on_resume
  on_resume-Sound d c v = resume_at-Sound d _ c v

propose_at-Sound :
    (d : Payload) (r : Result ℤ) (c : ClientRuntime) → InOrder c → Sound (propose_at d r c)
unfolding propose_at
propose_at-Sound d (raise e) c v = InOrder-Showable v
propose_at-Sound d (ok incoming) c v =
    if_holds Sound (not (lt_ℤ c.travel_epoch incoming)) _ _ (λ old. v)
      (λ new.
        tell_game-InOrder "travel.prepare" (payload_body d) _ refl
          (emptied_order c _ refl refl refl v))

pub on_propose-Sound : (d : Payload) (c : ClientRuntime) → InOrder c → Sound (on_propose d c)
unfolding on_propose
on_propose-Sound d c v = propose_at-Sound d _ c v
