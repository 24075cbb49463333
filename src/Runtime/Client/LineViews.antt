-- ===== src/Runtime/Client/LineViews.antt =====
-- The view updates of ClientRuntime (kermp/runtime.py) leave its build operations alone.
use ker_mp.Prelude.{
  List, String, [], false, if_holds, if◌then◌else◌, not, refl, text_eq, true, ◌&&◌, ◌+◌, ◌∷◌,
}
use ker_mp.Prelude.Int.{eq_ℤ, lt_ℤ, pos, ℤ}
use ker_mp.Prelude.Errors.{Result, ok, raise, ◌>>=◌}
use ker_mp.Value.{Payload, Value, get_value, join, null, str}
use ker_mp.Protocol.{MessageType}
use ker_mp.Protocol.Names.{type_text}
use ker_mp.SaveSync.{Bytes}
use ker_mp.Net.{Body, error_text, int_at, payload_body}
use ker_mp.Runtime.Reading.{epoch_of, item, kind_of, raw_of}
use ker_mp.Runtime.Client.State.{ClientRuntime, Went, and_next, sidecar_error, went}
use ker_mp.Runtime.Client.Views.{
  apply_all, apply_game_message, batch_at, check_epoch, checked_view, finish_local_travel,
  keep_view, mark_local_zone_loaded, on_batch, on_resume, on_view, pass_batch, resume_at,
  sort_views, take_view, view_at, with_epoch,
}
use ker_mp.Runtime.Client.Line.{
  Kept, Lined, and_next-Kept, keep_view-Lined, same_line, sidecar_error-Lined, tell_game-Lined,
  with_bytes-Kept,
}

module _ (made : List Body) (decode : String → Result Bytes) where
  apply_game_message-Kept :
      (d : Payload) (c : ClientRuntime) → Lined made c → Kept made (apply_game_message decode d c)
  unfolding apply_game_message
  apply_game_message-Kept d c v =
      let c1 = record c { view_updates_received = c.view_updates_received + 1 } in
      with_bytes-Kept made d (item "payload_b64" d >>= λ x. decode (str x)) c1
        (same_line made c c1 refl refl refl v)

  apply_all-Kept :
      (ds : List Payload) (c : ClientRuntime) → Lined made c → Kept made (apply_all decode ds c)
  unfolding apply_all
  apply_all-Kept [] c v = v
  apply_all-Kept (d ∷ ds) c v =
      and_next-Kept made (apply_game_message decode d c) (λ b. apply_all decode ds b)
        (apply_game_message-Kept d c v) (λ b w. apply_all-Kept ds b w)

  finish_local_travel-Kept :
      (c : ClientRuntime) → Lined made c → Kept made (finish_local_travel decode c)
  unfolding finish_local_travel
  finish_local_travel-Kept c v =
      and_next-Kept made (apply_all decode (sort_views c.buffered_view_updates) c) _
        (apply_all-Kept (sort_views c.buffered_view_updates) c v)
        (λ b w. same_line made b _ refl refl refl w)

  pub mark_local_zone_loaded-Kept :
      (epoch : ℤ) (c : ClientRuntime)
      → Lined made c
      → Kept made (mark_local_zone_loaded decode epoch c)
  unfolding mark_local_zone_loaded
  mark_local_zone_loaded-Kept epoch c v =
      let c1 = record c { local_zone_loaded = true } in
      let v1 = same_line made c c1 refl refl refl v in
      if_holds (Kept made) (not (eq_ℤ epoch c.travel_epoch)) (went c) _ (λ h. v)
        (λ h.
          if_holds (Kept made) c.travel_batch_complete (finish_local_travel decode c1) (went c1)
            (λ k. finish_local_travel-Kept c1 v1) (λ k. v1))

  take_view-Kept :
      (sequence : ℤ) (d : Payload) (c : ClientRuntime)
      → Lined made c
      → Kept made (take_view decode sequence d c)
  unfolding take_view
  take_view-Kept sequence d c v =
      let c1 = record c { last_game_sequence = sequence } in
      let v1 = same_line made c c1 refl refl refl v in
      if_holds (Kept made) c.buffer_view_updates (went (keep_view d c1))
        (apply_game_message decode d c1) (λ h. keep_view-Lined made d c1 v1)
        (λ h. apply_game_message-Kept d c1 v1)

  with_epoch-Kept :
      (sequence : ℤ) (d : Payload) (r : Result ℤ) (c : ClientRuntime)
      → Lined made c
      → Kept made (with_epoch decode sequence d r c)
  unfolding with_epoch
  with_epoch-Kept sequence d (raise e) c v = v
  with_epoch-Kept sequence d (ok epoch) c v =
      if_holds (Kept made) (not (eq_ℤ epoch c.travel_epoch))
        (went (sidecar_error "stale_travel_epoch" c)) (take_view decode sequence d c)
        (λ h. sidecar_error-Lined made "stale_travel_epoch" c v)
        (λ h. take_view-Kept sequence d c v)

  check_epoch-Kept :
      (sequence : ℤ) (d : Payload) (x : Value) (c : ClientRuntime)
      → Lined made c
      → Kept made (check_epoch decode sequence d x c)
  unfolding check_epoch
  check_epoch-Kept sequence d null c v =
      if_holds (Kept made) (not (eq_ℤ c.travel_epoch (pos 0)))
        (went (sidecar_error "missing_travel_epoch" c)) (take_view decode sequence d c)
        (λ h. sidecar_error-Lined made "missing_travel_epoch" c v)
        (λ h. take_view-Kept sequence d c v)
  check_epoch-Kept sequence d x c v =
      if_holds (Kept made) (eq_ℤ c.travel_epoch (pos 0)) (take_view decode sequence d c) _
        (λ h. take_view-Kept sequence d c v) (λ h. with_epoch-Kept sequence d _ c v)

  checked_view-Kept :
      (sequence : ℤ) (d : Payload) (r : Result Bytes) (c : ClientRuntime)
      → Lined made c
      → Kept made (checked_view decode sequence d r c)
  unfolding checked_view
  checked_view-Kept sequence d (raise e) c v =
      sidecar_error-Lined made (join "raw_message_invalid:" (error_text e)) c v
  checked_view-Kept sequence d (ok raw) c v = check_epoch-Kept sequence d (get_value "epoch" d) c v

  view_at-Kept :
      (d : Payload) (r : Result ℤ) (c : ClientRuntime)
      → Lined made c
      → Kept made (view_at decode d r c)
  unfolding view_at
  view_at-Kept d (raise e) c v = v
  view_at-Kept d (ok sequence) c v =
      if_holds (Kept made) (not (lt_ℤ c.last_game_sequence sequence)) (went c)
        (checked_view decode sequence d (raw_of decode d) c) (λ h. v)
        (λ h. checked_view-Kept sequence d (raw_of decode d) c v)

  pub on_view-Kept :
      (d : Payload) (c : ClientRuntime) → Lined made c → Kept made (on_view decode d c)
  unfolding on_view
  on_view-Kept d c v = view_at-Kept d (int_at "sequence" (pos 0) d) c v

  pass_batch-Lined : (d : Payload) (c : ClientRuntime) → Lined made c → Lined made (pass_batch d c)
  unfolding pass_batch
  pass_batch-Lined d c v =
      tell_game-Lined made (type_text MessageType.travel_view_batch) (payload_body d) c v

  batch_at-Kept :
      (d : Payload) (r : Result ℤ) (c : ClientRuntime)
      → Lined made c
      → Kept made (batch_at decode d r c)
  unfolding batch_at
  batch_at-Kept d (raise e) c v = v
  batch_at-Kept d (ok epoch) c v =
      let c1 = record c { travel_batch_complete = true } in
      let v1 = same_line made c c1 refl refl refl v in
      let c2 = record c {
        buffer_view_updates = true;
        travel_batch_complete = false;
        buffered_view_updates = [];
      } in
      let loaded : Went = if c.local_zone_loaded then finish_local_travel decode c1 else went c1 in
      if_holds (Kept made) (not (eq_ℤ epoch c.travel_epoch))
        (went (sidecar_error "stale_travel_epoch" c)) _
        (λ h. sidecar_error-Lined made "stale_travel_epoch" c v)
        (λ h.
          if_holds (Kept made) (text_eq (kind_of d) "begin") (went (pass_batch d c2)) _
            (λ k. pass_batch-Lined d c2 (same_line made c c2 refl refl refl v))
            (λ k.
              if_holds (Kept made) (text_eq (kind_of d) "end")
                (and_next loaded (λ b. went (pass_batch d b))) (went (pass_batch d c))
                (λ l.
                  and_next-Kept made loaded (λ b. went (pass_batch d b))
                    (if_holds (Kept made) c.local_zone_loaded (finish_local_travel decode c1)
                      (went c1) (λ m. finish_local_travel-Kept c1 v1) (λ m. v1))
                    (λ b w. pass_batch-Lined d b w))
                (λ l. pass_batch-Lined d c v)))

  pub on_batch-Kept :
      (d : Payload) (c : ClientRuntime) → Lined made c → Kept made (on_batch decode d c)
  unfolding on_batch
  on_batch-Kept d c v = batch_at-Kept d (epoch_of d) c v

  resume_at-Kept :
      (d : Payload) (r : Result ℤ) (c : ClientRuntime)
      → Lined made c
      → Kept made (resume_at decode d r c)
  unfolding resume_at
  resume_at-Kept d (raise e) c v = v
  resume_at-Kept d (ok epoch) c v =
      let now = eq_ℤ epoch c.travel_epoch && c.travel_batch_complete in
      and_next-Kept made (if now then finish_local_travel decode c else went c) _
        (if_holds (Kept made) now (finish_local_travel decode c) (went c)
          (λ h. finish_local_travel-Kept c v) (λ h. v))
        (λ b w. tell_game-Lined made (type_text MessageType.travel_resume) (payload_body d) b w)

  pub on_resume-Kept :
      (d : Payload) (c : ClientRuntime) → Lined made c → Kept made (on_resume decode d c)
  unfolding on_resume
  on_resume-Kept d c v = resume_at-Kept d (epoch_of d) c v
