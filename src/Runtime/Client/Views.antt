-- ===== src/Runtime/Client/Views.antt =====
-- The view updates of ClientRuntime (kermp/runtime.py): they are passed on to the game at once, or
-- kept while a travel is under way. `decode` is base64's function.
use ker_mp.Prelude.{
  List, String, [], false, if◌then◌else◌, leb, length, not, some, text_eq, true, ◌&&◌, ◌++◌, ◌+◌,
  ◌∷◌,
}
use ker_mp.Prelude.Int.{eq_ℤ, lt_ℤ, pos, ℤ}
use ker_mp.Prelude.Errors.{Result, ok, raise, ◌>>=◌}
use ker_mp.Value.{Payload, get_value, join, null, str, to_int, Value}
use ker_mp.Protocol.{MessageType}
use ker_mp.Protocol.Names.{type_text}
use ker_mp.SaveSync.{Bytes}
use ker_mp.Net.{error_text, int_at, payload_body}
use ker_mp.Runtime.Reading.{epoch_of, item, kind_of, raw_of}
use ker_mp.Runtime.Client.State.{
  ClientRuntime, Went, and_next, max_buffered_view_updates, sidecar_error, tell_game, went,
}

-- int(item.get("sequence", 0)) of an update that is kept, which was read when it came
unfoldable pub sequence_of : Payload → ℤ
sequence_of d = elim (int_at "sequence" (pos 0) d) [ raise e ↦ pos 0 | ok z ↦ z ]

-- sorted(updates, key=sequence): one that is equal stays behind
unfoldable pub insert_view : Payload → List Payload → List Payload
insert_view d [] = d ∷ []
insert_view d (e ∷ es) =
    let rest = insert_view d es in
    if lt_ℤ (sequence_of e) (sequence_of d) then e ∷ rest else d ∷ e ∷ es

unfoldable pub sort_views : List Payload → List Payload
unfolding insert_view
sort_views [] = []
sort_views (d ∷ ds) = insert_view d (sort_views ds)

-- `int(payload["msg_id"])` has been read, and the update goes to the game.
unfoldable pub with_number : Payload → Result ℤ → ClientRuntime → Went
with_number d (raise e) c = (raise e, c)
with_number d (ok id) c = went (
    tell_game (type_text MessageType.game_raw_message) (payload_body d)
      (record c { last_view_update_msg_id = some id }))

-- The bytes have been read.
unfoldable pub with_bytes : Payload → Result Bytes → ClientRuntime → Went
unfolding item
with_bytes d (raise e) c = (raise e, c)
with_bytes d (ok raw) c =
    with_number d (item "msg_id" d >>= λ v. to_int v)
      (record c { last_view_update_size = length raw })

unfoldable pub keep_view : Payload → ClientRuntime → ClientRuntime
unfolding sort_views
keep_view d c =
    if leb max_buffered_view_updates (length c.buffered_view_updates)
    then sidecar_error "view_update_buffer_full" c
    else record c { buffered_view_updates = sort_views (c.buffered_view_updates ++ d ∷ []) }

unfoldable pub pass_batch : Payload → ClientRuntime → ClientRuntime
pass_batch d c = tell_game (type_text MessageType.travel_view_batch) (payload_body d) c

-- TRAVEL_PROPOSE, whose epoch has been read
unfoldable pub propose_at : Payload → Result ℤ → ClientRuntime → Went
propose_at d (raise e) c = (raise e, c)
propose_at d (ok incoming) c =
    if not (lt_ℤ c.travel_epoch incoming)
    then went c
    else went (
        tell_game "travel.prepare" (payload_body d) (record c {
          travel_epoch = incoming;
          local_zone_loaded = false;
          travel_batch_complete = false;
          buffer_view_updates = true;
          buffered_view_updates = [];
        }))

unfoldable pub on_propose : Payload → ClientRuntime → Went
unfolding propose_at
on_propose d c = propose_at d (int_at "epoch" (pos 0) d) c

module _ (decode : String → Result Bytes) where
  -- `view_updates_received` counts an update whose fields then raise. The bytes were decoded before
  -- with `validate=True`, and what that accepts the plain call decodes in the same way.
  unfoldable pub apply_game_message : Payload → ClientRuntime → Went
  unfolding with_bytes
  apply_game_message d c =
      with_bytes d (item "payload_b64" d >>= λ v. decode (str v))
        (record c { view_updates_received = c.view_updates_received + 1 })

  unfoldable pub apply_all : List Payload → ClientRuntime → Went
  unfolding apply_game_message
  apply_all [] c = went c
  apply_all (d ∷ ds) c = and_next (apply_game_message d c) (λ c'. apply_all ds c')

  -- The updates that are kept go to the game; after a raise they are kept still.
  unfoldable pub finish_local_travel : ClientRuntime → Went
  unfolding apply_all
  finish_local_travel c =
      and_next (apply_all (sort_views c.buffered_view_updates) c)
        (λ c'. went (record c' { buffered_view_updates = []; buffer_view_updates = false }))

  unfoldable pub mark_local_zone_loaded : ℤ → ClientRuntime → Went
  unfolding finish_local_travel
  mark_local_zone_loaded epoch c =
      if not (eq_ℤ epoch c.travel_epoch)
      then went c
      else let c1 = record c { local_zone_loaded = true } in
        if c.travel_batch_complete then finish_local_travel c1 else went c1

  unfoldable pub take_view : ℤ → Payload → ClientRuntime → Went
  unfolding keep_view
  take_view sequence d c =
      let c1 = record c { last_game_sequence = sequence } in
      if c.buffer_view_updates then went (keep_view d c1) else apply_game_message d c1

  -- `int(epoch)`, once it is needed
  unfoldable pub with_epoch : ℤ → Payload → Result ℤ → ClientRuntime → Went
  unfolding take_view
  with_epoch sequence d (raise e) c = (raise e, c)
  with_epoch sequence d (ok epoch) c =
      if not (eq_ℤ epoch c.travel_epoch)
      then went (sidecar_error "stale_travel_epoch" c)
      else take_view sequence d c

  -- The tests on the epoch: 0 is the epoch of a client that has not travelled yet.
  unfoldable pub check_epoch : ℤ → Payload → Value → ClientRuntime → Went
  unfolding with_epoch
  check_epoch sequence d null c =
      if not (eq_ℤ c.travel_epoch (pos 0))
      then went (sidecar_error "missing_travel_epoch" c)
      else take_view sequence d c
  check_epoch sequence d v c =
      if eq_ℤ c.travel_epoch (pos 0)
      then take_view sequence d c
      else with_epoch sequence d (to_int v) c

  -- The bytes of a new update have been decoded.
  unfoldable pub checked_view : ℤ → Payload → Result Bytes → ClientRuntime → Went
  unfolding check_epoch
  checked_view sequence d (raise e) c =
      went (sidecar_error (join "raw_message_invalid:" (error_text e)) c)
  checked_view sequence d (ok raw) c = check_epoch sequence d (get_value "epoch" d) c

  unfoldable pub view_at : Payload → Result ℤ → ClientRuntime → Went
  unfolding checked_view
  view_at d (raise e) c = (raise e, c)
  view_at d (ok sequence) c =
      if not (lt_ℤ c.last_game_sequence sequence)
      then went c
      else checked_view sequence d (raw_of decode d) c

  unfoldable pub on_view : Payload → ClientRuntime → Went
  unfolding view_at
  on_view d c = view_at d (int_at "sequence" (pos 0) d) c

  -- TRAVEL_VIEW_BATCH, whose epoch has been read
  unfoldable pub batch_at : Payload → Result ℤ → ClientRuntime → Went
  unfolding finish_local_travel pass_batch
  batch_at d (raise e) c = (raise e, c)
  batch_at d (ok epoch) c =
      if not (eq_ℤ epoch c.travel_epoch)
      then went (sidecar_error "stale_travel_epoch" c)
      else if text_eq (kind_of d) "begin"
      then went (
          pass_batch d (record c {
            buffer_view_updates = true;
            travel_batch_complete = false;
            buffered_view_updates = [];
          }))
      else if text_eq (kind_of d) "end"
      then (let c1 = record c { travel_batch_complete = true } in
          and_next (if c.local_zone_loaded then finish_local_travel c1 else went c1)
            (λ c2. went (pass_batch d c2)))
      else went (pass_batch d c)

  unfoldable pub on_batch : Payload → ClientRuntime → Went
  unfolding batch_at
  on_batch d c = batch_at d (epoch_of d) c

  -- TRAVEL_RESUME, whose epoch has been read
  unfoldable pub resume_at : Payload → Result ℤ → ClientRuntime → Went
  unfolding finish_local_travel
  resume_at d (raise e) c = (raise e, c)
  resume_at d (ok epoch) c =
      and_next
        (if eq_ℤ epoch c.travel_epoch && c.travel_batch_complete
          then finish_local_travel c
          else went c)
        (λ c'. went (tell_game (type_text MessageType.travel_resume) (payload_body d) c'))

  unfoldable pub on_resume : Payload → ClientRuntime → Went
  unfolding resume_at
  on_resume d c = resume_at d (epoch_of d) c
