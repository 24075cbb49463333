-- ===== src/Runtime/Client/Saves.antt =====
-- The save transfer of ClientRuntime (kermp/runtime.py). `decode` is base64's function and `sha256`
-- hashlib's. The path in the acknowledgement is left out.
use ker_mp.Prelude.{Bool, Option, String, [], none, some, ◌∷◌}
use ker_mp.Prelude.Dict.{get, put}
use ker_mp.Prelude.Int.{negsuc, pos, ℤ}
use ker_mp.Prelude.Errors.{PyError, Result, ok, raise, value_error, ◌>>=◌}
use ker_mp.Value.{Payload, bool, int, get_value, or_else, str, string}
use ker_mp.Protocol.{MessageType}
use ker_mp.SaveSync.{Bytes, SaveReceiver, abort, finalize, new_receiver, text_of, write_chunk}
use ker_mp.Net.{error_text, int_at, payload_body, reason_body}
use ker_mp.Runtime.Client.State.{ClientRuntime, SavedFile, Went, send_up, went}

abbrev pub file_of : Option SavedFile → SavedFile
file_of none = record { final = none; backups = [] }
file_of (some f) = f

unfoldable pub save_failed : String → ClientRuntime → ClientRuntime
save_failed reason c = send_up MessageType.save_error (reason_body reason) c

-- {"save_total_bytes": …, "save_bytes_received": …}
unfoldable pub save_progress : SaveReceiver → ClientRuntime → ClientRuntime
save_progress s c =
    send_up MessageType.readiness
      (payload_body (
        ("save_total_bytes", int (pos s.total))
        ∷ ("save_bytes_received", int (pos s.received))
        ∷ []))
      c

unfoldable pub with_receiver : Result SaveReceiver → ClientRuntime → Went
unfolding save_failed save_progress
with_receiver (ok s) c = went (save_progress s (record c { save_receiver = some s }))
with_receiver (raise (value_error t)) c = went (save_failed t c)
with_receiver (raise e) c = (raise e, c)

unfoldable pub on_save_manifest : Payload → ClientRuntime → Went
unfolding with_receiver
on_save_manifest d c =
    let file = file_of (get (text_of "slot_id" d) c.disk) in
    with_receiver (new_receiver d file.final file.backups) c

-- Whatever is raised, the transfer is aborted.
unfoldable pub chunk_failed : PyError → SaveReceiver → ClientRuntime → Went
chunk_failed e s c = went (save_failed (error_text e) (record c { save_receiver = some (abort s) }))

unfoldable pub chunk_written : Result (Unit {0}) × SaveReceiver → ClientRuntime → Went
unfolding chunk_failed
chunk_written (raise e, s) c = chunk_failed e s c
chunk_written (ok _, s) c = went (save_progress s (record c { save_receiver = some s }))

unfoldable pub chunk_at : Option SaveReceiver → Result (ℤ × Bytes) → ClientRuntime → Went
unfolding chunk_failed chunk_written
chunk_at none r c = went (save_failed "save_transfer_not_started" c)
chunk_at (some s) (raise e) c = chunk_failed e s c
chunk_at (some s) (ok (index, raw)) c = chunk_written (write_chunk index raw s) c

module _ (decode : String → Result Bytes) where
  -- The index of a chunk, and its bytes, which are decoded first.
  unfoldable pub chunk_of : Payload → Result (ℤ × Bytes)
  chunk_of d =
      let text : String = elim (get "payload_b64" d) [ none ↦ "" | some v ↦ str v ] in
      decode text >>= λ raw. int_at "index" (negsuc 0) d >>= λ index. ok (index, raw)

  unfoldable pub on_save_chunk : Payload → ClientRuntime → Went
  unfolding chunk_at chunk_of
  on_save_chunk d c = chunk_at c.save_receiver (chunk_of d) c

unfoldable pub finalized : Result Bool × SaveReceiver → ClientRuntime → ClientRuntime
finalized (raise e, s) c = save_failed (error_text e) c
finalized (ok backup, s) c =
    send_up MessageType.save_ack
      (payload_body (
        ("slot_id", string s.slot_id)
        ∷ ("sha256", string s.expected_hash)
        ∷ ("total_bytes", int (pos s.total))
        ∷ ("backup_created", bool backup)
        ∷ []))
      (record c { disk = put s.slot_id (record { final = s.final; backups = s.backups }) c.disk })

module _ (sha256 : Bytes → String) where
  -- The receiver is forgotten in any case.
  unfoldable pub end_at : String → Option SaveReceiver → ClientRuntime → Went
  unfolding finalized
  end_at session_id none c = went (save_failed "save_transfer_not_started" c)
  end_at session_id (some s) c =
      went (record (finalized (finalize sha256 session_id c.stamp s) c) { save_receiver = none })

  unfoldable pub on_save_end : Payload → ClientRuntime → Went
  unfolding end_at
  on_save_end d c =
      end_at (str (or_else (get_value "session_id" d) (string "unknown"))) c.save_receiver c
