-- ===== src/SaveSync/Sender.antt =====
-- `SaveSlot.manifest` (kermp/save_sync.py) and the chunks that `stream_save_to` (kermp/net.py) reads.
use ker_mp.Prelude.{
  List, String, [], drop, if◌then◌else◌, leb, length, not, suc, take, zero, ℕ, ◌&&◌, ◌+◌, ◌-◌, ◌/◌,
  ◌∷◌,
}
use ker_mp.Prelude.Int.{pos, ℤ}
use ker_mp.Prelude.Errors.{Result, ok, raise, value_error}
use ker_mp.Value.{Payload, Value, int, string}
use ker_mp.SaveSync.Receiver.{Bytes, SaveReceiver, max_chunk_size, write_chunk}

pub record SaveSlot : Type 0 where
  pub slot_id : String
  pub content : Bytes
  pub modified_at : Value
  pub sha256 : String

abbrev pub chunk_count : ℕ → ℕ → ℕ
chunk_count size chunk_size = (size + chunk_size - 1) / chunk_size

unfoldable pub manifest : String → ℕ → SaveSlot → Result Payload
manifest session_id chunk_size s =
    if not (leb 1 chunk_size && leb chunk_size max_chunk_size)
    then raise (value_error "invalid_chunk_size")
    else ok (
        ("session_id", string session_id)
        ∷ ("slot_id", string s.slot_id)
        ∷ ("total_bytes", int (pos (length s.content)))
        ∷ ("chunk_size", int (pos chunk_size))
        ∷ ("chunk_count", int (pos (chunk_count (length s.content) chunk_size)))
        ∷ ("sha256", string s.sha256)
        ∷ ("modified_at", s.modified_at)
        ∷ [])

-- `for index in range(count): raw = stream.read(chunk_size)`, from `index` on, with the rest of the
-- file; each pair is one SAVE_CHUNK message.
unfoldable pub chunks : ℕ → ℕ → ℕ → Bytes → List (ℤ × Bytes)
chunks zero chunk_size index rest = []
chunks (suc n) chunk_size index rest =
    (pos index, take chunk_size rest) ∷ chunks n chunk_size (index + 1) (drop chunk_size rest)

abbrev pub and_then :
    Result (Unit {0}) × SaveReceiver
    → (SaveReceiver → Result (Unit {0}) × SaveReceiver)
    → Result (Unit {0}) × SaveReceiver
and_then (raise e, r) f = (raise e, r)
and_then (ok _, r) f = f r

-- The client's part: a chunk at a time, up to the first that is refused.
unfoldable pub receive_all : List (ℤ × Bytes) → SaveReceiver → Result (Unit {0}) × SaveReceiver
receive_all [] r = (ok tt, r)
receive_all ((index, bytes) ∷ more) r =
    and_then (write_chunk index bytes r) (λ next. receive_all more next)
