-- ===== src/SaveSync/Receiver.antt =====
-- SaveReceiver (kermp/save_sync.py) and the three files that it touches: the partial file, the final
-- one and the backups, each under its name. A file is the list of its bytes. Failures of the file system
-- other than a missing partial file are not modelled. `sha256` is hashlib's function, as hex text.
use Prim.Native.Char.{code}
use Prim.Native.String.{count}
use ker_mp.Prelude.{
  Bool, List, Option, String, false, if◌then◌else◌, leb, length, ltb, none, not, some, text_eq,
  true, ℕ, ◌&&◌, ◌*◌, ◌++◌, ◌+◌, ◌==◌, ◌||◌, arith, eq_iff, ◌≡◌,
}
use ker_mp.Prelude.Dict.{Dict, get, put, is_some}
use ker_mp.Prelude.Int.{eq_ℤ, negsuc, pos, ℤ}
use ker_mp.Prelude.Errors.{Result, ok, os_error, raise, value_error, ◌>>=◌}
use ker_mp.Value.{Payload, get_value, join, or_else, str, string, to_int, truthy}

abbrev pub Bytes : Type 0
Bytes = List ℕ

abbrev pub max_chunk_size : ℕ
max_chunk_size = 256 * 1024

is_hex : ℕ → Bool
is_hex c = (leb 48 c && leb c 57) || (leb 65 c && leb c 70) || (leb 97 c && leb c 102)

all_hex : String → Bool
unfolding is_hex
all_hex String.[] = true
all_hex (String.◌∷◌ c s) = is_hex (code c) && all_hex s

-- `_SLOT.match(slot_id + ".save")`: Slot_ and at least one hexadecimal digit
unfoldable pub is_slot_id : String → Bool
unfolding all_hex
is_slot_id
      (String.◌∷◌ a (String.◌∷◌ b (String.◌∷◌ c (String.◌∷◌ d (String.◌∷◌ e (String.◌∷◌ f s)))))) =
    code a == b'S'
    && code b == b'l'
    && code c == b'o'
    && code d == b't'
    && code e == b'_'
    && is_hex (code f)
    && all_hex s
is_slot_id _ = false

pub record SaveReceiver : Type 0 where
  pub slot_id : String
  pub total : ℕ
  pub chunk_size : ℕ
  pub chunk_count : ℕ
  pub expected_hash : String
  pub next_index : ℕ
  pub received : ℕ
  pub partial : Option Bytes
  pub final : Option Bytes
  pub backups : Dict Bytes

-- `int(manifest.get(key, default))`
unfoldable pub int_of : String → ℤ → Payload → Result ℤ
int_of key default d = elim (get key d) [ none ↦ ok default | some v ↦ to_int v ]

-- `str(manifest.get(key) or "")`
unfoldable pub text_of : String → Payload → String
text_of key d = str (or_else (get_value key d) (string ""))

-- The checks of the constructor on the numbers of a manifest.
unfoldable pub checked :
    String → ℤ → ℤ → ℤ → String → Option Bytes → Dict Bytes → Result SaveReceiver
checked slot_id (pos total) (pos chunk_size) (pos chunk_count) expected_hash final backups =
    if not (is_slot_id slot_id)
      || not (leb 1 chunk_size && leb chunk_size max_chunk_size)
      || not (count expected_hash == 64)
    then raise (value_error "invalid_save_manifest")
    else ok (record {
      slot_id = slot_id;
      total = total;
      chunk_size = chunk_size;
      chunk_count = chunk_count;
      expected_hash = expected_hash;
      next_index = 0;
      received = 0;
      partial = none;
      final = final;
      backups = backups;
    })
checked _ _ _ _ _ _ _ = raise (value_error "invalid_save_manifest")

pub text_or_empty : (s : String) → str (or_else (string s) (string "")) ≡ s
unfolding str or_else truthy
text_or_empty s = ground (arith, eq_iff s "")

-- `SaveReceiver(manifest, destination)`, over the final file and the backups that are there
unfoldable pub new_receiver : Payload → Option Bytes → Dict Bytes → Result SaveReceiver
new_receiver manifest final backups = int_of "total_bytes" (negsuc 0) manifest >>= λ total.
    int_of "chunk_size" (pos 0) manifest >>= λ chunk_size.
    int_of "chunk_count" (negsuc 0) manifest >>= λ chunk_count.
    checked (text_of "slot_id" manifest) total chunk_size chunk_count (text_of "sha256" manifest)
      final backups

-- open("ab"): a missing file is made
abbrev pub appended : Option Bytes → Bytes → Bytes
appended none bytes = bytes
appended (some old) bytes = old ++ bytes

unfoldable pub write_chunk : ℤ → Bytes → SaveReceiver → Result (Unit {0}) × SaveReceiver
write_chunk index bytes r =
    if not (eq_ℤ index (pos r.next_index))
    then (raise (value_error "save_chunk_out_of_order"), r)
    else if ltb r.chunk_size (length bytes) || ltb r.total (r.received + length bytes)
    then (raise (value_error "save_chunk_oversized"), r)
    else if not (r.next_index + 1 == r.chunk_count) && not (length bytes == r.chunk_size)
    then (raise (value_error "save_chunk_short"), r)
    else (
      ok tt,
      record r {
        partial = some (appended r.partial bytes);
        next_index = r.next_index + 1;
        received = r.received + length bytes;
      },
    )

unfoldable pub abort : SaveReceiver → SaveReceiver
abort r = record r { partial = none }

-- The name of a backup: the folder of the session, the slot, and the UTC time to the second.
unfoldable pub backup_name : String → String → String → String
backup_name session_id slot_id stamp =
    join session_id (join "/" (join slot_id (join "." (join stamp ".save"))))

-- The copy of a final file before it is replaced. It takes the place of a backup with its name.
abbrev pub backed_up : String → Option Bytes → Dict Bytes → Dict Bytes
backed_up name none backups = backups
backed_up name (some old) backups = put name old backups

module _ (sha256 : Bytes → String) where
  -- The result says whether there is a backup, and `stamp` is what the clock shows. Without a partial file the hash raises
  -- FileNotFoundError.
  unfoldable pub finalize : String → String → SaveReceiver → Result Bool × SaveReceiver
  unfolding abort backup_name
  finalize session_id stamp r =
      if not (r.next_index == r.chunk_count) || not (r.received == r.total)
      then (raise (value_error "save_hash_mismatch"), abort r)
      else elim r.partial [
        | none ↦ (raise (os_error "FileNotFoundError"), r)
        | some bytes ↦
            if not (text_eq (sha256 bytes) r.expected_hash)
            then (raise (value_error "save_hash_mismatch"), abort r)
            else (
              ok (is_some r.final),
              record r {
                partial = none;
                final = some bytes;
                backups = backed_up (backup_name session_id r.slot_id stamp) r.final r.backups;
              },
            )
      ]
