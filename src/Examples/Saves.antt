-- ===== src/Examples/Saves.antt =====
-- Save transfers at concrete inputs (kermp/save_sync.py).
use ker_mp.Prelude.{Bool, Option, String, [], length, none, refl, some, ℕ, ◌∷◌, ◌≡◌}
use ker_mp.Prelude.Int.{pos}
use ker_mp.Prelude.Errors.{PyError, ok, os_error, raise}
use ker_mp.Prelude.Dict.{is_some}
use ker_mp.Value.{Payload, int, string}
use ker_mp.SaveSync.{
  Bytes, SaveReceiver, SaveSlot, backed_up, backup_name, chunk_count, chunks, finalize, manifest,
  new_receiver, receive_all,
}
use ker_mp.SaveSync.Safety.{after_all, call_write, finalize_checked}
use ker_mp.SaveSync.RoundTrip.{empty_save, save_round_trip}

-- A function that tells no two files apart, in the place of SHA-256.
abbrev one_hash : Bytes → String
one_hash bytes = "0123456789abcdef0123456789abcdef0123456789abcdef0123456789abcdef"

abbrev slot : SaveSlot
slot = record {
  slot_id = "Slot_00000002";
  content = 10 ∷ 20 ∷ 30 ∷ [];
  modified_at = int (pos 0);
  sha256 = one_hash [];
}

abbrev empty_slot : SaveSlot
empty_slot = record slot { content = [] }

abbrev announced : ℕ → ℕ → Payload
announced total count =
    ("session_id", string "s")
    ∷ ("slot_id", string "Slot_00000002")
    ∷ ("total_bytes", int (pos total))
    ∷ ("chunk_size", int (pos 2))
    ∷ ("chunk_count", int (pos count))
    ∷ ("sha256", string (one_hash []))
    ∷ ("modified_at", int (pos 0))
    ∷ []

abbrev old_file : Option Bytes
old_file = some (1 ∷ [])

abbrev waiting : ℕ → ℕ → SaveReceiver
waiting total count = record {
  slot_id = "Slot_00000002";
  total = total;
  chunk_size = 2;
  chunk_count = count;
  expected_hash = one_hash [];
  next_index = 0;
  received = 0;
  partial = none;
  final = old_file;
  backups = [];
}

finalize_checked_example :
    ((b : Bool)
      → (finalize one_hash "s" "t" (
          after_all
            (call_write (pos 0) (10 ∷ 20 ∷ []) ∷ call_write (pos 1) (30 ∷ []) ∷ [])
            (waiting 3 2))).0
        ≡ ok b
      → (bytes : Bytes) × ((finalize one_hash "s" "t" (
            after_all
              (call_write (pos 0) (10 ∷ 20 ∷ []) ∷ call_write (pos 1) (30 ∷ []) ∷ [])
              (waiting 3 2))).1.final
          ≡ some bytes)
        × (one_hash bytes ≡ (waiting 3 2).expected_hash)
        × ((finalize one_hash "s" "t" (
              after_all
                (call_write (pos 0) (10 ∷ 20 ∷ []) ∷ call_write (pos 1) (30 ∷ []) ∷ [])
                (waiting 3 2))).1.backups
            ≡ backed_up
                (backup_name "s" (waiting 3 2).slot_id "t")
                (waiting 3 2).final
                (waiting 3 2).backups)
        × (b ≡ is_some (waiting 3 2).final))
    × ((e : PyError)
        → (finalize one_hash "s" "t" (
            after_all
              (call_write (pos 0) (10 ∷ 20 ∷ []) ∷ call_write (pos 1) (30 ∷ []) ∷ [])
              (waiting 3 2))).0
          ≡ raise e
        → ((finalize one_hash "s" "t" (
              after_all
                (call_write (pos 0) (10 ∷ 20 ∷ []) ∷ call_write (pos 1) (30 ∷ []) ∷ [])
                (waiting 3 2))).1.final
            ≡ (waiting 3 2).final)
          × ((finalize one_hash "s" "t" (
                after_all
                  (call_write (pos 0) (10 ∷ 20 ∷ []) ∷ call_write (pos 1) (30 ∷ []) ∷ [])
                  (waiting 3 2))).1.backups
              ≡ (waiting 3 2).backups))
finalize_checked_example =
    finalize_checked one_hash "s" "t"
      (call_write (pos 0) (10 ∷ 20 ∷ []) ∷ call_write (pos 1) (30 ∷ []) ∷ []) (waiting 3 2)

save_round_trip_example :
    (s : SaveReceiver) × (receive_all
        (chunks (chunk_count (length slot.content) 2) 2 0 slot.content)
        (waiting 3 2)
      ≡ (ok tt, s))
    × ((finalize one_hash "s" "t" s).0 ≡ ok (is_some old_file))
    × ((finalize one_hash "s" "t" s).1.final ≡ some slot.content)
    × ((finalize one_hash "s" "t" s).1.backups
        ≡ backed_up (backup_name "s" slot.slot_id "t") old_file [])
unfolding manifest new_receiver ker_mp.SaveSync.int_of ker_mp.Prelude.Dict.get ker_mp.Value.to_int
    ker_mp.SaveSync.checked ker_mp.SaveSync.is_slot_id ker_mp.SaveSync.text_of ker_mp.Value.str
    ker_mp.Value.or_else ker_mp.Value.truthy ker_mp.Value.get_value
save_round_trip_example =
    save_round_trip one_hash "s" "s" "t" 2 slot old_file [] (announced 3 2) (waiting 3 2) refl
      (λ e. cc) refl refl

empty_save_example :
    (chunks (chunk_count (length empty_slot.content) 2) 2 0 empty_slot.content ≡ [])
    × ((finalize one_hash "s" "t" (waiting 0 0)).0 ≡ raise (os_error "FileNotFoundError"))
unfolding manifest new_receiver ker_mp.SaveSync.int_of ker_mp.Prelude.Dict.get ker_mp.Value.to_int
    ker_mp.SaveSync.checked ker_mp.SaveSync.is_slot_id ker_mp.SaveSync.text_of ker_mp.Value.str
    ker_mp.Value.or_else ker_mp.Value.truthy ker_mp.Value.get_value
empty_save_example =
    empty_save one_hash "s" "s" "t" 2 empty_slot old_file [] (announced 0 0) (waiting 0 0) refl refl
      refl
