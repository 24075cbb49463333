-- ===== src/SaveSync/Safety.antt =====
-- The final file of a SaveReceiver (kermp/save_sync.py) is replaced by checked bytes only.
use ker_mp.Prelude.{
  Bool, List, Option-cases, String, [], arith, eq_iff, inl, inr, refl, some, ◌∙◌, ◌∷◌, ◌≡◌, ◌≤◌,
}
use ker_mp.Prelude.Int.{ℤ}
use ker_mp.Prelude.Errors.{PyError, ok, raise}
use ker_mp.SaveSync.Receiver.{
  Bytes, SaveReceiver, abort, backed_up, backup_name, finalize, write_chunk,
}
use ker_mp.Prelude.Dict.{is_some}

pub data ReceiverCall : Type 0 where
  call_write : ℤ → Bytes → ReceiverCall
  call_abort : ReceiverCall

unfoldable pub after : ReceiverCall → SaveReceiver → SaveReceiver
after (call_write index bytes) r = (write_chunk index bytes r).1
after call_abort r = abort r

unfoldable pub after_all : List ReceiverCall → SaveReceiver → SaveReceiver
after_all [] r = r
after_all (x ∷ xs) r = after_all xs (after x r)

after-kept :
    (x : ReceiverCall) (r : SaveReceiver)
    → ((after x r).final ≡ r.final)
      × ((after x r).backups ≡ r.backups)
      × ((after x r).slot_id ≡ r.slot_id)
      × ((after x r).expected_hash ≡ r.expected_hash)
      × ((after x r).total ≡ r.total)
      × (r.received ≤ r.total → (after x r).received ≤ r.total)
unfolding after write_chunk abort
after-kept (call_write index bytes) r = ground arith
after-kept call_abort r = (refl, refl, refl, refl, refl, λ h. h)

after_all-kept :
    (xs : List ReceiverCall) (r : SaveReceiver)
    → ((after_all xs r).final ≡ r.final)
      × ((after_all xs r).backups ≡ r.backups)
      × ((after_all xs r).slot_id ≡ r.slot_id)
      × ((after_all xs r).expected_hash ≡ r.expected_hash)
      × ((after_all xs r).total ≡ r.total)
      × (r.received ≤ r.total → (after_all xs r).received ≤ r.total)
unfolding after_all
after_all-kept [] r = (refl, refl, refl, refl, refl, λ h. h)
after_all-kept (x ∷ xs) r =
    let (a, b, i, c, d, e) = after_all-kept xs (after x r) in
    let (a', b', i', c', d', e') = after-kept x r in
    (a ∙ a', b ∙ b', i ∙ i', c ∙ c', d ∙ d', λ h. omega (arith, d', e' h, e))

module _ (sha256 : Bytes → String) where
  -- Whatever chunks came in before, and with however many aborts: if `finalize` returns, the final file
  -- holds bytes with the announced hash and the file that was there is the backup of this session, slot
  -- and second, over an earlier one of that name, beside the others; if it raises, the final file and
  -- the backups are as they were.
  pub finalize_checked :
      (session_id stamp : String) (xs : List ReceiverCall) (r : SaveReceiver)
      → ((b : Bool)
          → (finalize sha256 session_id stamp (after_all xs r)).0 ≡ ok b
          → (bytes : Bytes) × ((finalize sha256 session_id stamp (after_all xs r)).1.final
              ≡ some bytes)
            × (sha256 bytes ≡ r.expected_hash)
            × ((finalize sha256 session_id stamp (after_all xs r)).1.backups
                ≡ backed_up (backup_name session_id r.slot_id stamp) r.final r.backups)
            × (b ≡ is_some r.final))
        × ((e : PyError)
            → (finalize sha256 session_id stamp (after_all xs r)).0 ≡ raise e
            → ((finalize sha256 session_id stamp (after_all xs r)).1.final ≡ r.final)
              × ((finalize sha256 session_id stamp (after_all xs r)).1.backups ≡ r.backups))
  unfolding finalize abort
  finalize_checked session_id stamp xs r =
      let s = after_all xs r in
      let (kept, backups, slot, hash, total, bound) = after_all-kept xs r in
      (
        λ b h. elim (Option-cases s.partial) [
          | inl missing ↦ ground (arith, missing)
          | inr (bytes, there) ↦ (
            bytes,
            ground (arith, there),
            ground (arith, there, hash, eq_iff (sha256 bytes) s.expected_hash),
            ground (arith, there, kept, backups, slot),
            ground (arith, there, kept),
          )
        ],
        λ e h. (ground (arith, kept), ground (arith, backups)),
      )
