-- ===== src/SaveSync/RoundTrip.antt =====
-- What is sent is what arrives.
use ker_mp.Prelude.{
  [], length, some, suc, take, ℕ, ◌*◌, ◌+◌, ◌<◌, ◌≡◌, ◌≤◌, Option, all, ap, arith, drop, inl, inr,
  length-append, length-drop, length-take, none, refl, zero, ◌++◌, ◌∙◌, ◌∷◌, ◌⊎◌, append-nil,
  append_assoc, take-append-drop, String, sym, true, ◌≢◌, eq_iff, subst,
}
use ker_mp.Prelude.Int.{pos}
use ker_mp.Prelude.Errors.{ok, os_error, raise}
use ker_mp.SaveSync.Receiver.{
  Bytes, SaveReceiver, appended, write_chunk, backed_up, backup_name, finalize, new_receiver,
  int_of, text_of, text_or_empty, checked,
}
use ker_mp.SaveSync.Sender.{chunks, receive_all, and_then, chunk_count, SaveSlot, manifest}
use ker_mp.Value.{Payload, get_value, int, string, to_int}
use ker_mp.Prelude.Dict.{Dict, is_some, get}

-- `k` chunks are left to send of `rest`: all full but perhaps the last.
record Fits (k size : ℕ) (rest : Bytes) : Type 0 where
  enough : length rest ≤ k * size
  needed : (j : ℕ) → k ≡ suc j → j * size < length rest

-- The receiver has `done`, and waits for `rest`.
record Halfway (k : ℕ) (done rest : Bytes) (r : SaveReceiver) : Type 0 where
  stored : appended r.partial [] ≡ done
  counted : r.received ≡ length done
  whole : r.total ≡ length done + length rest
  left : r.next_index + k ≡ r.chunk_count

-- The receiver `s` has all of `content`, and is `r` in all else.
record HasAll (content : Bytes) (r s : SaveReceiver) : Type 0 where
  stored : appended s.partial [] ≡ content
  counted : s.received ≡ s.total
  indexed : s.next_index ≡ s.chunk_count
  slot : s.slot_id ≡ r.slot_id
  hash : s.expected_hash ≡ r.expected_hash
  final : s.final ≡ r.final
  backups : s.backups ≡ r.backups

full_chunk :
    (k size : ℕ) (rest : Bytes)
    → Fits (suc k) size rest
    → ((k ≡ 0) ⊎ (length (take size rest) ≡ size))
full_chunk zero size rest f = inl refl
full_chunk (suc k) size rest f = inr (omega (arith, length-take size rest, f.needed (suc k) refl))

Fits-next : (k size : ℕ) (rest : Bytes) → Fits (suc k) size rest → Fits k size (drop size rest)
Fits-next k size rest f = record {
  enough = omega (arith, length-drop size rest, f.enough);
  needed = λ j e.
      let n : j * size + size ≡ k * size = rw e (omega arith) in
      omega (arith, length-drop size rest, f.needed k refl);
}

appended_assoc : (o : Option Bytes) (xs : Bytes) → appended o xs ≡ appended o [] ++ xs
appended_assoc none xs = refl
appended_assoc (some old) xs = rw (append-nil old)

module _ (k : ℕ) (done rest : Bytes) (r : SaveReceiver) (f : Fits (suc k) r.chunk_size rest)
    (h : Halfway (suc k) done rest r) where
  given : Bytes
  given = take r.chunk_size rest

  stepped : SaveReceiver
  unfolding given
  stepped = record r {
    partial = some (appended r.partial given);
    next_index = r.next_index + 1;
    received = r.received + length given;
  }

  write_chunk-next : write_chunk (pos r.next_index) (take r.chunk_size rest) r ≡ (ok tt, stepped)
  unfolding write_chunk stepped
  write_chunk-next = elim (full_chunk k r.chunk_size rest f) [
    | inl last ↦ ground (arith, h.whole, h.counted, h.left, length-take r.chunk_size rest)
    | inr full ↦ ground (arith, h.whole, h.counted, h.left, full, length-take r.chunk_size rest)
  ]

  Halfway-next : Halfway k (done ++ take r.chunk_size rest) (drop r.chunk_size rest) stepped
  unfolding stepped
  Halfway-next =
      let size = r.chunk_size in
      record {
        stored =
            append-nil _
            ∙ appended_assoc r.partial (take size rest)
            ∙ ap (λ t. t ++ take size rest) h.stored;
        counted = omega (arith, h.counted, length-append done (take size rest));
        whole = omega (
          arith,
          h.whole,
          length-append done (take size rest),
          length-take size rest,
          length-drop size rest,
        );
        left = omega (arith, h.left);
      }

length-zero : (rest : Bytes) → length rest ≤ 0 → rest ≡ []
length-zero [] h = refl
length-zero (x ∷ rest) h = absurd (omega arith)

receive_all_lem :
    (k : ℕ) (done rest : Bytes) (r : SaveReceiver)
    → Fits k r.chunk_size rest
    → Halfway k done rest r
    → (s : SaveReceiver) × (receive_all (chunks k r.chunk_size r.next_index rest) r ≡ (ok tt, s))
      × HasAll (done ++ rest) r s
unfolding receive_all chunks stepped
receive_all_lem zero done rest r f h =
    let empty = length-zero rest (omega (arith, f.enough)) in
    (
      r,
      refl,
      record {
        stored = h.stored ∙ rw (empty, append-nil done);
        counted = omega (arith, h.counted, h.whole, f.enough);
        indexed = omega (arith, h.left);
        slot = refl;
        hash = refl;
        final = refl;
        backups = refl;
      },
    )
receive_all_lem (suc k) done rest r f h =
    let size = r.chunk_size in
    let t = stepped k done rest r f h in
    let (s, run, all) =
      receive_all_lem k (done ++ take size rest) (drop size rest) t (Fits-next k size rest f)
        (Halfway-next k done rest r f h) in
    (
      s,
      ap (λ n. and_then n (λ u. receive_all (chunks k size (r.next_index + 1) (drop size rest)) u))
            (write_chunk-next k done rest r f h)
          ∙ (run),
      record {
        stored =
            all.stored
            ∙ append_assoc done (take size rest) (drop size rest)
            ∙ ap (λ u. done ++ u) (take-append-drop size rest);
        counted = all.counted;
        indexed = all.indexed;
        slot = all.slot;
        hash = all.hash;
        final = all.final;
        backups = all.backups;
      },
    )

Fits-chunk_count :
    (size : ℕ) (bytes : Bytes) → 1 ≤ size → Fits (chunk_count (length bytes) size) size bytes
Fits-chunk_count size bytes h = record { enough = grind arith; needed = λ j e. grind arith }

chunk_count-zero : (n size : ℕ) → 1 ≤ size → n ≡ 0 → chunk_count n size ≡ 0
chunk_count-zero n size h e = grind arith

is_some→some {ℓ} : {A : Type ℓ} (o : Option A) → is_some o ≡ true → (a : A) × (o ≡ some a)
is_some→some none h = cc
is_some→some (some a) h = (a, refl)

nonempty_partial :
    (o : Option Bytes) (content : Bytes) → appended o [] ≡ content → content ≢ [] → o ≡ some content
nonempty_partial none content e n = absurd (n (sym e))
nonempty_partial (some bytes) content e n = ap some (sym (append-nil bytes) ∙ e)

-- The receiver that a constructor call makes, if it makes one.
record IsFresh (slot_id : String) (size count : ℕ) (bytes : Bytes) (sum : String)
    (old : Option Bytes) (kept : Dict Bytes) (r : SaveReceiver) : Type 0 where
  slot : r.slot_id ≡ slot_id
  chunk_size : r.chunk_size ≡ size
  some_size : 1 ≤ size
  chunk_count : r.chunk_count ≡ count
  total : r.total ≡ length bytes
  hash : r.expected_hash ≡ sum
  next_index : r.next_index ≡ 0
  received : r.received ≡ 0
  partial : r.partial ≡ none
  final : r.final ≡ old
  backups : r.backups ≡ kept

checked-IsFresh :
    (slot_id hash : String) (bytes : Bytes) (size count : ℕ) (old : Option Bytes)
    (backups : Dict Bytes) (r : SaveReceiver)
    → checked slot_id (pos (length bytes)) (pos size) (pos count) hash old backups ≡ ok r
    → IsFresh slot_id size count bytes hash old backups r
unfolding checked
checked-IsFresh slot_id hash bytes size count old backups r h = record {
  slot = ground arith;
  chunk_size = ground arith;
  some_size = ground arith;
  chunk_count = ground arith;
  total = ground arith;
  hash = ground arith;
  next_index = ground arith;
  received = ground arith;
  partial = ground arith;
  final = ground arith;
  backups = ground arith;
}

manifest_fields : String → ℕ → SaveSlot → Payload
manifest_fields session_id size s =
    ("session_id", string session_id)
    ∷ ("slot_id", string s.slot_id)
    ∷ ("total_bytes", int (pos (length s.content)))
    ∷ ("chunk_size", int (pos size))
    ∷ ("chunk_count", int (pos (chunk_count (length s.content) size)))
    ∷ ("sha256", string s.sha256)
    ∷ ("modified_at", s.modified_at)
    ∷ []

manifest-eq :
    (session_id : String) (size : ℕ) (s : SaveSlot) (m : Payload)
    → manifest session_id size s ≡ ok m
    → m ≡ manifest_fields session_id size s
unfolding manifest manifest_fields
manifest-eq session_id size s m h = ground arith

new_receiver-manifest :
    (session_id : String) (size : ℕ) (s : SaveSlot) (old : Option Bytes) (backups : Dict Bytes)
    → new_receiver (manifest_fields session_id size s) old backups
      ≡ checked s.slot_id
          (pos (length s.content))
          (pos size)
          (pos (chunk_count (length s.content) size))
          s.sha256
          old
          backups
unfolding new_receiver manifest_fields int_of text_of get get_value to_int
new_receiver-manifest session_id size s old backups =
    rw (text_or_empty s.slot_id, text_or_empty s.sha256)

module _ (sha256 : Bytes → String) where
  -- A save slot whose manifest a receiver accepts, sent chunk by chunk: every chunk is accepted, and
  -- `finalize` returns and puts exactly the slot's bytes into the final file, with the old one as the
  -- backup of its session, slot and second. The slot's hash is that of its bytes, and the file is not
  -- empty.
  pub save_round_trip :
      (session_id ended stamp : String) (size : ℕ) (slot : SaveSlot) (old : Option Bytes)
      (backups : Dict Bytes) (m : Payload) (r : SaveReceiver)
      → slot.sha256 ≡ sha256 slot.content
      → slot.content ≢ []
      → manifest session_id size slot ≡ ok m
      → new_receiver m old backups ≡ ok r
      → (s : SaveReceiver) × (receive_all
            (chunks (chunk_count (length slot.content) size) size 0 slot.content)
            r
          ≡ (ok tt, s))
        × ((finalize sha256 ended stamp s).0 ≡ ok (is_some old))
        × ((finalize sha256 ended stamp s).1.final ≡ some slot.content)
        × ((finalize sha256 ended stamp s).1.backups
            ≡ backed_up (backup_name ended slot.slot_id stamp) old backups)
  save_round_trip session_id ended stamp size slot old backups m r hashed some_bytes sent accepted =
      let m_eq = manifest-eq session_id size slot m sent in
      let n = chunk_count (length slot.content) size in
      let fresh = checked-IsFresh slot.slot_id slot.sha256 slot.content size n old backups r (
        sym (new_receiver-manifest session_id size slot old backups)
        ∙ ap (λ p. new_receiver p old backups) (sym m_eq)
        ∙ accepted) in
      let started : Halfway n [] slot.content r = record {
        stored = rw fresh.partial;
        counted = fresh.received;
        whole = omega (arith, fresh.total);
        left = omega (arith, fresh.next_index, fresh.chunk_count);
      } in
      let (s, run, all) =
        receive_all_lem n [] slot.content r
          (rw fresh.chunk_size (Fits-chunk_count size slot.content fresh.some_size)) started in
      let there = nonempty_partial s.partial slot.content all.stored some_bytes in
      (
        s,
        subst (λ c. receive_all (chunks n c 0 slot.content) r ≡ (ok tt, s)) fresh.chunk_size
            (subst (λ i. receive_all (chunks n r.chunk_size i slot.content) r ≡ (ok tt, s))
              fresh.next_index run),
        unfold finalize in
            ground (
              arith,
              there,
              all.counted,
              all.indexed,
              all.hash,
              fresh.hash,
              hashed,
              all.final,
              fresh.final,
              eq_iff (sha256 slot.content) s.expected_hash,
            ),
        unfold finalize in
            ground (
              arith,
              there,
              all.counted,
              all.indexed,
              all.hash,
              fresh.hash,
              hashed,
              all.final,
              fresh.final,
              eq_iff (sha256 slot.content) s.expected_hash,
            ),
        unfold finalize in
            ground (
              arith,
              there,
              all.counted,
              all.indexed,
              all.hash,
              fresh.hash,
              hashed,
              all.final,
              all.backups,
              all.slot,
              fresh.slot,
              fresh.backups,
              fresh.final,
              eq_iff (sha256 slot.content) s.expected_hash,
            ),
      )

  -- An empty save slot is sent without a chunk, so that no partial file is ever made, and `finalize`
  -- raises FileNotFoundError.
  pub empty_save :
      (session_id ended stamp : String) (size : ℕ) (slot : SaveSlot) (old : Option Bytes)
      (backups : Dict Bytes) (m : Payload) (r : SaveReceiver)
      → slot.content ≡ []
      → manifest session_id size slot ≡ ok m
      → new_receiver m old backups ≡ ok r
      → (chunks (chunk_count (length slot.content) size) size 0 slot.content ≡ [])
        × ((finalize sha256 ended stamp r).0 ≡ raise (os_error "FileNotFoundError"))
  empty_save session_id ended stamp size slot old backups m r empty sent accepted =
      let m_eq = manifest-eq session_id size slot m sent in
      let n = chunk_count (length slot.content) size in
      let fresh = checked-IsFresh slot.slot_id slot.sha256 slot.content size n old backups r (
        sym (new_receiver-manifest session_id size slot old backups)
        ∙ ap (λ p. new_receiver p old backups) (sym m_eq)
        ∙ accepted) in
      let nothing : length slot.content ≡ 0 = rw empty in
      let none_sent : n ≡ 0 = chunk_count-zero (length slot.content) size fresh.some_size nothing in
      (
        (unfold chunks in rw none_sent),
        unfold finalize in
            ground (
              arith, fresh.next_index, fresh.received, fresh.partial, fresh.total,
              fresh.chunk_count, nothing, none_sent,
            ),
      )
