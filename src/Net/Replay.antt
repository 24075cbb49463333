-- ===== src/Net/Replay.antt =====
-- Messages with a number that the host has already taken (kermp/net.py).
use ker_mp.Prelude.{
  String, arith, eq_refl, false, none, refl, some, ◌≡◌, ◌⊎◌, Bool-cases, Option, inl, inr, sym,
  true,
}
use ker_mp.Prelude.Dict.{get, get-put}
use ker_mp.Prelude.Int.{lt_ℤ, negsuc, pos, ℤ}
use ker_mp.Net.State.{KerMpHost, Message, Peer, World}
use ker_mp.Net.Dispatch.{dispatch_message, Handled, dispatch_type}
use ker_mp.Net.Connection.{after_dispatch, note_seq, receive, seen_before, serving}
use ker_mp.Prelude.Errors.{ok, raise}
use ker_mp.Net.Ordering.{drop_peer-Continues}
use ker_mp.Net.Handlers.{dispatch_type-Continues}

le_trans : (a b c : ℤ) → lt_ℤ a b ≡ false → lt_ℤ b c ≡ false → lt_ℤ a c ≡ false
le_trans (pos a) (pos b) (pos c) h g = ground arith
le_trans (pos a) (pos b) (negsuc c) h g = refl
le_trans (pos a) (negsuc b) (pos c) h g = ground arith
le_trans (pos a) (negsuc b) (negsuc c) h g = refl
le_trans (negsuc a) (pos b) (pos c) h g = ground arith
le_trans (negsuc a) (pos b) (negsuc c) h g = ground arith
le_trans (negsuc a) (negsuc b) (pos c) h g = ground arith
le_trans (negsuc a) (negsuc b) (negsuc c) h g = ground arith

noted_at :
    (id : String) (k : ℤ) (h : KerMpHost) (o : Option Peer) (p : Peer)
    → get id h.peers ≡ o
    → get id (note_seq id (some k) h).peers ≡ some p
    → p.last_seq ≡ k
unfolding note_seq
noted_at id k h none p at e = ground (arith, at, e)
noted_at id k h (some q) p at e =
    ground (arith, at, e, eq_refl id, get-put id id (record q { last_seq = k }) h.peers)

noted_seq :
    (id : String) (k : ℤ) (h : KerMpHost) (p : Peer)
    → get id (note_seq id (some k) h).peers ≡ some p
    → p.last_seq ≡ k
noted_seq id k h p e = noted_at id k h (get id h.peers) p refl e

dropped-peers :
    (id : String) (r : Handled) (p : Peer)
    → get id (after_dispatch id r).1.peers ≡ some p
    → get id r.1.peers ≡ some p
dropped-peers id (ok x, b) p e = e
dropped-peers id (raise x, b) p e = (drop_peer-Continues id b).peers id p e

after_dispatch-peers :
    (id : String) (w : World) (m : Message) (a : KerMpHost) (p : Peer)
    → get id (after_dispatch id (dispatch_message w m a)).1.peers ≡ some p
    → get id a.peers ≡ some p
unfolding dispatch_message
after_dispatch-peers id w m a p e =
    (dispatch_type-Continues m.type w m a).peers id p
      (dropped-peers id (dispatch_type m.type w m a) p e)

seen_at :
    (v : World) (id : String) (n : Message) (j : ℤ) (h : KerMpHost) (o : Option Peer)
    → get id h.peers ≡ o
    → n.sender_id ≡ id
    → n.seq ≡ some j
    → ((p : Peer) → get id h.peers ≡ some p → lt_ℤ p.last_seq j ≡ false)
    → (get id h.peers ≡ none) ⊎ (receive v id n h ≡ (serving, h))
unfolding receive seen_before
seen_at v id n j h none at from numbered last = inl at
seen_at v id n j h (some p) at from numbered last =
    inr (rw (from, numbered, at, eq_refl id, last p at) refl)

last_seen :
    (q : Option ℤ) (o : Option Peer) (k : ℤ) (p : Peer)
    → q ≡ some k
    → seen_before q o ≡ true
    → o ≡ some p
    → lt_ℤ p.last_seq k ≡ false
unfolding seen_before
last_seen none o k p qk e at = ground (arith, qk)
last_seen (some l) none k p qk e at = ground (arith, at)
last_seen (some l) (some q) k p qk e at =
    let same : l ≡ k = ground (arith, qk) in
    let peer : q ≡ p = ground (arith, at) in
    let before : lt_ℤ q.last_seq l ≡ false = ground (arith, e) in rw (sym same, sym peer) before

lt_ℤ_irrefl : (a : ℤ) → lt_ℤ a a ≡ false
lt_ℤ_irrefl (pos a) = ground arith
lt_ℤ_irrefl (negsuc a) = ground arith

last_received :
    (w : World) (id : String) (m : Message) (k : ℤ) (h : KerMpHost) (p : Peer)
    → m.sender_id ≡ id
    → m.seq ≡ some k
    → get id (receive w id m h).1.peers ≡ some p
    → lt_ℤ p.last_seq k ≡ false
unfolding receive
last_received w id m k h p from mk = elim (Bool-cases (seen_before m.seq (get id h.peers))) [
  | inl f ↦ rw (from, f, eq_refl id) (last_seen m.seq (get id h.peers) k p mk f)
  | inr f ↦
      rw (from, f, eq_refl id, mk)
        (λ e.
          rw (noted_seq id k h p (after_dispatch-peers id w _ (note_seq id (some k) h) p e))
            (lt_ℤ_irrefl k))
]

-- After a message with the number `k` on the connection of `id`, either the peer is gone, or a message
-- from it with `k` or a smaller number changes nothing and nothing is sent for it.
pub replay_ignored :
    (w v : World) (id : String) (m n : Message) (k j : ℤ) (h : KerMpHost)
    → m.sender_id ≡ id
    → n.sender_id ≡ id
    → m.seq ≡ some k
    → n.seq ≡ some j
    → lt_ℤ k j ≡ false
    → (get id (receive w id m h).1.peers ≡ none)
      ⊎ (receive v id n (receive w id m h).1 ≡ (serving, (receive w id m h).1))
replay_ignored w v id m n k j h from from' mk nj le =
    let h' = (receive w id m h).1 in
    seen_at v id n j h' (get id h'.peers) refl from' nj
      (λ p e. le_trans p.last_seq k j (last_received w id m k h p from mk e) le)
