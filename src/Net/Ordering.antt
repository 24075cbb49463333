-- ===== src/Net/Ordering.antt =====
-- The numbers of the host's broadcasts (kermp/net.py), whatever messages come in.
use ker_mp.Prelude.{
  Bool, Bool-cases, List, String, [], ap, append-nil, append_assoc, arith, false, inl, inr, refl,
  some, sym, true, ℕ, ◌++◌, ◌+◌, ◌∙◌, ◌∷◌, ◌≡◌,
}
use ker_mp.Prelude.Dict.{get, get-pop, has_key}
use ker_mp.Prelude.Errors.{PyError, Result, ok, raise}
use ker_mp.Protocol.{MessageType}
use ker_mp.Session.{HostSession}
use ker_mp.Net.State.{Body, KerMpHost, Peer, Sent, World, reason_body, to_all, to_host, to_peer}
use ker_mp.Net.Sending.{
  broadcast, broadcast_all, drop_all, drop_peer, failing, log, send_error, write_to,
}
use ker_mp.Net.Requests.{error_text}
use ker_mp.Net.Dispatch.{announce, on_error}

-- The broadcasts among `xs` have the numbers from `n + 1` to `m`, in this order.
abbrev pub Numbered : ℕ → List Sent → ℕ → Type 0
Numbered n [] m = n ≡ m
Numbered n (to_all k type body ∷ xs) m = (k ≡ n + 1) × Numbered (n + 1) xs m
Numbered n (_ ∷ xs) m = Numbered n xs m

pub Numbered-append :
    (n m k : ℕ) (xs ys : List Sent) → Numbered n xs m → Numbered m ys k → Numbered n (xs ++ ys) k
Numbered-append n m k [] ys a b = rw a b
Numbered-append n m k (to_all i type body ∷ xs) ys a b =
    (a.0, Numbered-append (n + 1) m k xs ys a.1 b)
Numbered-append n m k (to_peer id type body ∷ xs) ys a b = Numbered-append n m k xs ys a b
Numbered-append n m k (_ ∷ xs) ys a b = Numbered-append n m k xs ys a b

-- From `a` to `b` messages were sent, with the numbers that follow, and peers were at most dropped.
pub record Continues (a b : KerMpHost) : Type 0 where
  pub more : List Sent
  pub sent : b.sent ≡ a.sent ++ more
  pub numbered : Numbered a.seq more b.seq
  pub peers : (id : String) (p : Peer) → get id b.peers ≡ some p → get id a.peers ≡ some p

pub Continues-trans : {a b c : KerMpHost} → Continues a b → Continues b c → Continues a c
Continues-trans {a} {b} {c} x y = record {
  more = x.more ++ y.more;
  sent = y.sent ∙ ap (λ t. t ++ y.more) x.sent ∙ append_assoc a.sent x.more y.more;
  numbered = Numbered-append a.seq b.seq c.seq x.more y.more x.numbered y.numbered;
  peers = λ id p h. x.peers id p (y.peers id p h);
}

-- Another session, and nothing sent.
pub Continues-session : (a : KerMpHost) (s : HostSession) → Continues a (record a { session = s })
Continues-session a s = record {
  more = [];
  sent = sym (append-nil a.sent);
  numbered = refl;
  peers = λ id p h. h;
}

pub Continues-refl : (a : KerMpHost) → Continues a a
Continues-refl a = Continues-session a a.session

abbrev pub is_broadcast : Sent → Bool
is_broadcast (to_all n type body) = true
is_broadcast _ = false

pub Numbered-single : (n : ℕ) (x : Sent) → is_broadcast x ≡ false → Numbered n (x ∷ []) n
Numbered-single n (to_all k type body) h = cc
Numbered-single n (to_peer id type body) h = refl
Numbered-single n _ h = refl

pub Continues-log : (x : Sent) (a : KerMpHost) → is_broadcast x ≡ false → Continues a (log x a)
unfolding log
Continues-log x a h = record {
  more = x ∷ [];
  sent = refl;
  numbered = Numbered-single a.seq x h;
  peers = λ id p g. g;
}

pub write_to-Continues :
    (id : String) (type : MessageType) (body : Body) (a : KerMpHost)
    → Continues a (write_to id type body a)
unfolding write_to
write_to-Continues id type body a = elim (Bool-cases (has_key id a.peers)) [
  | inl e ↦ rw e (Continues-log (to_peer id type body) a refl)
  | inr e ↦ rw e (Continues-refl a)
]

pub drop_peer-Continues : (id : String) (a : KerMpHost) → Continues a (drop_peer id a)
unfolding drop_peer
drop_peer-Continues id a = record {
  more = [];
  sent = sym (append-nil a.sent);
  numbered = refl;
  peers = λ j p h. ground (arith, h, get-pop id j a.peers);
}

drop_all-Continues : (ids : List String) (a : KerMpHost) → Continues a (drop_all ids a)
unfolding drop_all
drop_all-Continues [] a = Continues-refl a
drop_all-Continues (id ∷ ids) a =
    Continues-trans (drop_peer-Continues id a) (drop_all-Continues ids (drop_peer id a))

pub broadcast-Continues :
    (dead : List String) (type : MessageType) (body : Body) (a : KerMpHost)
    → Continues a (broadcast dead type body a)
unfolding broadcast log
broadcast-Continues dead type body a =
    let seq = a.seq + 1 in
    let numbered : Continues a
        (record a { seq = seq; sent = a.sent ++ to_all seq type body ∷ [] }) =
      record {
        more = to_all seq type body ∷ [];
        sent = refl;
        numbered = (refl, refl);
        peers = λ id p h. h;
      } in
    Continues-trans numbered (drop_all-Continues (failing dead a.peers) _)

pub broadcast_all-Continues :
    (dead : List String) (type : MessageType) (body : Body) (a : KerMpHost)
    → Continues a (broadcast_all dead type body a)
unfolding broadcast_all
broadcast_all-Continues dead type body a =
    Continues-trans (broadcast-Continues dead type body a)
      (Continues-log (to_host type body) (broadcast dead type body a) refl)

pub on_error-Continues :
    (caught : PyError → Bool) (id : String) (e : PyError) (a : KerMpHost)
    → Continues a (on_error caught id e a).1
unfolding send_error
on_error-Continues caught id e a = elim (Bool-cases (caught e)) [
  | inl c ↦ rw c (write_to-Continues id MessageType.error (reason_body (error_text e)) a)
  | inr c ↦ rw c (Continues-refl a)
]

pub announce-Continues :
    {A : Type 0} (caught : PyError → Bool) (id : String) (w : World) (type : MessageType)
    (body : A → Body) (r : Result A × HostSession) (a : KerMpHost)
    → Continues a (announce caught id w type body r a).1
announce-Continues caught id w type body (raise e, s) a =
    Continues-trans (Continues-session a s)
      (on_error-Continues caught id e (record a { session = s }))
announce-Continues caught id w type body (ok x, s) a =
    Continues-trans (Continues-session a s)
      (broadcast_all-Continues w.dead type (body x) (record a { session = s }))

-- Another session, then a broadcast.
pub told-Continues :
    (dead : List String) (type : MessageType) (body : Body) (s : HostSession) (a : KerMpHost)
    → Continues a (broadcast dead type body (record a { session = s }))
told-Continues dead type body s a =
    Continues-trans (Continues-session a s)
      (broadcast-Continues dead type body (record a { session = s }))

pub told_all-Continues :
    (dead : List String) (type : MessageType) (body : Body) (s : HostSession) (a : KerMpHost)
    → Continues a (broadcast_all dead type body (record a { session = s }))
told_all-Continues dead type body s a =
    Continues-trans (Continues-session a s)
      (broadcast_all-Continues dead type body (record a { session = s }))
