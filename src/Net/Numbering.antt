-- ===== src/Net/Numbering.antt =====
-- The numbers of the host's broadcasts and of the messages it takes (kermp/net.py), over whole runs.
use ker_mp.Prelude.{
  List, Option, String, [], ap, append_assoc, false, refl, ◌++◌, ◌∙◌, ◌∷◌, ◌≡◌, Bool-cases,
  append-nil, arith, inl, inr, none, some, sym, text_eq, Bool, ◌||◌, subst,
}
use ker_mp.Prelude.Dict.{Dict, get, has_key}
use ker_mp.Prelude.Int.{ℤ}
use ker_mp.Prelude.Errors.{ok, raise, Result}
use ker_mp.Protocol.{MessageType}
use ker_mp.Session.{HostSession}
use ker_mp.Net.State.{
  Body, KerMpHost, Message, Peer, Sent, World, reason_body, to_stranger, to_peer,
}
use ker_mp.Net.Sending.{broadcast, drop_peer, log, send_error}
use ker_mp.Net.Dispatch.{Handled, dispatch_message}
use ker_mp.Net.Connection.{
  Hello, after_dispatch, greet, note_seq, receive, seen_before, is_hello, new_host, own_manifest,
  admit, refuse,
}
use ker_mp.Net.Ordering.{
  Continues, Numbered, Numbered-append, Numbered-single, drop_peer-Continues, is_broadcast,
  write_to-Continues, Continues-log, broadcast-Continues,
}
use ker_mp.Net.Handlers.{dispatch_type-Continues}
use ker_mp.Compatibility.{CompatibilityManifest}

-- What can happen to a host, the broadcasts of its own runtime included.
pub data Event : Type 0 where
  arrives : Hello → Event
  says : World → String → Message → Event
  announces : List String → MessageType → Body → Event
  leaves : String → Event

unfoldable pub happen : Event → KerMpHost → KerMpHost
happen (arrives x) h = (greet x h).1
happen (says w id m) h = (receive w id m h).1
happen (announces dead type body) h = broadcast dead type body h
happen (leaves id) h = drop_peer id h

unfoldable pub run : List Event → KerMpHost → KerMpHost
run [] h = h
run (e ∷ es) h = run es (happen e h)

-- `Continues` without its word on the peers.
pub record Follows (a b : KerMpHost) : Type 0 where
  pub more : List Sent
  pub sent : b.sent ≡ a.sent ++ more
  pub numbered : Numbered a.seq more b.seq

follows : {a b : KerMpHost} → Continues a b → Follows a b
follows c = record { more = c.more; sent = c.sent; numbered = c.numbered }

Follows-trans : {a b c : KerMpHost} → Follows a b → Follows b c → Follows a c
Follows-trans {a} {b} {c} x y = record {
  more = x.more ++ y.more;
  sent = y.sent ∙ ap (λ t. t ++ y.more) x.sent ∙ append_assoc a.sent x.more y.more;
  numbered = Numbered-append a.seq b.seq c.seq x.more y.more x.numbered y.numbered;
}

-- Other peers and another session, and a message that has no number.
Follows-log :
    (x : Sent) (a : KerMpHost) (peers : Dict Peer) (session : HostSession)
    → is_broadcast x ≡ false
    → Follows a (log x (record a { peers = peers; session = session }))
unfolding log
Follows-log x a peers session h = record {
  more = x ∷ [];
  sent = refl;
  numbered = Numbered-single a.seq x h;
}

Follows-same : {a b : KerMpHost} → a.sent ≡ b.sent → a.seq ≡ b.seq → Follows a b
Follows-same {a} s n = record { more = []; sent = sym s ∙ sym (append-nil a.sent); numbered = n }

note_seq-Follows : (id : String) (n : Option ℤ) (a : KerMpHost) → Follows a (note_seq id n a)
unfolding note_seq
note_seq-Follows id none a = Follows-same refl refl
note_seq-Follows id (some n) a = Follows-same (ground arith) (ground arith)

after_dispatch-Follows :
    (id : String) (a : KerMpHost) (r : Handled) → Follows a r.1 → Follows a (after_dispatch id r).1
after_dispatch-Follows id a (ok x, b) f = f
after_dispatch-Follows id a (raise e, b) f = Follows-trans f (follows (drop_peer-Continues id b))

receive-Follows :
    (w : World) (id : String) (m : Message) (a : KerMpHost) → Follows a (receive w id m a).1
unfolding receive send_error dispatch_message
receive-Follows w id m a =
    let noted = note_seq id m.seq a in
    let answered = Follows-trans (note_seq-Follows id m.seq a) (
      after_dispatch-Follows id noted (dispatch_message w m noted)
        (follows (dispatch_type-Continues m.type w m noted))) in
    elim (Bool-cases (text_eq m.sender_id id)) [
      | inr e ↦
          rw e
            (follows (write_to-Continues id MessageType.error (reason_body "sender_id_mismatch") a))
      | inl e ↦ elim (Bool-cases (seen_before m.seq (get id a.peers))) [
        | inl f ↦ rw (e, f) (Follows-same refl refl)
        | inr f ↦ rw (e, f) answered
      ]
    ]

refuse-Follows : (reason id : String) (a : KerMpHost) → Follows a (refuse reason id a).1
unfolding refuse
refuse-Follows reason id a =
    let told = log (to_stranger MessageType.error (reason_body reason)) a in
    Follows-trans
      (follows (Continues-log (to_stranger MessageType.error (reason_body reason)) a refl))
      (follows (drop_peer-Continues id told))

admit-Follows :
    (x : Hello) (r : Result CompatibilityManifest) (a : KerMpHost) → Follows a (admit x r a).1
unfolding admit
admit-Follows x (raise e) a = refuse-Follows _ x.sender_id a
admit-Follows x (ok m) a = Follows-log (to_peer x.sender_id MessageType.welcome _) a _ _ refl

greet-Follows : (x : Hello) (a : KerMpHost) → Follows a (greet x a).1
unfolding greet
greet-Follows x a = elim (Bool-cases (is_hello x.type)) [
  | inr e ↦ rw e (Follows-same refl refl)
  | inl e ↦ elim (Bool-cases (has_key x.sender_id a.peers || text_eq x.sender_id a.player_id)) [
    | inl f ↦ rw (e, f) (refuse-Follows "duplicate_player_id" x.sender_id a)
    | inr f ↦ rw (e, f) (admit-Follows x (own_manifest x) a)
  ]
]

happen-Follows : (e : Event) (a : KerMpHost) → Follows a (happen e a)
unfolding happen
happen-Follows (arrives x) a = greet-Follows x a
happen-Follows (says w id m) a = receive-Follows w id m a
happen-Follows (announces dead type body) a = follows (broadcast-Continues dead type body a)
happen-Follows (leaves id) a = follows (drop_peer-Continues id a)

run-Follows : (es : List Event) (a : KerMpHost) → Follows a (run es a)
unfolding run
run-Follows [] a = Follows-same refl refl
run-Follows (e ∷ es) a = Follows-trans (happen-Follows e a) (run-Follows es (happen e a))

-- Whatever happens to a new host, in any order, its broadcasts have the numbers 1, 2, … without a gap,
-- and `_seq` is the number of the last one.
pub run-Numbered :
    (session_id player_id display_name : String) (manifest : CompatibilityManifest) (native : Bool)
    (es : List Event)
    → Numbered 0
        (run es (new_host session_id player_id display_name manifest native)).sent
        (run es (new_host session_id player_id display_name manifest native)).seq
unfolding new_host
run-Numbered session_id player_id display_name manifest native es =
    let h = new_host session_id player_id display_name manifest native in
    let f = run-Follows es h in subst (λ t. Numbered 0 t (run es h).seq) (sym f.sent) f.numbered
