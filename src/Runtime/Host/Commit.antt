-- ===== src/Runtime/Host/Commit.antt =====
-- A travel that is agreed on (kermp/runtime.py).
use ker_mp.Prelude.{
  String, [], refl, some, true, ◌++◌, ◌+◌, ◌∷◌, ◌≡◌, Option, arith, eq_refl, inl, inr, append_assoc,
  ap, false, subst, sym, text_eq, ◌∙◌,
}
use ker_mp.Prelude.Int.{ℤ}
use ker_mp.Prelude.Errors.{ok}
use ker_mp.Protocol.{MessageType}
use ker_mp.Travel.Invariant.{get_txn_cases}
use ker_mp.Travel.{
  TravelPhase, TravelTxn, mark_ready, TravelCoordinator, begin_zone_wait, get_txn, mark_ready_txn,
}
use ker_mp.Net.{Body, KerMpHost, World, broadcast, drop_all, log, payload_body, to_all}
use ker_mp.Net.Faults.{failing-nobody}
use ker_mp.Runtime.Host.State.{HostRuntime, Ran, to_game, to_players}
use ker_mp.Runtime.Host.Travels.{
  batch_fields, txn_fields, commit_travel, committed, travel_ready, with_travel, marked_ready,
}
use ker_mp.Value.{Payload}
use ker_mp.Runtime.Reading.{epoch_of, text_at}

-- A broadcast that reaches everybody changes nothing but the number and what was sent.
broadcast-alive :
    (type : MessageType) (body : Body) (h : KerMpHost)
    → broadcast [] type body h
      ≡ record h { seq = h.seq + 1; sent = h.sent ++ to_all (h.seq + 1) type body ∷ [] }
unfolding broadcast log drop_all
broadcast-alive type body h = rw (failing-nobody h.peers) refl

begin_waits :
    (c : TravelCoordinator) (t : TravelTxn)
    → c.current ≡ some t
    → t.phase ≡ TravelPhase.committed
    → begin_zone_wait t.txn_id c
      ≡ (ok tt, record c { current = some (record t { phase = TravelPhase.waiting_zone_ready }) })
unfolding begin_zone_wait get_txn
begin_waits c t h k = ground (arith, h, k, eq_refl t.txn_id)

mark_ready_txn-true :
    (p : String) (e : Option ℤ) (t : TravelTxn)
    → (mark_ready_txn p e t).0 ≡ true
    → (mark_ready_txn p e t).1.phase ≡ TravelPhase.committed
unfolding mark_ready_txn
mark_ready_txn-true p e t h = ground arith

-- A transaction that `mark_ready` has agreed on.
agreed_committed :
    (p txn_id : String) (e : Option ℤ) (c : TravelCoordinator) (t : TravelTxn)
    → (mark_ready p txn_id e c).0 ≡ ok true
    → (mark_ready p txn_id e c).1.current ≡ some t
    → t.phase ≡ TravelPhase.committed
unfolding mark_ready
agreed_committed p txn_id e c t h k = elim (get_txn_cases txn_id c) [
  | inl missing ↦ ground (arith, missing, h)
  | inr (u, _, _, found) ↦
      let same : (mark_ready_txn p e u).1 ≡ t = ground (arith, found, k) in
      let yes : (mark_ready_txn p e u).0 ≡ true = ground (arith, found, h) in
      rw (← same) (mark_ready_txn-true p e u yes)
]

-- What a commit leaves behind and what it has told the players.
pub record Announced (t : TravelTxn) (r : HostRuntime) (x : Ran) : Type 0 where
  pub returns : x.0 ≡ ok tt
  pub waiting :
      x.1.host.session.travel.current ≡ some (record t { phase = TravelPhase.waiting_zone_ready })
  pub told :
      x.1.host.sent
      ≡ r.host.sent
        ++ to_all
            (r.host.seq + 1)
            MessageType.travel_view_batch
            (payload_body (batch_fields t "begin"))
          ∷ to_all (r.host.seq + 2) MessageType.travel_commit (payload_body (txn_fields t))
          ∷ []

commit_travel-Announced :
    (w : World) (t : TravelTxn) (r : HostRuntime)
    → w.dead ≡ []
    → r.host.session.travel.current ≡ some t
    → t.phase ≡ TravelPhase.committed
    → Announced t r (commit_travel w t r)
unfolding commit_travel to_players to_game broadcast drop_all log
commit_travel-Announced w t r alive held agreed =
    let waits = begin_waits r.host.session.travel t held agreed in
    let nobody = failing-nobody r.host.peers in
    let two : r.host.seq + 1 + 1 ≡ r.host.seq + 2 = omega arith in
    record {
      returns = rw (alive, nobody, nobody, waits) refl;
      waiting = rw (alive, nobody, nobody, waits) refl;
      told = rw (alive, nobody, nobody, two) (append_assoc r.host.sent (_ ∷ []) (_ ∷ []));
    }

committed_by :
    (w : World) (c : TravelCoordinator) (t : TravelTxn) (r : HostRuntime)
    → c.current ≡ some t
    → marked_ready w (ok true, c) r ≡ commit_travel w t (with_travel c r)
unfolding marked_ready committed
committed_by w c t r held = ap (λ o. committed w o (with_travel c r)) held

-- When the last player is ready and no connection breaks, the batch is opened and then the commit is
-- announced, to the players in two broadcasts that follow each other, and the transaction waits for the
-- zone.
pub commit-Announced :
    (w : World) (player_id : String) (payload : Payload) (epoch : ℤ) (t : TravelTxn)
    (r : HostRuntime)
    → w.dead ≡ []
    → text_eq (text_at "txn_id" payload) "" ≡ false
    → epoch_of payload ≡ ok epoch
    → (mark_ready player_id (text_at "txn_id" payload) (some epoch) r.host.session.travel).0
      ≡ ok true
    → (mark_ready player_id (text_at "txn_id" payload) (some epoch) r.host.session.travel).1.current
      ≡ some t
    → Announced t r (travel_ready w player_id payload r)
unfolding travel_ready
commit-Announced w player_id payload epoch t r alive named has_epoch agreed now =
    let txn_id = text_at "txn_id" payload in
    let marked = mark_ready player_id txn_id (some epoch) r.host.session.travel in
    let over = agreed_committed player_id txn_id (some epoch) r.host.session.travel t agreed now in
    let told_all = commit_travel-Announced w t (with_travel marked.1 r) alive now over in
    let called : travel_ready w player_id payload r ≡ marked_ready w marked r =
      rw (named, has_epoch) refl in
    let whole =
      called ∙ ap (λ x. marked_ready w (x, marked.1) r) agreed ∙ committed_by w marked.1 t r now in
    subst (Announced t r) (sym whole)
      (record { returns = told_all.returns; waiting = told_all.waiting; told = told_all.told })
