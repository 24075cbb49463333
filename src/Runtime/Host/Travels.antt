-- ===== src/Runtime/Host/Travels.antt =====
-- `_start_travel`, `_travel_ready`, `_travel_zone_ready` and the abort of HostRuntime
-- (kermp/runtime.py).
use ker_mp.Prelude.{
  Option, Bool, List, String, [], false, if◌then◌else◌, none, not, some, text_eq, true, ℕ, ◌++◌,
  ◌∷◌,
}
use ker_mp.Prelude.Dict.{get, keys}
use ker_mp.Prelude.Int.{eq_ℤ, pos}
use ker_mp.Prelude.Errors.{Result, assertion_error, key_error, ok, raise}
use ker_mp.Value.{Items, Payload, Value, arr, cons, int, nil, string}
use ker_mp.Protocol.{MessageType}
use ker_mp.Travel.{
  TravelCoordinator, TravelTxn, abort, active, begin_zone_wait, mark_ready, mark_zone_ready,
  propose,
}
use ker_mp.Net.{Body, World, int_at, payload_body}
use ker_mp.Runtime.Bridge.{notify}
use ker_mp.Runtime.Reading.{epoch_of, kind_of, text_at, texts_at}
use ker_mp.Runtime.Host.State.{HostRuntime, Ran, ran, to_game, to_players, with_session}

abbrev pub with_travel : TravelCoordinator → HostRuntime → HostRuntime
with_travel c r = with_session (record r.host.session { travel = c }) r

abbrev pub text_items : List String → Items
text_items [] = nil
text_items (x ∷ xs) = cons (string x) (text_items xs)

abbrev pub txn_fields : TravelTxn → Payload
txn_fields t =
    ("txn_id", string t.txn_id)
    ∷ ("epoch", int (pos t.epoch))
    ∷ ("zone_id", string t.zone_id)
    ∷ ("actor_ids", arr (text_items t.actor_ids))
    ∷ []

abbrev pub batch_fields : TravelTxn → String → Payload
batch_fields t kind =
    ("txn_id", string t.txn_id) ∷ ("epoch", int (pos t.epoch)) ∷ ("kind", string kind) ∷ []

proposed : World → String → Result TravelTxn × TravelCoordinator → HostRuntime → Ran
proposed w requested_by (raise e, c) r = (raise e, with_travel c r)
proposed w requested_by (ok t, c) r =
    let out = payload_body (txn_fields t ++ ("requested_by", string requested_by) ∷ []) in
    let r1 = with_travel c r in
    let r2 = record r1 { bridge = notify "travel.prepare" out r1.bridge } in
    ran (to_players w MessageType.travel_propose out r2)

unfoldable pub start_travel : World → Payload → String → HostRuntime → Ran
unfolding proposed
start_travel w payload requested_by r = elim (texts_at "actor_ids" payload) [
  | raise e ↦ (raise e, r)
  | ok actor_ids ↦
      let zone_id = text_at "zone_id" payload in
      let s = r.host.session in
      if text_eq zone_id ""
      then ran r
      else proposed w requested_by (propose w.fresh zone_id actor_ids (keys s.players) s.travel) r
]

-- What follows a commit: the batch is opened and the commit announced, and then the zone is waited for.
unfoldable pub commit_travel : World → TravelTxn → HostRuntime → Ran
commit_travel w t r =
    let begin = payload_body (batch_fields t "begin") in
    let out = payload_body (txn_fields t) in
    let r1 = to_players w MessageType.travel_view_batch begin r in
    let r2 = to_game MessageType.travel_view_batch begin r1 in
    let r3 = to_game MessageType.travel_commit out r2 in
    let r4 = to_players w MessageType.travel_commit out r3 in
    let (waiting, c) = begin_zone_wait t.txn_id r4.host.session.travel in
    (waiting, with_travel c r4)

-- `assert self.session.travel.current is not None`
unfoldable pub committed : World → Option TravelTxn → HostRuntime → Ran
committed w none r = (raise assertion_error, r)
committed w (some t) r = commit_travel w t r

unfoldable pub marked_ready : World → Result Bool × TravelCoordinator → HostRuntime → Ran
unfolding committed
marked_ready w (raise (key_error k), c) r = ran r
marked_ready w (raise e, c) r = (raise e, r)
marked_ready w (ok false, c) r = ran (with_travel c r)
marked_ready w (ok true, c) r = committed w c.current (with_travel c r)

unfoldable pub travel_ready : World → String → Payload → HostRuntime → Ran
unfolding marked_ready
travel_ready w player_id payload r =
    let txn_id = text_at "txn_id" payload in
    if text_eq txn_id "" then ran r else elim (epoch_of payload) [
      | raise (key_error k) ↦ ran r
      | raise e ↦ (raise e, r)
      | ok epoch ↦ marked_ready w (mark_ready player_id txn_id (some epoch) r.host.session.travel) r
    ]

-- `resume`: everybody is in the zone.
marked_zone_ready : World → String → ℕ → Result Bool × TravelCoordinator → HostRuntime → Ran
marked_zone_ready w txn_id epoch (raise (key_error k), c) r = ran r
marked_zone_ready w txn_id epoch (raise e, c) r = (raise e, r)
marked_zone_ready w txn_id epoch (ok false, c) r = ran (with_travel c r)
marked_zone_ready w txn_id epoch (ok true, c) r =
    let out : Body = payload_body (("txn_id", string txn_id) ∷ ("epoch", int (pos epoch)) ∷ []) in
    ran (
      to_players w MessageType.travel_resume out
        (to_game MessageType.travel_resume out (with_travel c r)))

unfoldable pub travel_zone_ready : World → String → Payload → HostRuntime → Ran
unfolding marked_zone_ready
travel_zone_ready w player_id payload r =
    let txn_id = text_at "txn_id" payload in
    if text_eq txn_id "" then ran r else elim r.host.session.travel.current [
      | none ↦ ran r
      | some expected ↦ elim (epoch_of payload) [
        | raise e ↦ (raise e, r)
        | ok epoch ↦
            if not (eq_ℤ epoch (pos expected.epoch))
            then ran r
            else marked_zone_ready w txn_id expected.epoch
                (mark_zone_ready player_id txn_id (some epoch) r.host.session.travel) r
      ]
    ]

-- TRAVEL_ABORT, from the game or a player; `default` is the reason where none is given.
unfoldable pub abort_travel : World → String → Payload → HostRuntime → Ran
abort_travel w default payload r = elim r.host.session.travel.current [
  | none ↦ ran r
  | some t ↦ elim (epoch_of payload) [
    | raise e ↦ (raise e, r)
    | ok epoch ↦
        if not (eq_ℤ epoch (pos t.epoch))
        then ran r
        else let reason : Value = elim (get "reason" payload) [
          | none ↦ string default
          | some v ↦ v
        ] in
          let out : Payload =
            ("txn_id", string t.txn_id) ∷ ("epoch", int (pos t.epoch)) ∷ ("reason", reason) ∷ [] in
          ran (
            to_players w MessageType.travel_abort (payload_body out)
              (with_travel (abort t.txn_id r.host.session.travel).1 r))
  ]
]

-- TRAVEL_VIEW_BATCH from the host's game
unfoldable pub view_batch : World → Payload → HostRuntime → Ran
view_batch w payload r = elim (int_at "epoch" (pos 0) payload) [
  | raise e ↦ (raise e, r)
  | ok epoch ↦ elim r.host.session.travel.current [
    | none ↦ ran r
    | some active ↦
        if not (eq_ℤ (pos active.epoch) epoch)
        then ran r
        else let kind = kind_of payload in
          let out = payload_body (batch_fields active kind) in
          let r1 = record r { travel_batch_open = text_eq kind "begin" } in
          let r2 =
            if text_eq kind "begin" then to_game MessageType.travel_view_batch out r1 else r1 in
          let r3 = to_players w MessageType.travel_view_batch out r2 in
          ran (if text_eq kind "end" then to_game MessageType.travel_view_batch out r3 else r3)
  ]
]
