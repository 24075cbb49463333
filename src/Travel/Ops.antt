-- ===== src/Travel/Ops.antt =====
-- The methods of TravelCoordinator (kermp/travel.py). `uuid.uuid4()` is the argument `fresh`.
use ker_mp.Prelude.{
  ◌+◌, String, Bool, true, false, not, ◌&&◌, Option, none, some, List, [], text_eq, if◌then◌else◌,
}
use ker_mp.Prelude.Int.{ℤ, pos, eq_ℤ}
use ker_mp.Prelude.Sets.{contains, add, discard, to_set, set_eq}
use ker_mp.Prelude.Errors.{Result, ok, raise, key_error, runtime_error, value_error}
use ker_mp.Travel.State.{
  TravelPhase, TravelTxn, TravelCoordinator, finished, is_waiting_ready, is_committed,
  is_waiting_zone_ready, accepts_zone,
}

-- A transaction is under way: `self.current and self.current.phase not in {COMPLETE, ABORTED}`.
unfoldable pub active : TravelCoordinator → Bool
active c = elim c.current [ none ↦ false | some t ↦ not (finished t.phase) ]

unfoldable pub is_empty : List String → Bool
is_empty [] = true
is_empty _ = false

unfoldable pub propose :
    String
    → String
    → List String
    → List String
    → TravelCoordinator
    → Result TravelTxn × TravelCoordinator
unfolding active is_empty
propose fresh zone_id actor_ids participants c =
    if active c
    then (raise (runtime_error "travel already in progress"), c)
    else let p = to_set participants in
      if is_empty p
      then (raise (value_error "travel requires at least one participant"), c)
      else let epoch = c.epoch_count + 1 in
        let t : TravelTxn = record {
          epoch = epoch;
          txn_id = fresh;
          zone_id = zone_id;
          actor_ids = actor_ids;
          participants = p;
          phase = TravelPhase.waiting_ready;
          ready = [];
          zone_ready = [];
        } in
        (ok t, record { current = some t; epoch_count = epoch })

-- `_get`
unfoldable pub get_txn : String → TravelCoordinator → Result TravelTxn
get_txn txn_id c = elim c.current [
  | none ↦ raise (key_error "unknown travel transaction")
  | some t ↦
      if text_eq t.txn_id txn_id then ok t else raise (key_error "unknown travel transaction")
]

-- `epoch is not None and int(epoch) != t.epoch`
abbrev pub stale : Option ℤ → TravelTxn → Bool
stale none t = false
stale (some e) t = not (eq_ℤ e (pos t.epoch))

-- The body of a method on the transaction that `_get` finds.
abbrev pub on_txn {ℓ} :
    {A : Type ℓ}
    → Result TravelTxn
    → (TravelTxn → A × TravelTxn)
    → TravelCoordinator
    → Result A × TravelCoordinator
on_txn (raise e) f c = (raise e, c)
on_txn (ok t) f c = let (a, t') = f t in (ok a, record c { current = some t' })

-- `if player_id in t.participants: s.add(player_id)`
unfoldable pub counted : String → List String → List String → List String
counted player_id participants s = if contains player_id participants then add player_id s else s

unfoldable pub mark_ready_txn : String → Option ℤ → TravelTxn → Bool × TravelTxn
mark_ready_txn player_id epoch t =
    if stale epoch t
    then (false, t)
    else if not (is_waiting_ready t.phase)
    then (false, t)
    else let ready = counted player_id t.participants t.ready in
      if set_eq ready t.participants
      then (true, record t { ready = ready; phase = TravelPhase.committed })
      else (false, record t { ready = ready })

unfoldable pub mark_ready :
    String → String → Option ℤ → TravelCoordinator → Result Bool × TravelCoordinator
unfolding mark_ready_txn
mark_ready player_id txn_id epoch c = on_txn (get_txn txn_id c) (mark_ready_txn player_id epoch) c

unfoldable pub begin_zone_wait : String → TravelCoordinator → Result (Unit {0}) × TravelCoordinator
begin_zone_wait txn_id c = elim (get_txn txn_id c) [
  | raise e ↦ (raise e, c)
  | ok t ↦
      if not (is_committed t.phase)
      then (raise (runtime_error "cannot wait for zone before commit"), c)
      else (
        ok tt,
        record c { current = some (record t { phase = TravelPhase.waiting_zone_ready }) },
      )
]

unfoldable pub mark_zone_ready_txn : String → Option ℤ → TravelTxn → Bool × TravelTxn
mark_zone_ready_txn player_id epoch t =
    if stale epoch t
    then (false, t)
    else if not (accepts_zone t.phase)
    then (false, t)
    else let zone_ready = counted player_id t.participants t.zone_ready in
      if set_eq zone_ready t.participants
      then (true, record t { zone_ready = zone_ready; phase = TravelPhase.complete })
      else (false, record t { zone_ready = zone_ready; phase = TravelPhase.waiting_zone_ready })

unfoldable pub mark_zone_ready :
    String → String → Option ℤ → TravelCoordinator → Result Bool × TravelCoordinator
unfolding mark_zone_ready_txn
mark_zone_ready player_id txn_id epoch c =
    on_txn (get_txn txn_id c) (mark_zone_ready_txn player_id epoch) c

unfoldable pub abort : String → TravelCoordinator → Result (Unit {0}) × TravelCoordinator
abort txn_id c = on_txn (get_txn txn_id c) (λ t. (tt, record t { phase = TravelPhase.aborted })) c

-- `remove_participant` on a transaction that is under way
unfoldable pub remove_txn : String → TravelTxn → TravelTxn
remove_txn player_id t =
    let participants = discard player_id t.participants in
    let ready = discard player_id t.ready in
    let zone_ready = discard player_id t.zone_ready in
    let phase =
      if is_waiting_ready t.phase && set_eq ready participants
      then TravelPhase.committed
      else if is_waiting_zone_ready t.phase && set_eq zone_ready participants
      then TravelPhase.complete
      else t.phase in
    record t { participants = participants; ready = ready; zone_ready = zone_ready; phase = phase }

unfoldable pub remove_participant : String → TravelCoordinator → Bool × TravelCoordinator
unfolding remove_txn
remove_participant player_id c = elim c.current [
  | none ↦ (false, c)
  | some t ↦
      if finished t.phase
      then (false, c)
      else (true, record c { current = some (remove_txn player_id t) })
]

-- `snapshot`, with the sets as they stand: `sorted` only orders them for the wire
unfoldable pub snapshot : TravelCoordinator → Option TravelTxn
snapshot c = elim c.current [ none ↦ none | some t ↦ if finished t.phase then none else some t ]
