-- ===== src/Travel/State.antt =====
-- TravelPhase, TravelTxn and the fields of TravelCoordinator (kermp/travel.py).
use ker_mp.Prelude.{ℕ, String, Bool, true, false, Option, none, List}

pub data TravelPhase : Type 0 where
  idle waiting_ready committed waiting_zone_ready complete aborted : TravelPhase

pub record TravelTxn : Type 0 where
  pub epoch : ℕ
  pub txn_id : String
  pub zone_id : String
  pub actor_ids : List String
  pub participants : List String
  pub phase : TravelPhase
  pub ready : List String
  pub zone_ready : List String

pub record TravelCoordinator : Type 0 where
  pub current : Option TravelTxn
  pub epoch_count : ℕ

abbrev pub new_coordinator : TravelCoordinator
new_coordinator = record { current = none; epoch_count = 0 }

-- phase in {COMPLETE, ABORTED}
abbrev pub finished : TravelPhase → Bool
finished TravelPhase.complete = true
finished TravelPhase.aborted = true
finished _ = false

abbrev pub is_waiting_ready : TravelPhase → Bool
is_waiting_ready TravelPhase.waiting_ready = true
is_waiting_ready _ = false

abbrev pub is_committed : TravelPhase → Bool
is_committed TravelPhase.committed = true
is_committed _ = false

abbrev pub is_waiting_zone_ready : TravelPhase → Bool
is_waiting_zone_ready TravelPhase.waiting_zone_ready = true
is_waiting_zone_ready _ = false

-- phase in {COMMITTED, WAITING_ZONE_READY}
abbrev pub accepts_zone : TravelPhase → Bool
accepts_zone TravelPhase.committed = true
accepts_zone TravelPhase.waiting_zone_ready = true
accepts_zone _ = false
