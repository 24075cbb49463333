-- ===== src/Travel/Calls.antt =====
-- The calls that the host makes of its TravelCoordinator (kermp/travel.py), and sequences of them.
use ker_mp.Prelude.{List, Option, String, [], ◌∷◌}
use ker_mp.Prelude.Int.{ℤ}
use ker_mp.Travel.State.{TravelCoordinator}
use ker_mp.Travel.Ops.{
  abort, begin_zone_wait, mark_ready, mark_zone_ready, propose, remove_participant,
}

pub data TravelCall : Type 0 where
  call_propose : String → String → List String → List String → TravelCall
  call_ready : String → String → Option ℤ → TravelCall
  call_zone_wait : String → TravelCall
  call_zone_ready : String → String → Option ℤ → TravelCall
  call_abort : String → TravelCall
  call_remove : String → TravelCall

-- The coordinator after a call, whether the call returns or raises.
unfoldable pub after : TravelCall → TravelCoordinator → TravelCoordinator
after (call_propose fresh zone_id actor_ids participants) c =
    (propose fresh zone_id actor_ids participants c).1
after (call_ready player_id txn_id epoch) c = (mark_ready player_id txn_id epoch c).1
after (call_zone_wait txn_id) c = (begin_zone_wait txn_id c).1
after (call_zone_ready player_id txn_id epoch) c = (mark_zone_ready player_id txn_id epoch c).1
after (call_abort txn_id) c = (abort txn_id c).1
after (call_remove player_id) c = (remove_participant player_id c).1

unfoldable pub after_all : List TravelCall → TravelCoordinator → TravelCoordinator
after_all [] c = c
after_all (x ∷ xs) c = after_all xs (after x c)
