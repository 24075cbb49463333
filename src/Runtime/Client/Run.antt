-- ===== src/Runtime/Client/Run.antt =====
-- Whole runs of ClientRuntime (kermp/runtime.py): what comes from the game and from the host, in any
-- order. An exception ends the run, as it ends the client's loop.
use ker_mp.Prelude.{List, String, [], refl, true, ℕ, ◌∷◌, Option, arith, length, none, some, ◌≤◌}
use ker_mp.Prelude.Int.{ℤ, pos}
use ker_mp.Prelude.Errors.{Result, ok, raise}
use ker_mp.Value.{Payload}
use ker_mp.Protocol.{MessageType}
use ker_mp.SaveSync.{Bytes, SaveReceiver, finalize}
use ker_mp.Runtime.Bridge.{BridgeEvent}
use ker_mp.Runtime.Client.State.{
  ClientRuntime, Went, and_next, went, SavedFile, max_buffered_view_updates, new_client,
}
use ker_mp.Runtime.Client.Views.{mark_local_zone_loaded}
use ker_mp.Runtime.Client.Game.{on_client_event}
use ker_mp.Runtime.Client.Messages.{on_host_type, pass_down}
use ker_mp.Runtime.Client.InOrder.{
  InOrder, Sound, same_order, tell_game-InOrder, InOrder-Showable, Showable,
}
use ker_mp.Prelude.Dict.{Dict}
use ker_mp.Prelude.Rising.{Rising}
use ker_mp.Protocol.Names.{type_text}
use ker_mp.Runtime.Client.Saves.{
  end_at, finalized, on_save_chunk, on_save_end, on_save_manifest, save_failed,
}
use ker_mp.Runtime.Client.Shown.{shown}
use ker_mp.Runtime.Client.Quiet.{
  chunk_at-Sound, finalized-InOrder, on_client_event-Sound, on_lock_state-InOrder, send_up-InOrder,
  with_receiver-Sound,
}
use ker_mp.Runtime.Client.Keeps.{
  mark_local_zone_loaded-Sound, on_batch-Sound, on_propose-Sound, on_resume-Sound, on_view-Sound,
  and_next-Sound,
}

pub data Input : Type 0 where
  from_game : BridgeEvent → Input
  from_host : MessageType → Payload → Input
  zone_loaded : ℤ → Input
  -- the game connects, and that many writes will reach it
  game_connects : ℕ → Input
  -- the clock goes on
  clock_shows : String → Input

module _ (decode : String → Result Bytes) (sha256 : Bytes → String) where
  unfoldable pub client_step : Input → ClientRuntime → Went
  client_step (from_game e) c = on_client_event e c
  client_step (from_host t d) c = on_host_type decode sha256 t d c
  client_step (zone_loaded epoch) c = mark_local_zone_loaded decode epoch c
  client_step (game_connects n) c =
      went (record c { bridge = record c.bridge { connected = true; writes_left = n } })
  client_step (clock_shows stamp) c = went (record c { stamp = stamp })

  unfoldable pub client_run : List Input → ClientRuntime → Went
  client_run [] c = went c
  client_run (x ∷ xs) c = and_next (client_step x c) (λ c'. client_run xs c')

module _ (decode : String → Result Bytes) (sha256 : Bytes → String) where
  end_at-Sound :
      (id : String) (o : Option SaveReceiver) (c : ClientRuntime)
      → InOrder c
      → Sound (end_at sha256 id o c)
  unfolding end_at save_failed
  end_at-Sound id none c v = send_up-InOrder _ _ c v
  end_at-Sound id (some s) c v =
      same_order (finalized (finalize sha256 id c.stamp s) c) _ refl refl refl refl
        (finalized-InOrder (finalize sha256 id c.stamp s) c v)

  on_host_type-Sound :
      (t : MessageType) (d : Payload) (c : ClientRuntime)
      → InOrder c
      → Sound (on_host_type decode sha256 t d c)
  unfolding on_host_type pass_down type_text on_save_manifest on_save_chunk on_save_end
  on_host_type-Sound MessageType.save_manifest d c v = with_receiver-Sound _ c v
  on_host_type-Sound MessageType.save_chunk d c v = chunk_at-Sound _ _ c v
  on_host_type-Sound MessageType.save_end d c v = end_at-Sound _ _ c v
  on_host_type-Sound MessageType.game_raw_message d c v = on_view-Sound decode d c v
  on_host_type-Sound MessageType.travel_view_batch d c v = on_batch-Sound decode d c v
  on_host_type-Sound MessageType.travel_propose d c v = on_propose-Sound d c v
  on_host_type-Sound MessageType.travel_resume d c v = on_resume-Sound decode d c v
  on_host_type-Sound MessageType.build_lock_state d c v = on_lock_state-InOrder d c v
  on_host_type-Sound MessageType.travel_commit d c v = tell_game-InOrder _ _ c refl v
  on_host_type-Sound MessageType.travel_abort d c v = tell_game-InOrder _ _ c refl v
  on_host_type-Sound MessageType.build_apply d c v = tell_game-InOrder _ _ c refl v
  on_host_type-Sound MessageType.clock_state d c v = tell_game-InOrder _ _ c refl v
  on_host_type-Sound MessageType.sim_state d c v = tell_game-InOrder _ _ c refl v
  on_host_type-Sound MessageType.sim_selection_state d c v = tell_game-InOrder _ _ c refl v
  on_host_type-Sound MessageType.interaction_accepted d c v = tell_game-InOrder _ _ c refl v
  on_host_type-Sound MessageType.interaction_rejected d c v = tell_game-InOrder _ _ c refl v
  on_host_type-Sound MessageType.interaction_command_accepted d c v = tell_game-InOrder _ _ c refl v
  on_host_type-Sound MessageType.interaction_command_rejected d c v = tell_game-InOrder _ _ c refl v
  on_host_type-Sound MessageType.interaction_queued d c v = tell_game-InOrder _ _ c refl v
  on_host_type-Sound MessageType.interaction_started d c v = tell_game-InOrder _ _ c refl v
  on_host_type-Sound MessageType.interaction_finished d c v = tell_game-InOrder _ _ c refl v
  on_host_type-Sound MessageType.interaction_cancel d c v = tell_game-InOrder _ _ c refl v
  on_host_type-Sound MessageType.error d c v = tell_game-InOrder _ _ c refl v
  on_host_type-Sound _ d c v = v

  client_step-Sound :
      (x : Input) (c : ClientRuntime) → InOrder c → Sound (client_step decode sha256 x c)
  unfolding client_step
  client_step-Sound (from_game e) c v = on_client_event-Sound e c v
  client_step-Sound (from_host t d) c v = on_host_type-Sound t d c v
  client_step-Sound (zone_loaded epoch) c v = mark_local_zone_loaded-Sound decode epoch c v
  client_step-Sound (game_connects n) c v = same_order c _ refl refl refl refl v
  client_step-Sound (clock_shows stamp) c v = same_order c _ refl refl refl refl v

  client_run-Sound :
      (xs : List Input) (c : ClientRuntime) → InOrder c → Sound (client_run decode sha256 xs c)
  unfolding client_run
  client_run-Sound [] c v = v
  client_run-Sound (x ∷ xs) c v =
      and_next-Sound _ _ (client_step-Sound x c v) (λ b w. client_run-Sound xs b w)

  Sound-Showable : (x : Went) → Sound x → Showable x.1
  Sound-Showable (raise e, c) s = s
  Sound-Showable (ok _, c) s = InOrder-Showable s

  -- Whatever comes from the host and from the game of a new client, in any order: the game gets view
  -- updates in strictly rising order of their numbers, none twice and none above the last number taken,
  -- and no more than 256 are kept.
  pub views_in_order :
      (player_id : String) (disk : Dict SavedFile) (xs : List Input)
      → let c = (client_run decode sha256 xs (new_client player_id disk)).1 in
        Rising (pos 0) (shown c) c.last_game_sequence
        × (length c.buffered_view_updates ≤ max_buffered_view_updates)
  views_in_order player_id disk xs =
      let start : InOrder (new_client player_id disk) = record {
        mid = pos 0;
        shown_up = refl;
        kept_up = refl;
        few = omega arith;
        direct = λ h. refl;
      } in
      let s = Sound-Showable _ (client_run-Sound xs (new_client player_id disk) start) in
      (s.up, s.few)
