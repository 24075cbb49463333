-- ===== src/GameMod/Views.antt =====
-- The view updates of the mod (sims_mod_src/kermp_mod/hooks.py). `decode` is base64's function.
use ker_mp.GameMod.State.{Game, Hooks, max_travel_buffer}
use ker_mp.GameMod.Travels.{
  Hooked, after_zone_spin_up, is_client, travel_abort, travel_commit, travel_prepare, travel_resume,
  travel_view_batch,
}
use ker_mp.Prelude.{
  Bool, List, String, [], false, if◌then◌else◌, leb, length, ltb, none, some, true, ◌&&◌, ◌++◌, ◌+◌,
  ◌∷◌, ℕ,
}
use ker_mp.Prelude.Errors.{Result, ok, raise, value_error, ◌>>=◌}
use ker_mp.Prelude.Int.{eq_ℤ, ℤ}
use ker_mp.Prelude.Dict.{get}
use ker_mp.Value.{Payload, Value, get_value, str, string, to_int}
use ker_mp.SaveSync.{Bytes}
use ker_mp.Net.{int_at}
use ker_mp.Runtime.{item, max_game_message_bytes}

-- What is told to the mod, the game's loading of a zone, and the connection to the sidecar.
pub data HookEvent : Type 0 where
  welcomed prepared committed batched resumed raw_message : Payload → HookEvent
  aborted : Payload → HookEvent
  zone_spun_up : HookEvent
  sidecar_connects : ℕ → HookEvent
  sidecar_leaves : HookEvent

module _ (decode : String → Result Bytes) where
  -- str(payload.get('payload_b64', '')), its bytes and their bound, and then int(payload['msg_id'])
  unfoldable pub message_of : Payload → Result (ℤ × Bytes)
  message_of d =
      let text : Value = elim (get "payload_b64" d) [ none ↦ string "" | some v ↦ v ] in
      decode (str text) >>= λ raw.
      if ltb max_game_message_bytes (length raw)
      then raise (value_error "payload_too_large")
      else item "msg_id" d >>= λ v. to_int v >>= λ id. ok (id, raw)

  unfoldable pub deliver_message : Result (ℤ × Bytes) → Hooks → Bool × Hooks
  deliver_message (raise e) s = (false, s)
  deliver_message (ok (id, raw)) s = (
    true,
    record s {
      last_view_update_size = length raw;
      last_view_update_msg_id = some id;
      delivered = s.delivered ++ (id, raw) ∷ [];
    },
  )

  -- Whatever raises makes the answer False.
  unfoldable pub apply_raw_game_message : Game → Payload → Hooks → Bool × Hooks
  unfolding message_of deliver_message
  apply_raw_game_message g d s =
      if is_client s && g.delivers then deliver_message (message_of d) s else (false, s)

  -- if applied: _view_updates_received += 1
  unfoldable pub count_applied : Bool × Hooks → Hooks
  count_applied (applied, s) =
      if applied then record s { view_updates_received = s.view_updates_received + 1 } else s

  unfoldable pub buffer_at : Payload → Result ℤ → Hooks → Hooked
  buffer_at d (raise e) s = (raise e, s)
  buffer_at d (ok epoch) s = (
    ok tt,
    if eq_ℤ epoch s.travel_epoch then record s { travel_buffer = s.travel_buffer ++ d ∷ [] } else s,
  )

  unfoldable pub receive_raw_game_message : Game → Payload → Hooks → Hooked
  unfolding buffer_at count_applied apply_raw_game_message
  receive_raw_game_message g d s =
      if s.travel_buffering
      then (if leb max_travel_buffer (length s.travel_buffer)
          then (ok tt, s)
          else buffer_at d (int_at "epoch" s.travel_epoch d) s)
      else (ok tt, count_applied (apply_raw_game_message g d s))

  unfoldable pub raw_game_message : Game → Payload → Hooks → Hooked
  unfolding receive_raw_game_message
  raw_game_message g d s = if is_client s then receive_raw_game_message g d s else (ok tt, s)

  unfoldable pub handle : Game → HookEvent → Hooks → Hooked
  unfolding raw_game_message
  handle g (welcomed d) s = (
    ok tt,
    record s { sidecar_role = get_value "role" d; sidecar_player_id = get_value "player_id" d },
  )
  handle g (prepared d) s = travel_prepare g d s
  handle g (committed d) s = travel_commit g d s
  handle g (batched d) s = travel_view_batch g d s
  handle g (resumed d) s = travel_resume g d s
  handle g (aborted d) s = travel_abort d s
  handle g (raw_message d) s = raw_game_message g d s
  handle g zone_spun_up s = after_zone_spin_up g s
  handle g (sidecar_connects n) s = (ok tt, record s { sock = true; writes_left = n })
  handle g sidecar_leaves s = (ok tt, record s { sock = false })

  -- A handler that raises has ended the connection, and the mod connects again.
  unfoldable pub handle_all : List (Game × HookEvent) → Hooks → Hooks
  unfolding handle
  handle_all [] s = s
  handle_all ((g, x) ∷ xs) s = handle_all xs (handle g x s).1
