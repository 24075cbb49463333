-- ===== src/Examples/InGame.antt =====
-- The game's mod at concrete inputs (sims_mod_src/kermp_mod).
use ker_mp.Net.{int_at}
use ker_mp.Prelude.{
  List, String, [], false, if◌then◌else◌, none, refl, some, text_eq, true, ◌+◌, ◌∷◌, ◌≡◌, ℕ, ◌⊎◌,
  leb, length, ◌++◌,
}
use ker_mp.Prelude.Int.{pos}
use ker_mp.Prelude.Errors.{Result, ok, raise, runtime_error, value_error}
use ker_mp.Value.{Payload, int, string, Value}
use ker_mp.SaveSync.{Bytes}
use ker_mp.GameMod.{
  Applier, Game, HookEvent, Hooks, Operation, SimsBuildAdapter, apply_remote, batched, handle_all,
  committed, sidecar_connects, key_of, new_adapter, new_hooks, raw_message, resumed, travel_prepare,
  zone_spun_up, is_client, max_travel_buffer, raw_game_message,
}
use ker_mp.GameMod.Once.{
  AdapterCall, after_all, applied_once, captured_one, configured, diagnostics_reset, distinct,
  keys_of, remote_came, replayed,
}
use ker_mp.GameMod.Echo.{Called, never_tried_again, new_operation_applied}
use ker_mp.GameMod.Silent.{silent_from_first_travel}
use ker_mp.GameMod.Holding.{Holds}
use ker_mp.GameMod.Contours.{contour_delta, keys_in}
use ker_mp.GameMod.ContourLaws.{contour_delta_balances, times}
use ker_mp.Runtime.Host.Builds.{host_payload}
use ker_mp.GameMod.Repeated.{repeated_operation_skipped}
use ker_mp.BuildSync.{BuildOperation}

abbrev dumped : Operation → String
dumped o = o.op

-- A wall that the host has built, and one of a later session with the same number.
abbrev wall : Payload
wall = ("op", string "wall.create") ∷ ("op_seq", int (pos 1)) ∷ []

abbrev later_wall : Payload
later_wall = ("op", string "wall.delete") ∷ ("op_seq", int (pos 1)) ∷ []

abbrev wall_created : Operation
wall_created = record { op = "wall.create"; args = []; op_id = some "1" }

abbrev wall_deleted : Operation
wall_deleted = record { op = "wall.delete"; args = []; op_id = some "1" }

-- The game captures what it is made to build.
abbrev builds : Applier
builds o = (wall ∷ [], none)

abbrev breaks : Applier
breaks o = ([], some (runtime_error "no_household"))

abbrev configured_adapter : SimsBuildAdapter
configured_adapter = record new_adapter { apply = some builds }

abbrev breaking_adapter : SimsBuildAdapter
breaking_adapter = record new_adapter { apply = some breaks }

abbrev adapter_calls : List AdapterCall
adapter_calls =
    remote_came wall
    ∷ configured false (some builds)
    ∷ captured_one wall
    ∷ remote_came (("op", string "wall.create") ∷ ("op_seq", int (pos 2)) ∷ [])
    ∷ replayed
    ∷ replayed
    ∷ diagnostics_reset
    ∷ remote_came later_wall
    ∷ []

abbrev decoded : String → Result Bytes
decoded s = if text_eq s "Bw==" then ok (7 ∷ []) else raise (value_error "Incorrect padding")

abbrev game : Game
game = record {
  active_sim_id = some "5";
  zone_id = some "z";
  restores = true;
  delivers = true;
  travel_end = none;
  api_info = [];
}

abbrev client_hooks : Hooks
client_hooks = record new_hooks { sidecar_role = string "client"; sock = true; writes_left = 1 }

abbrev travel_payload : Payload
travel_payload = ("txn_id", string "t1") ∷ ("epoch", int (pos 1)) ∷ ("kind", string "end") ∷ []

abbrev update : Payload
update = ("msg_id", int (pos 1)) ∷ ("payload_b64", string "Bw==") ∷ []

abbrev travelling : Hooks
travelling = record client_hooks {
  pending_travel_txn = string "t1";
  travel_epoch = pos 1;
  travel_buffering = true;
}

abbrev rest_of_travel : List (Game × HookEvent)
rest_of_travel =
    (game, zone_spun_up)
    ∷ (game, batched travel_payload)
    ∷ (game, committed travel_payload)
    ∷ (game, batched travel_payload)
    ∷ (game, sidecar_connects 2)
    ∷ (game, resumed travel_payload)
    ∷ (game, raw_message update)
    ∷ (game, zone_spun_up)
    ∷ []

applied_once_example :
    distinct (keys_of dumped (after_all dumped adapter_calls new_adapter).applied) ≡ true
applied_once_example = applied_once dumped adapter_calls

new_operation_applied_example :
    Called
      (key_of dumped wall_created)
      wall_created
      builds
      configured_adapter
      (apply_remote dumped wall configured_adapter)
unfolding ker_mp.GameMod.normalize_operation ker_mp.Prelude.Sets.contains ker_mp.Value.str
    ker_mp.Value.or_else ker_mp.Value.truthy ker_mp.Value.get_value ker_mp.Prelude.Dict.get
    ker_mp.Value.to_dict
new_operation_applied_example =
    new_operation_applied dumped wall wall_created builds configured_adapter refl refl refl

never_tried_again_example :
    let b = after_all dumped adapter_calls (apply_remote dumped wall breaking_adapter).1 in
    apply_remote dumped later_wall b ≡ (ok false, b)
unfolding ker_mp.GameMod.normalize_operation ker_mp.Prelude.Sets.contains ker_mp.Value.str
    ker_mp.Value.or_else ker_mp.Value.truthy ker_mp.Value.get_value ker_mp.Prelude.Dict.get
    ker_mp.Value.to_dict
never_tried_again_example =
    never_tried_again dumped wall later_wall wall_created wall_deleted adapter_calls
      breaking_adapter refl refl refl

silent_from_first_travel_example :
    let t = handle_all decoded rest_of_travel (travel_prepare game travel_payload client_hooks).1 in
    Holds client_hooks.delivered t
    × ((h : Game) (u : Payload)
        → is_client t ≡ true
        → int_at "epoch" t.travel_epoch u ≡ ok t.travel_epoch
        → (raw_game_message decoded h u t).1.travel_buffer ≡ (
            if leb max_travel_buffer (length t.travel_buffer)
            then t.travel_buffer
            else t.travel_buffer ++ u ∷ []))
unfolding ker_mp.Net.int_at ker_mp.Prelude.Dict.get ker_mp.Value.to_int
silent_from_first_travel_example =
    silent_from_first_travel decoded game travel_payload (pos 1) client_hooks rest_of_travel refl
      refl

-- Money that the host spends twice.
abbrev spending : Payload
spending = ("household_id", string "9") ∷ ("amount", int (pos 5)) ∷ []

abbrev spent : ℕ → BuildOperation
spent n = record {
  operation_id = "o";
  seq = n;
  player_id = "h";
  op = "funds.modify";
  args = spending;
}

abbrev spent_once : Operation
spent_once = record { op = "funds.modify"; args = spending; op_id = none }

repeated_operation_skipped_example :
    let b =
      after_all dumped adapter_calls
        (apply_remote dumped (host_payload (spent 1)) configured_adapter).1 in
    apply_remote dumped (host_payload (spent 2)) b ≡ (ok false, b)
unfolding ker_mp.Value.get_value ker_mp.Prelude.Dict.get ker_mp.GameMod.normalize_operation
    ker_mp.Prelude.Sets.contains ker_mp.Value.str ker_mp.Value.or_else ker_mp.Value.truthy
    host_payload ker_mp.Value.to_dict ker_mp.Prelude.Dict.put
repeated_operation_skipped_example =
    repeated_operation_skipped dumped (spent 1) (spent 2) spent_once adapter_calls
      configured_adapter refl refl refl refl

abbrev text_of_wall : Value → String
text_of_wall (string s) = s
text_of_wall v = ""

abbrev walls : List Value
walls = string "north" ∷ string "south" ∷ string "north" ∷ []

abbrev walls_later : List Value
walls_later = string "east" ∷ string "north" ∷ string "east" ∷ []

contour_delta_balances_example :
    let delta = contour_delta text_of_wall walls walls_later in
    (times "east" (keys_in text_of_wall walls) + times "east" (keys_in text_of_wall delta.added)
      ≡ times "east" (keys_in text_of_wall walls_later)
        + times "east" (keys_in text_of_wall delta.removed))
    × ((times "east" (keys_in text_of_wall delta.added) ≡ 0)
        ⊎ (times "east" (keys_in text_of_wall delta.removed) ≡ 0))
contour_delta_balances_example = contour_delta_balances text_of_wall walls walls_later "east"
