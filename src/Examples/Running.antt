-- ===== src/Examples/Running.antt =====
-- The runtimes of the host and of a client, at concrete inputs (kermp/runtime.py).
use ker_mp.Prelude.{
  List, String, [], arith, if◌then◌else◌, length, none, refl, some, text_eq, ℕ, ◌++◌, ◌+◌, ◌∷◌, ◌≡◌,
  ◌≤◌,
}
use ker_mp.Prelude.Int.{pos}
use ker_mp.Prelude.Errors.{Result, ok, raise, value_error}
use ker_mp.Prelude.Rising.{Rising}
use ker_mp.Value.{Payload, int, string, null}
use ker_mp.Protocol.{MessageType}
use ker_mp.Travel.{TravelPhase, TravelTxn}
use ker_mp.SaveSync.{Bytes}
use ker_mp.Net.{Message, handed_on, payload_body, to_all}
use ker_mp.Runtime.{notify}
use ker_mp.Runtime.Host.{
  HostRuntime, dispatch_through, game_view, new_runtime, travel_ready, view_fields, with_session,
}
use ker_mp.Runtime.Host.Commit.{Announced, commit-Announced}
use ker_mp.Runtime.Host.Unchecked.{unleased_build_reaches_game}
use ker_mp.Runtime.Client.{
  ClientRuntime, max_buffered_view_updates, new_client, on_host_type, sidecar_error, went,
}
use ker_mp.Runtime.Client.Shown.{shown}
use ker_mp.Runtime.Client.Run.{
  Input, client_run, from_host, game_connects, views_in_order, from_game,
}
use ker_mp.Runtime.Client.Upload.{builds_queued, built}
use ker_mp.Runtime.Client.Line.{Lined}
use ker_mp.Runtime.Delivery.{view_lost_after_travel}
use ker_mp.Examples.Hosting.{host, say, world}

-- The base64 of one message.
abbrev decoded : String → Result Bytes
decoded s = if text_eq s "Bw==" then ok (7 ∷ []) else raise (value_error "Incorrect padding")

abbrev encoded : Bytes → String
encoded raw = "Bw=="

abbrev hashed : Bytes → String
hashed raw = "none"

abbrev update_of : ℕ → Payload
update_of n =
    ("msg_id", int (pos 1)) ∷ ("sequence", int (pos n)) ∷ ("payload_b64", string "Bw==") ∷ []

-- The second update is late, the last one comes while a travel is under way.
abbrev inputs : List Input
inputs =
    game_connects 10
    ∷ from_host MessageType.game_raw_message (update_of 2)
    ∷ from_host MessageType.game_raw_message (update_of 1)
    ∷ from_host MessageType.travel_propose (("epoch", int (pos 1)) ∷ [])
    ∷ from_host MessageType.game_raw_message (("epoch", int (pos 1)) ∷ update_of 3)
    ∷ []

abbrev loading : TravelTxn
loading = record {
  epoch = 1;
  txn_id = "t1";
  zone_id = "z";
  actor_ids = [];
  participants = "h" ∷ "a" ∷ [];
  phase = TravelPhase.waiting_ready;
  ready = "h" ∷ [];
  zone_ready = [];
}

abbrev agreed : TravelTxn
agreed = record loading { ready = "a" ∷ "h" ∷ []; phase = TravelPhase.committed }

abbrev at_start : HostRuntime
at_start =
    with_session
      (record host.session { travel = record { current = some loading; epoch_count = 1 } })
      (new_runtime host)

abbrev after_travel : HostRuntime
after_travel =
    with_session
      (record host.session {
        travel = record {
          current = some (record agreed { phase = TravelPhase.complete });
          epoch_count = 1;
        };
      })
      (new_runtime host)

abbrev ready_from_alice : Payload
ready_from_alice = ("txn_id", string "t1") ∷ ("epoch", int (pos 1)) ∷ []

abbrev game_update : Payload
game_update = ("msg_id", int (pos 1)) ∷ ("payload_b64", string "Bw==") ∷ []

abbrev travelled : ClientRuntime
travelled = record (new_client "a" []) { travel_epoch = pos 1 }

abbrev smuggled : Message
smuggled = say MessageType.build_apply (("op", string "wall.delete") ∷ []) (pos 3)

views_in_order_example :
    let c = (client_run decoded hashed inputs (new_client "a" [])).1 in
    Rising (pos 0) (shown c) c.last_game_sequence
    × (length c.buffered_view_updates ≤ max_buffered_view_updates)
views_in_order_example = views_in_order decoded hashed "a" [] inputs

commit-Announced_example :
    Announced agreed at_start (travel_ready world "a" ready_from_alice at_start)
unfolding ker_mp.Runtime.text_at ker_mp.Value.str ker_mp.Value.or_else ker_mp.Value.truthy
    ker_mp.Value.get_value ker_mp.Prelude.Dict.get ker_mp.Runtime.epoch_of ker_mp.Net.int_at
    ker_mp.Value.to_int ker_mp.Travel.mark_ready ker_mp.Travel.get_txn ker_mp.Prelude.Sets.set_eq
    ker_mp.Prelude.Sets.subset ker_mp.Travel.counted ker_mp.Prelude.Sets.contains
    ker_mp.Prelude.Sets.add
commit-Announced_example =
    commit-Announced world "a" ready_from_alice (pos 1) agreed at_start refl refl refl refl refl

view_lost_after_travel_example :
    let update = view_fields encoded (pos 1) (7 ∷ []) (after_travel.game_sequence + 1) none in
    ((game_view decoded encoded world game_update after_travel).1.host.sent
      ≡ after_travel.host.sent
        ++ to_all (after_travel.host.seq + 1) MessageType.game_raw_message (payload_body update)
          ∷ [])
    × (on_host_type decoded hashed MessageType.game_raw_message update travelled
        ≡ went (sidecar_error "missing_travel_epoch" travelled))
unfolding ker_mp.Runtime.Host.view_of ker_mp.Runtime.item ker_mp.Prelude.Dict.get
    ker_mp.Value.to_int ker_mp.Runtime.raw_of ker_mp.Value.str ker_mp.Runtime.Host.open_epoch
view_lost_after_travel_example =
    view_lost_after_travel decoded encoded hashed world game_update after_travel (pos 1) (7 ∷ [])
      travelled refl refl refl refl (ground arith) refl refl

unleased_build_reaches_game_example : dispatch_through world smuggled at_start ≡ (
  ok tt,
  record at_start {
    host = record at_start.host { sent = at_start.host.sent ++ handed_on smuggled ∷ [] };
    bridge = notify "build.apply" (payload_body smuggled.payload) at_start.bridge;
  },
)
unleased_build_reaches_game_example = unleased_build_reaches_game world smuggled at_start refl

abbrev built_in_game : String → Input
built_in_game op = from_game (record { type = "build.operation"; payload = ("op", string op) ∷ [] })

abbrev building : List Input
building =
    built_in_game "wall.create"
    ∷ from_host MessageType.build_lock_state (("owner_id", string "a") ∷ [])
    ∷ built_in_game "wall.delete"
    ∷ from_host MessageType.build_lock_state (("owner_id", null) ∷ [])
    ∷ built_in_game "funds.modify"
    ∷ []

builds_queued_example :
    Lined (built building) (client_run decoded hashed building (new_client "a" [])).1
unfolding client_run ker_mp.Runtime.Client.Run.client_step ker_mp.Runtime.Client.on_client_event
    ker_mp.Protocol.Names.type_of ker_mp.Protocol.Names.type_text
    ker_mp.Runtime.Client.on_client_type on_host_type
builds_queued_example = builds_queued decoded hashed "a" [] building refl
