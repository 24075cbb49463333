-- ===== src/Runtime/Client/State.antt =====
-- The fields of ClientRuntime (kermp/runtime.py). `upstream` is what it has sent to the host, newest
-- last: the connection holds. `disk` has the final save files under their slots.
use ker_mp.Prelude.{Bool, List, Option, String, [], false, none, ℕ, ◌++◌, ◌∷◌}
use ker_mp.Prelude.Dict.{Dict}
use ker_mp.Prelude.Int.{pos, ℤ}
use ker_mp.Prelude.Errors.{Result, ok, raise}
use ker_mp.Value.{Payload}
use ker_mp.Protocol.{MessageType}
use ker_mp.Protocol.Names.{type_text}
use ker_mp.SaveSync.{Bytes, SaveReceiver}
use ker_mp.Net.{Body, reason_body}
use ker_mp.Runtime.Bridge.{LocalGameBridge, Note, notify}

-- A save file and its backups, each under its name.
pub record SavedFile : Type 0 where
  pub final : Option Bytes
  pub backups : Dict Bytes

pub record ClientRuntime : Type 0 where
  pub player_id : String
  pub bridge : LocalGameBridge
  pub upstream : List Note
  pub pending_build : List Payload
  pub owns_build_lock : Bool
  pub view_updates_received : ℕ
  pub last_view_update_size : ℕ
  pub last_view_update_msg_id : Option ℤ
  pub last_game_sequence : ℤ
  pub travel_epoch : ℤ
  pub buffer_view_updates : Bool
  pub buffered_view_updates : List Payload
  pub travel_batch_complete : Bool
  pub local_zone_loaded : Bool
  pub save_receiver : Option SaveReceiver
  pub disk : Dict SavedFile
  -- the UTC time that the clock shows, to the second, as the name of a backup has it
  pub stamp : String

abbrev pub max_buffered_view_updates : ℕ
max_buffered_view_updates = 256

abbrev pub new_client : String → Dict SavedFile → ClientRuntime
new_client player_id disk = record {
  player_id = player_id;
  bridge = record { connected = false; writes_left = 0; sent = [] };
  upstream = [];
  pending_build = [];
  owns_build_lock = false;
  view_updates_received = 0;
  last_view_update_size = 0;
  last_view_update_msg_id = none;
  last_game_sequence = pos 0;
  travel_epoch = pos 0;
  buffer_view_updates = false;
  buffered_view_updates = [];
  travel_batch_complete = false;
  local_zone_loaded = false;
  save_receiver = none;
  disk = disk;
  stamp = "";
}

abbrev pub Went : Type 0
Went = Result (Unit {0}) × ClientRuntime

abbrev pub went : ClientRuntime → Went
went c = (ok tt, c)

-- The next statement, unless this one has raised.
abbrev pub and_next : Went → (ClientRuntime → Went) → Went
and_next (raise e, c) f = (raise e, c)
and_next (ok _, c) f = f c

-- await self.client.send(type, payload)
unfoldable pub send_up : MessageType → Body → ClientRuntime → ClientRuntime
send_up type body c = record c {
  upstream = c.upstream ++ record { type = type_text type; body = body } ∷ [];
}

-- self.bridge.send(type, payload), without its result
unfoldable pub tell_game : String → Body → ClientRuntime → ClientRuntime
tell_game type body c = record c { bridge = notify type body c.bridge }

-- self.bridge.send("sidecar.error", {"reason": reason})
unfoldable pub sidecar_error : String → ClientRuntime → ClientRuntime
unfolding tell_game
sidecar_error reason c = tell_game "sidecar.error" (reason_body reason) c
