-- ===== src/Runtime/Host/State.antt =====
-- The fields of HostRuntime (kermp/runtime.py), and its sending. The coroutine is not interrupted while
-- it handles an event.
use ker_mp.Prelude.{Bool, Option, [], false, none, ℕ}
use ker_mp.Prelude.Int.{ℤ}
use ker_mp.Prelude.Errors.{Result, ok}
use ker_mp.Protocol.{MessageType}
use ker_mp.Protocol.Names.{type_text}
use ker_mp.Session.{HostSession}
use ker_mp.Net.{Body, KerMpHost, World, broadcast}
use ker_mp.Runtime.Bridge.{LocalGameBridge, notify}

pub record HostRuntime : Type 0 where
  pub host : KerMpHost
  pub bridge : LocalGameBridge
  pub view_updates_sent : ℕ
  pub last_view_update_size : ℕ
  pub last_view_update_msg_id : Option ℤ
  pub game_sequence : ℕ
  pub travel_batch_open : Bool

abbrev pub new_runtime : KerMpHost → HostRuntime
new_runtime host = record {
  host = host;
  bridge = record { connected = false; writes_left = 0; sent = [] };
  view_updates_sent = 0;
  last_view_update_size = 0;
  last_view_update_msg_id = none;
  game_sequence = 0;
  travel_batch_open = false;
}

abbrev pub Ran : Type 0
Ran = Result (Unit {0}) × HostRuntime

abbrev pub ran : HostRuntime → Ran
ran r = (ok tt, r)

abbrev pub with_session : HostSession → HostRuntime → HostRuntime
with_session s r = record r { host = record r.host { session = s } }

-- self.bridge.send(type.value, body), without its result
unfoldable pub to_game : MessageType → Body → HostRuntime → HostRuntime
to_game type body r = record r { bridge = notify (type_text type) body r.bridge }

-- await self.host.broadcast(type, body)
unfoldable pub to_players : World → MessageType → Body → HostRuntime → HostRuntime
to_players w type body r = record r { host = broadcast w.dead type body r.host }
