-- ===== src/Runtime/Bridge.antt =====
-- BridgeEvent and `send` of LocalGameBridge (kermp/bridge.py). Whether a write reaches the game is up
-- to the game: `writes_left` writes do before one raises OSError.
use ker_mp.Prelude.{
  Bool, List, String, [], false, if◌then◌else◌, not, suc, true, zero, ℕ, ◌++◌, ◌∷◌,
}
use ker_mp.Value.{Payload}
use ker_mp.Net.{Body}

pub record BridgeEvent : Type 0 where
  pub type : String
  pub payload : Payload

-- A message with its type as it is spelled on the wire.
pub record Note : Type 0 where
  pub type : String
  pub body : Body

pub record LocalGameBridge : Type 0 where
  pub connected : Bool
  pub writes_left : ℕ
  pub sent : List Note

unfoldable pub send : String → Body → LocalGameBridge → Bool × LocalGameBridge
send type body b = if not b.connected then (false, b) else elim b.writes_left [
  | zero ↦ (false, record b { connected = false })
  | suc n ↦ (
    true,
    record b { writes_left = n; sent = b.sent ++ record { type = type; body = body } ∷ [] },
  )
]

-- `send` where the result is not used
unfoldable pub notify : String → Body → LocalGameBridge → LocalGameBridge
unfolding send
notify type body b = (send type body b).1
