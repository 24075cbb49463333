-- ===== src/Net/State.antt =====
-- Peer and the fields of KerMPHost (kermp/net.py), with what it has sent, newest last. A message is an
-- Envelope whose fields have the types that the class declares; the ids in payloads are texts.
use ker_mp.Prelude.{List, Option, String, ℕ}
use ker_mp.Prelude.Dict.{Dict}
use ker_mp.Prelude.Int.{ℤ}
use ker_mp.Value.{Payload}
use ker_mp.Protocol.{MessageType}
use ker_mp.Readiness.{PlayerReadiness}
use ker_mp.Compatibility.{CompatibilityManifest}
use ker_mp.Routing.{CommandResult, DialogAnswer}
use ker_mp.BuildSync.{BuildOperation}
use ker_mp.Session.{Cancellation, Clock, HostSession, Interaction, SimSelection}

pub record Peer : Type 0 where
  pub player_id : String
  pub display_name : String
  pub last_seq : ℤ

pub record Message : Type 0 where
  pub type : MessageType
  pub payload : Payload
  pub sender_id : String
  pub message_id : String
  pub seq : Option ℤ

-- The payload of a message that the host makes.
pub data Body : Type 0 where
  reason_body : String → Body
  echo_body : String → Body
  readiness_body : String → PlayerReadiness → Body
  clock_body : Clock → Body
  command_body : CommandResult → Body
  dialog_body : DialogAnswer → Body
  session_body : HostSession → Body
  lock_body : Option String → Option String → Body
  selection_body : SimSelection → Body
  interaction_body : Interaction → Body
  cancel_body : Cancellation → Body
  operation_body : BuildOperation → Body
  -- a dict that the runtime makes or passes on, and one with the failure that it adds
  payload_body : Payload → Body
  failure_body : Body → Body

pub data Sent : Type 0 where
  -- to one peer
  to_peer : String → MessageType → Body → Sent
  -- to the connection that has just been opened, before it has a peer
  to_stranger : MessageType → Body → Sent
  -- to all peers, with its sequence number
  to_all : ℕ → MessageType → Body → Sent
  -- to the `on_message` of the host's own runtime
  to_host : MessageType → Body → Sent
  handed_on : Message → Sent

pub record KerMpHost : Type 0 where
  pub player_id : String
  pub display_name : String
  pub manifest : CompatibilityManifest
  pub session : HostSession
  pub peers : Dict Peer
  pub seq : ℕ
  pub sent : List Sent

-- What the outside world answers while a message is handled: the clocks, a fresh uuid, and the peers
-- whose connection breaks when a broadcast writes to it.
pub record World : Type 0 where
  pub now : ℕ
  pub stamp : String
  pub fresh : String
  pub dead : List String
