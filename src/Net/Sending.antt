-- ===== src/Net/Sending.antt =====
-- `broadcast`, `send_to` and its kin, `_send_error` and `_drop` of KerMPHost (kermp/net.py).
use ker_mp.Prelude.{List, String, [], if◌then◌else◌, ◌++◌, ◌+◌, ◌∷◌}
use ker_mp.Prelude.Dict.{Dict, has_key, pop}
use ker_mp.Prelude.Sets.{contains}
use ker_mp.Protocol.{MessageType}
use ker_mp.Session.{remove_player}
use ker_mp.Net.State.{Body, KerMpHost, Peer, Sent, reason_body, to_all, to_host, to_peer}

unfoldable pub log : Sent → KerMpHost → KerMpHost
log x h = record h { sent = h.sent ++ x ∷ [] }

-- `peer = self.peers.get(id); if peer: peer.writer.write(…)`
unfoldable pub write_to : String → MessageType → Body → KerMpHost → KerMpHost
unfolding log
write_to id type body h = if has_key id h.peers then log (to_peer id type body) h else h

unfoldable pub send_error : String → String → KerMpHost → KerMpHost
unfolding write_to
send_error id reason h = write_to id MessageType.error (reason_body reason) h

unfoldable pub drop_peer : String → KerMpHost → KerMpHost
drop_peer id h = record h { peers = pop id h.peers; session = remove_player id h.session }

-- `for pid in dead: await self._drop(pid)`
unfoldable pub drop_all : List String → KerMpHost → KerMpHost
drop_all [] h = h
drop_all (id ∷ ids) h = drop_all ids (drop_peer id h)

-- The peers whose write fails, in the order of the peers.
unfoldable pub failing : List String → Dict Peer → List String
failing dead [] = []
failing dead ((id, p) ∷ d) =
    let rest = failing dead d in if contains id dead then id ∷ rest else rest

unfoldable pub broadcast : List String → MessageType → Body → KerMpHost → KerMpHost
unfolding log
broadcast dead type body h =
    let seq = h.seq + 1 in
    drop_all (failing dead h.peers) (log (to_all seq type body) (record h { seq = seq }))

-- With `include_host=True`.
unfoldable pub broadcast_all : List String → MessageType → Body → KerMpHost → KerMpHost
unfolding log
broadcast_all dead type body h = log (to_host type body) (broadcast dead type body h)
