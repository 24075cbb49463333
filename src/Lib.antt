-- ===== src/Lib.antt =====
-- KerMP: a LAN session in which several games are played as one: the host, the two runtimes that join a
-- game to the network, and the mod inside the game.
--
-- The program's parts. A host (`KerMPHost`, kermp/net.py) listens for players. A player's connection
-- starts with a Hello; from then on `_handle_conn` hands the player's messages to `_dispatch`, which
-- calls one method of the session (`HostSession`, kermp/session.py) and answers the sender or
-- broadcasts the outcome. The session owns the players with their readiness (kermp/readiness.py), the
-- Sims, the interaction requests, the travel coordinator (kermp/travel.py), the build authority
-- (kermp/buildsync.py) and the routers of commands and dialogs (kermp/routing.py). A player's manifest
-- is compared with the host's (kermp/compatibility.py), and the host's save file is sent to the players
-- in chunks (kermp/save_sync.py). Beside each game runs a sidecar: the host's is HostRuntime, a player's
-- ClientRuntime (kermp/runtime.py). It talks to the game through a bridge (kermp/bridge.py), whose other
-- end is the mod (sims_mod_src/kermp_mod): hooks.py handles what the sidecar tells, build_adapter.py
-- captures what is built and applies what others build.
--
-- The files. Each part is a module with the state as a record and a function for each method; the
-- modules below it hold its theorems.
--   Prelude        lists, sets, dicts, integers, exceptions
--   Value          the JSON values in payloads, with str(), int(), bool(), dict()
--   Travel         kermp/travel.py: Ops has `propose`, `mark_ready`, `begin_zone_wait`,
--                  `mark_zone_ready`, `abort`, `remove_participant`; Calls has sequences of calls
--   Readiness      kermp/readiness.py: `advance`, `ready`, `core_ready`
--   Compatibility  kermp/compatibility.py: `compare_manifests`
--   Routing        kermp/routing.py: `dispatch`, `open_dialog` (open), `respond`, `disconnect`;
--                  Audience has `recipients`
--   BuildSync      kermp/buildsync.py: Validate has `_validate_build_data`, Authority the lease and
--                  the history
--   SaveSync       kermp/save_sync.py: Receiver has `SaveReceiver`, Sender the manifest and the chunks
--   Session        kermp/session.py: Players has the methods on players and Sims, Interactions those on
--                  requests
--   Protocol       kermp/protocol.py: MessageType and its names
--   Net            kermp/net.py: Sending has `broadcast`, `_send_error`, `_drop`; Requests reads the
--                  payloads; Dispatch has a function for each kind of message; Connection has the
--                  handshake (`greet`) and the loop's body (`receive`)
--   Runtime        kermp/runtime.py and `send` of kermp/bridge.py: Host has HostRuntime, with the
--                  events of the game in Plays, Builds and Travels and the network's messages in
--                  Messages; Client has ClientRuntime, with view updates and travel in Views, save
--                  files in Saves, the game's events in Game; Delivery joins both sides
--   GameMod        sims_mod_src/kermp_mod: Adapter, Applying and Contours have build_adapter.py,
--                  Travels and Views the handlers of hooks.py for travel and view updates
--   Examples       the theorems at concrete inputs
--
-- How state and errors are modelled. A method takes its object and returns the result beside the new
-- object, so that what is written before an exception stays. Exceptions are the values of PyError. A
-- set of ids is a list that is only read by membership, a dict is a list of entries in the order of
-- insertion. Integers that messages carry are signed; counters of the host are natural numbers. The
-- clocks, fresh ids and the peers whose connection breaks are arguments (`World`). SHA-256, base64
-- and json.dumps are parameters, and what the game answers to the mod is an argument (`Game`,
-- `Applier`). No fuel is used: every loop is by recursion on a list or on the number of chunks.
--
-- What the model takes for granted: the two counts of a READINESS message are numbers, a file
-- operation succeeds unless the partial file is missing, and the clocks do not change within a
-- handler. The mod's connection and the writes that still reach the sidecar are fields of its state
-- (`sock`, `writes_left`), and so is the time that names a backup (`stamp`).
--
-- Not modelled: sockets and threads, JSON text, the file system beyond the files of a save transfer, the
-- interleaving of coroutines inside one handler, identity, user interfaces and tools, which are I/O; of
-- the mod, what calls the game: the capture of messages, Sim selection, interactions, the clock, the
-- hooks themselves, reload and the cheat commands.
mod Prelude
pub mod Value
pub mod Travel
pub mod Readiness
pub mod Compatibility
pub mod Routing
pub mod SaveSync
pub mod BuildSync
pub mod Protocol
pub mod Session
pub mod Net
pub mod Runtime
pub mod GameMod
pub mod Examples
