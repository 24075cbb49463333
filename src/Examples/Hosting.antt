-- ===== src/Examples/Hosting.antt =====
-- A host with one peer, at concrete inputs (kermp/net.py).
use ker_mp.Prelude.{List, String, [], false, none, refl, some, ◌∷◌, ◌≡◌, ◌⊎◌}
use ker_mp.Prelude.Int.{pos, ℤ}
use ker_mp.Prelude.Errors.{ok}
use ker_mp.Prelude.Dict.{get}
use ker_mp.Value.{Payload, string}
use ker_mp.Protocol.{MessageType}
use ker_mp.Net.{Hello, KerMpHost, Message, Peer, World, new_host, reason_body, receive, serving}
use ker_mp.Net.Ordering.{Numbered}
use ker_mp.Net.Numbering.{Event, announces, arrives, leaves, run, run-Numbered, says}
use ker_mp.Net.Replay.{replay_ignored}
use ker_mp.Examples.Trip.{build_of_game}
use ker_mp.Examples.Play.{session}

abbrev pub world : World
world = record { now = 5; stamp = "7"; fresh = "f"; dead = [] }

abbrev peer_of_alice : Peer
peer_of_alice = record { player_id = "a"; display_name = "Alice"; last_seq = pos 2 }

abbrev pub host : KerMpHost
host = record {
  player_id = "h";
  display_name = "Host";
  manifest = build_of_game "h" "1.1";
  session = session;
  peers = ("a", peer_of_alice) ∷ [];
  seq = 3;
  sent = [];
}

abbrev pub say : MessageType → Payload → ℤ → Message
say type payload seq = record {
  type = type;
  payload = payload;
  sender_id = "a";
  message_id = "m";
  seq = some seq;
}

abbrev greeting : String → Hello
greeting id = record {
  type = MessageType.hello;
  sender_id = id;
  display_name = "Carol";
  manifest = ok (build_of_game id "1.1");
}

abbrev evening : List Event
evening =
    arrives (greeting "c")
    ∷ says world "c" (say MessageType.ping [] (pos 1))
    ∷ announces ("c" ∷ []) MessageType.sim_state (reason_body "")
    ∷ leaves "c"
    ∷ []

run-Numbered_example :
    Numbered 0
      (run evening (new_host "s" "h" "Host" (build_of_game "h" "1.1") false)).sent
      (run evening (new_host "s" "h" "Host" (build_of_game "h" "1.1") false)).seq
run-Numbered_example = run-Numbered "s" "h" "Host" (build_of_game "h" "1.1") false evening

replay_ignored_example :
    (get "a" (receive world "a" (say MessageType.ping [] (pos 3)) host).1.peers ≡ none)
    ⊎ (receive world "a"
          (say MessageType.ping [] (pos 2))
          (receive world "a" (say MessageType.ping [] (pos 3)) host).1
        ≡ (serving, (receive world "a" (say MessageType.ping [] (pos 3)) host).1))
replay_ignored_example =
    replay_ignored world world "a" (say MessageType.ping [] (pos 3))
      (say MessageType.ping [] (pos 2)) (pos 3) (pos 2) host refl refl refl refl refl

abbrev leased_host : KerMpHost
leased_host = record host {
  session = record session {
    build = record session.build {
      lock = some (record { owner_id = "a"; acquired_at = 5; lease_seconds = 8 });
    };
  };
}

abbrev strange : Message
strange = say MessageType.build_operation (("op", string "sofa.eat") ∷ []) (pos 3)

abbrev bad_reason : String
bad_reason = "unsupported build operation: sofa.eat"
