-- ===== src/Net/Faults.antt =====
-- What three branches of KerMPHost (kermp/net.py) do when a message comes from the wrong sender or
-- with the wrong data.
use ker_mp.Prelude.{[], ◌∷◌, ◌≡◌, refl}
use ker_mp.Prelude.Dict.{Dict}
use ker_mp.Value.{Value}
use ker_mp.Prelude.Sets.{contains}
use ker_mp.Net.State.{Peer}
use ker_mp.Net.Sending.{failing}

pub failing-nobody : (d : Dict Peer) → failing [] d ≡ []
unfolding failing contains
failing-nobody [] = refl
failing-nobody ((id, p) ∷ d) = failing-nobody d
