-- ===== src/Session/Requests.antt =====
-- Which interactions the host accepts (kermp/session.py).
use ker_mp.Prelude.{String, arith, ◌≡◌}
use ker_mp.Prelude.Errors.{PyError, raise}
use ker_mp.Value.{Payload, Value}
use ker_mp.Session.State.{HostSession}
use ker_mp.Session.Interactions.{validate_interaction}

-- A refused request changes nothing.
pub validate_interaction_refuses :
    (given : Value) (p : String) (payload : Payload) (s : HostSession) (e : PyError)
    → (validate_interaction given p payload s).0 ≡ raise e
    → (validate_interaction given p payload s).1 ≡ s
unfolding validate_interaction
validate_interaction_refuses given p payload s e h = ground arith
