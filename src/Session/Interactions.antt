-- ===== src/Session/Interactions.antt =====
-- `validate_interaction` and `cancel_interaction` of HostSession (kermp/session.py).
use ker_mp.Prelude.{
  Bool, Option, String, [], false, if◌then◌else◌, none, not, some, text_eq, true, ◌||◌, ◌∷◌,
}
use ker_mp.Prelude.Dict.{get, has_key, put}
use ker_mp.Prelude.Int.{eq_ℤ, pos}
use ker_mp.Prelude.Errors.{Result, ok, raise, value_error}
use ker_mp.Value.{
  Payload, Value, bool, end, float, get_value, int, join, null, obj, or_else, str, string, to_dict,
  to_fields,
}
use ker_mp.Session.State.{HostSession, Interaction, Player}

-- The fields of a request that are passed on as they came, with "target_kind" as text and
-- "interaction_kwargs" as a dict.
passed_on : Payload → Payload → Payload
passed_on payload kwargs =
    ("target_id", get_value "target_id" payload)
    ∷ ("target_kind", string (str (or_else (get_value "target_kind" payload) (string "object"))))
    ∷ ("target_sim_id", get_value "target_sim_id" payload)
    ∷ ("target_type", get_value "target_type" payload)
    ∷ ("position", get_value "position" payload)
    ∷ ("pick", get_value "pick" payload)
    ∷ ("interaction_kwargs", obj (to_fields kwargs))
    ∷ []

-- `str(player.active_sim_id if player else "")`, with None for a player without a Sim
unfoldable pub default_sim : Option Player → Value
default_sim none = string ""
default_sim (some p) = elim p.active_sim_id [ none ↦ null | some sim_id ↦ string sim_id ]

abbrev pub owns : String → Option Player → Bool
owns sim_id none = false
owns sim_id (some p) = elim p.active_sim_id [ none ↦ false | some s ↦ text_eq s sim_id ]

-- `given` is the request's id, None among its values.
unfoldable pub validate_interaction :
    Value → String → Payload → HostSession → Result Interaction × HostSession
unfolding passed_on
validate_interaction given player_id payload s =
    let request_id = str (or_else given (string "")) in
    let player = get player_id s.players in
    let sim_id = str (or_else (get_value "sim_id" payload) (default_sim player)) in
    let affordance_id = str (or_else (get_value "affordance_id" payload) (string "")) in
    if text_eq request_id ""
    then (raise (value_error "missing_request_id"), s)
    else if has_key request_id s.interaction_requests
    then (raise (value_error "duplicate_request_id"), s)
    else if not (owns sim_id player)
    then (raise (value_error "sim_not_owned"), s)
    else if not (has_key sim_id s.sims)
    then (raise (value_error "invalid_sim_id"), s)
    else if text_eq affordance_id ""
    then (raise (value_error "missing_affordance_id"), s)
    else elim (to_dict (or_else (get_value "interaction_kwargs" payload) (obj end))) [
      | raise e ↦ (raise e, s)
      | ok kwargs ↦
          let i : Interaction = record {
            request_id = request_id;
            player_id = player_id;
            sim_id = sim_id;
            affordance_id = some affordance_id;
            target = passed_on payload kwargs;
            status = "accepted";
            interaction_id = none;
            command = none;
          } in
          (ok i, record s { interaction_requests = put request_id i s.interaction_requests })
    ]

-- interaction_id in (None, "", 0, "0"): False and 0.0 equal 0
unfoldable pub no_interaction_id : Value → Bool
no_interaction_id null = true
no_interaction_id (string t) = text_eq t "" || text_eq t "0"
no_interaction_id (int z) = eq_ℤ z (pos 0)
no_interaction_id (bool b) = not b
no_interaction_id (float z r) = text_eq r "0.0" || text_eq r "-0.0"
no_interaction_id _ = false

pub record Cancellation : Type 0 where
  pub request_id : String
  pub player_id : String
  pub sim_id : String
  pub interaction_id : Value
  pub context_handle : Value
  pub status : String

unfoldable pub cancel_interaction :
    Value → String → Payload → HostSession → Result Cancellation × HostSession
cancel_interaction given player_id payload s =
    let player = get player_id s.players in
    let sim_id = str (or_else (get_value "sim_id" payload) (string "")) in
    let interaction_id = get_value "interaction_id" payload in
    let named = str (or_else given (string "")) in
    let request_id =
      if text_eq named ""
      then join "cancel-" (join player_id (join "-" (str interaction_id)))
      else named in
    if not (owns sim_id player)
    then (raise (value_error "sim_not_owned"), s)
    else if no_interaction_id interaction_id
    then (raise (value_error "missing_interaction_id"), s)
    else let made : Interaction = record {
      request_id = request_id;
      player_id = player_id;
      sim_id = sim_id;
      affordance_id = none;
      target = ("target_id", null) ∷ ("position", null) ∷ [];
      status = "cancel_requested";
      interaction_id = none;
      command = none;
    } in
      let request : Interaction = elim (get request_id s.interaction_requests) [
        | none ↦ made
        | some i ↦ record i { status = "cancel_requested" }
      ] in
      (
        ok (record {
          request_id = request_id;
          player_id = player_id;
          sim_id = sim_id;
          interaction_id = interaction_id;
          context_handle = get_value "context_handle" payload;
          status = "cancel_requested";
        }),
        record s { interaction_requests = put request_id request s.interaction_requests },
      )
