-- ===== src/Net/Handlers.antt =====
-- What the handlers of `_dispatch` (kermp/net.py) do to the numbers of the broadcasts.
use ker_mp.Prelude.{Bool, String, refl, some, none, Option, [], false, ◌∷◌}
use ker_mp.Prelude.Dict.{get}
use ker_mp.Prelude.Errors.{PyError, Result, ok, raise, key_error}
use ker_mp.Protocol.{MessageType}
use ker_mp.Session.{
  HostSession, cancel_interaction, select_sim, set_error, update_readiness, validate_interaction,
}
use ker_mp.Value.{end, get_value, obj, or_else, to_dict, str, join, string}
use ker_mp.Prelude.Int.{pos}
use ker_mp.Net.State.{
  Body, KerMpHost, Message, World, handed_on, operation_body, cancel_body, interaction_body,
  readiness_body, selection_body,
}
use ker_mp.Net.Sending.{send_error}
use ker_mp.Net.Requests.{int_at, sims_of, cancel_id, readiness_fields}
use ker_mp.Net.Dispatch.{
  announce, dispatch_type, on_clock_resync, on_error, on_interaction, on_interaction_cancel,
  on_lock_release, on_lock_request, on_ping, on_readiness, on_save_error, on_sim_select,
  on_snapshot, allowed_speed, on_build_operation, on_command, on_dialog, on_interaction_command,
  on_request_pause, on_request_speed, on_save_ack, on_sim_state, set_clock, Handled, is_build_error,
  is_type_or_value, is_value, is_value_or_key,
}
use ker_mp.Net.Ordering.{
  Continues, Continues-log, Continues-refl, announce-Continues, on_error-Continues, told-Continues,
  told_all-Continues, write_to-Continues,
}
use ker_mp.BuildSync.{submit}

-- A handler's outcome: the host goes on from `a`.
record Advances (a : KerMpHost) (r : Handled) : Type 0 where
  host : Continues a r.1

advances : {a : KerMpHost} (r : Handled) → Continues a r.1 → Advances a r
advances r c = record { host = c }

-- A handler that goes on with a value, or with the exception that stands for it.
on_result-Advances :
    {A : Type 0} (a : KerMpHost) (f : A → Handled) (g : PyError → Handled) (r : Result A)
    → ((e : PyError) → Advances a (g e))
    → ((x : A) → Advances a (f x))
    → Advances a (elim r as (λ x. Handled) [ raise e ↦ g e | ok x ↦ f x ])
on_result-Advances a f g (raise e) u v = u e
on_result-Advances a f g (ok x) u v = v x

on_option-Advances :
    {A : Type 0} (a : KerMpHost) (f : A → Handled) (g : Handled) (r : Option A)
    → Advances a g
    → ((x : A) → Advances a (f x))
    → Advances a (elim r as (λ x. Handled) [ none ↦ g | some x ↦ f x ])
on_option-Advances a f g none u v = u
on_option-Advances a f g (some x) u v = v x

raise-Advances :
    (caught : PyError → Bool) (id : String) (a : KerMpHost) (e : PyError)
    → Advances a (on_error caught id e a)
raise-Advances caught id a e = advances _ (on_error-Continues caught id e a)

announce-Advances :
    {A : Type 0} (caught : PyError → Bool) (id : String) (w : World) (type : MessageType)
    (body : A → Body) (r : Result A × HostSession) (a : KerMpHost)
    → Advances a (announce caught id w type body r a)
announce-Advances caught id w type body r a =
    advances _ (announce-Continues caught id w type body r a)

on_save_ack-Advances : (w : World) (m : Message) (a : KerMpHost) → Advances a (on_save_ack w m a)
unfolding on_save_ack
on_save_ack-Advances w m a =
    on_result-Advances a _ _ (int_at "total_bytes" (pos 0) m.payload)
      (raise-Advances is_value_or_key m.sender_id a)
      (λ x. announce-Advances is_value_or_key m.sender_id w _ _ _ a)

on_request_speed-Advances :
    (w : World) (m : Message) (a : KerMpHost) → Advances a (on_request_speed w m a)
unfolding on_request_speed set_clock send_error
on_request_speed-Advances w m a =
    on_result-Advances a _ _ (int_at "speed" (pos 0) m.payload) (λ e. advances _ (Continues-refl a))
      (λ z.
        on_option-Advances a _ _ (allowed_speed z)
          (advances _ (write_to-Continues m.sender_id _ _ a))
          (λ n. advances _ (told_all-Continues w.dead _ _ _ a)))

on_command-Advances : (w : World) (m : Message) (a : KerMpHost) → Advances a (on_command w m a)
unfolding on_command
on_command-Advances w m a =
    on_result-Advances a _ _ (to_dict (or_else (get_value "payload" m.payload) (obj end)))
      (raise-Advances is_value m.sender_id a)
      (λ x. announce-Advances is_value m.sender_id w _ _ _ a)

on_dialog-Advances : (w : World) (m : Message) (a : KerMpHost) → Advances a (on_dialog w m a)
unfolding on_dialog
on_dialog-Advances w m a =
    on_result-Advances a _ _ (to_dict (or_else (get_value "response" m.payload) (obj end)))
      (raise-Advances is_value m.sender_id a)
      (λ x. announce-Advances is_value m.sender_id w _ _ _ a)

on_sim_state-Advances : (w : World) (m : Message) (a : KerMpHost) → Advances a (on_sim_state w m a)
unfolding on_sim_state
on_sim_state-Advances w m a =
    on_result-Advances a _ _ (sims_of m.payload) (λ e. advances _ (Continues-refl a))
      (λ sims. advances _ (told_all-Continues w.dead _ _ _ a))

on_interaction_command-Advances :
    (w : World) (m : Message) (a : KerMpHost) → Advances a (on_interaction_command w m a)
unfolding on_interaction_command
on_interaction_command-Advances w m a =
    on_result-Advances a _ _ (to_dict (or_else (get_value "command" m.payload) (obj end)))
      (raise-Advances is_type_or_value m.sender_id a)
      (λ x. announce-Advances is_type_or_value m.sender_id w _ _ _ a)

on_build_operation-Advances :
    (w : World) (m : Message) (a : KerMpHost) → Advances a (on_build_operation w m a)
unfolding on_build_operation
on_build_operation-Advances w m a =
    on_option-Advances a _ _ (get "op" m.payload)
      (raise-Advances is_build_error m.sender_id a (key_error "op"))
      (λ op.
        on_result-Advances a _ _
          (to_dict (elim (get "data" m.payload) [ none ↦ obj end | some v ↦ v ]))
          (raise-Advances is_build_error m.sender_id a)
          (λ x.
            announce-Advances is_build_error m.sender_id w MessageType.build_apply operation_body
              (
                (submit w.now m.sender_id (str op) x a.session.build).0,
                record a.session {
                  build = (submit w.now m.sender_id (str op) x a.session.build).1;
                },
              )
              a))

dispatch_type-Advances :
    (t : MessageType) (w : World) (m : Message) (a : KerMpHost) → Advances a (dispatch_type t w m a)
unfolding dispatch_type on_ping on_readiness on_save_error on_request_pause set_clock
    on_clock_resync on_snapshot on_lock_request on_sim_select on_interaction on_interaction_cancel
    on_lock_release
dispatch_type-Advances MessageType.ping w m a = advances _ (write_to-Continues _ _ _ a)
dispatch_type-Advances MessageType.readiness w m a =
    announce-Advances is_value_or_key m.sender_id w MessageType.readiness
      (readiness_body m.sender_id)
      (update_readiness m.sender_id (readiness_fields m.payload) a.session) a
dispatch_type-Advances MessageType.save_ack w m a = on_save_ack-Advances w m a
dispatch_type-Advances MessageType.save_error w m a =
    let reason : String = elim (get "reason" m.payload) [ none ↦ "unknown" | some v ↦ str v ] in
    announce-Advances (λ e. false) m.sender_id w MessageType.readiness (readiness_body m.sender_id)
      (update_readiness m.sender_id (set_error (string (join "save_sync:" reason)) ∷ []) a.session)
      a
dispatch_type-Advances MessageType.clock_request_speed w m a = on_request_speed-Advances w m a
dispatch_type-Advances MessageType.clock_request_pause w m a =
    advances _ (told_all-Continues _ _ _ _ a)
dispatch_type-Advances MessageType.clock_resync w m a = advances _ (write_to-Continues _ _ _ a)
dispatch_type-Advances MessageType.command_request w m a = on_command-Advances w m a
dispatch_type-Advances MessageType.dialog_response w m a = on_dialog-Advances w m a
dispatch_type-Advances MessageType.snapshot_request w m a = advances _ (write_to-Continues _ _ _ a)
dispatch_type-Advances MessageType.build_lock_request w m a = advances _ (told-Continues _ _ _ _ a)
dispatch_type-Advances MessageType.sim_select w m a =
    announce-Advances is_value m.sender_id w MessageType.sim_selection_state selection_body
      (select_sim m.sender_id (str (get_value "sim_id" m.payload)) a.session) a
dispatch_type-Advances MessageType.sim_state w m a = on_sim_state-Advances w m a
dispatch_type-Advances MessageType.interaction_request w m a =
    announce-Advances is_value m.sender_id w MessageType.interaction_accepted interaction_body
      (validate_interaction (get_value "request_id" m.payload) m.sender_id m.payload a.session) a
dispatch_type-Advances MessageType.interaction_command w m a = on_interaction_command-Advances w m a
dispatch_type-Advances MessageType.interaction_cancel w m a =
    announce-Advances is_value m.sender_id w MessageType.interaction_cancel cancel_body
      (cancel_interaction (cancel_id m.payload a.session.interaction_requests) m.sender_id m.payload
        a.session)
      a
dispatch_type-Advances MessageType.build_lock_release w m a = advances _ (told-Continues _ _ _ _ a)
dispatch_type-Advances MessageType.build_operation w m a = on_build_operation-Advances w m a
dispatch_type-Advances _ w m a = advances _ (Continues-log (handed_on m) a refl)

pub dispatch_type-Continues :
    (t : MessageType) (w : World) (m : Message) (a : KerMpHost)
    → Continues a (dispatch_type t w m a).1
dispatch_type-Continues t w m a = (dispatch_type-Advances t w m a).host
