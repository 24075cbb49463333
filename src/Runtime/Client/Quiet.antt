-- ===== src/Runtime/Client/Quiet.antt =====
-- The handlers of ClientRuntime (kermp/runtime.py) that leave the view updates alone.
use ker_mp.Prelude.{Bool, List, Option, [], false, if_holds, none, refl, some, text_eq, ◌++◌, ◌∷◌}
use ker_mp.Prelude.Int.{ℤ}
use ker_mp.Prelude.Errors.{PyError, Result, ok, raise, value_error}
use ker_mp.Value.{Items, Payload, Value}
use ker_mp.Protocol.{MessageType}
use ker_mp.SaveSync.{Bytes, SaveReceiver, abort}
use ker_mp.Net.{Body, payload_body}
use ker_mp.Runtime.Bridge.{BridgeEvent}
use ker_mp.Runtime.Client.State.{ClientRuntime, Went, send_up, went}
use ker_mp.Runtime.Client.Game.{
  client_authority, client_build, client_hello, client_sims, flush_build, on_client_event,
  on_client_type, select_active, send_builds, sims_at,
}
use ker_mp.Runtime.Client.Messages.{on_lock_state}
use ker_mp.Runtime.Client.InOrder.{InOrder, InOrder-Showable, Sound, same_order, tell_game-InOrder}
use ker_mp.Protocol.Names.{type_of, type_text}
use ker_mp.Session.{no_interaction_id}
use ker_mp.Runtime.Client.Saves.{
  chunk_at, chunk_failed, chunk_written, finalized, save_failed, save_progress, with_receiver,
}

pub send_up-InOrder :
    (type : MessageType) (body : Body) (c : ClientRuntime)
    → InOrder c
    → InOrder (send_up type body c)
unfolding send_up
send_up-InOrder type body c v = same_order c _ refl refl refl refl v

pub send_builds-InOrder :
    (ds : List Payload) (c : ClientRuntime) → InOrder c → InOrder (send_builds ds c)
unfolding send_builds
send_builds-InOrder [] c v = v
send_builds-InOrder (d ∷ ds) c v =
    send_builds-InOrder ds _ (send_up-InOrder MessageType.build_operation (payload_body d) c v)

pub flush_build-InOrder : (c : ClientRuntime) → InOrder c → InOrder (flush_build c)
unfolding flush_build
flush_build-InOrder c v =
    if_holds InOrder c.owns_build_lock _ _
      (λ e.
        same_order (send_builds c.pending_build c) _ refl refl refl refl
          (send_builds-InOrder c.pending_build c v))
      (λ e. v)

pub client_hello-InOrder : (c : ClientRuntime) → InOrder c → InOrder (client_hello c)
unfolding client_hello
client_hello-InOrder c v =
    send_up-InOrder MessageType.readiness _ _ (tell_game-InOrder "sidecar.welcome" _ c refl v)

pub client_build-InOrder :
    (d : Payload) (c : ClientRuntime) → InOrder c → InOrder (client_build d c)
unfolding client_build
client_build-InOrder d c v =
    let c1 : ClientRuntime = record c { pending_build = c.pending_build ++ d ∷ [] } in
    let v1 = same_order c c1 refl refl refl refl v in
    if_holds InOrder c.owns_build_lock _ _ (λ e. flush_build-InOrder c1 v1)
      (λ e. send_up-InOrder MessageType.build_lock_request _ c1 v1)

pub select_active-InOrder :
    (x : Value) (c : ClientRuntime) → InOrder c → InOrder (select_active x c)
unfolding select_active
select_active-InOrder x c v =
    if_holds InOrder (no_interaction_id x) _ _ (λ e. v)
      (λ e. send_up-InOrder MessageType.sim_select _ c v)

pub sims_at-Sound :
    (d : Payload) (r : Result Items) (c : ClientRuntime) → InOrder c → Sound (sims_at d r c)
unfolding sims_at
sims_at-Sound d (raise e) c v = InOrder-Showable v
sims_at-Sound d (ok xs) c v =
    select_active-InOrder _ _ (send_up-InOrder MessageType.sim_state _ c v)

pub on_client_type-Sound :
    (t : MessageType) (d : Payload) (c : ClientRuntime) → InOrder c → Sound (on_client_type t d c)
unfolding on_client_type client_sims
on_client_type-Sound MessageType.clock_request_speed d c v = send_up-InOrder _ _ c v
on_client_type-Sound MessageType.clock_request_pause d c v = send_up-InOrder _ _ c v
on_client_type-Sound MessageType.travel_request d c v = send_up-InOrder _ _ c v
on_client_type-Sound MessageType.sim_select d c v = send_up-InOrder _ _ c v
on_client_type-Sound MessageType.sim_state d c v = sims_at-Sound d _ c v
on_client_type-Sound MessageType.interaction_request d c v = send_up-InOrder _ _ c v
on_client_type-Sound MessageType.interaction_command d c v = send_up-InOrder _ _ c v
on_client_type-Sound MessageType.interaction_cancel d c v = send_up-InOrder _ _ c v
on_client_type-Sound MessageType.travel_ready d c v = send_up-InOrder _ _ c v
on_client_type-Sound MessageType.travel_zone_ready d c v = send_up-InOrder _ _ c v
on_client_type-Sound MessageType.build_operation d c v = client_build-InOrder d c v
on_client_type-Sound MessageType.build_lock_request d c v = send_up-InOrder _ _ c v
on_client_type-Sound MessageType.build_lock_release d c v =
    send_up-InOrder _ _ _
      (same_order c (record c { owns_build_lock = false }) refl refl refl refl v)
on_client_type-Sound _ d c v = v

pub typed-Sound :
    (o : Option MessageType) (d : Payload) (c : ClientRuntime)
    → InOrder c
    → Sound (elim o as (λ x. Went) [ none ↦ went c | some t ↦ on_client_type t d c ])
typed-Sound none d c v = v
typed-Sound (some t) d c v = on_client_type-Sound t d c v

pub on_client_event-Sound :
    (e : BridgeEvent) (c : ClientRuntime) → InOrder c → Sound (on_client_event e c)
unfolding on_client_event client_authority client_sims
on_client_event-Sound e c v =
    if_holds Sound (text_eq e.type "game.hello") _ _ (λ h. client_hello-InOrder c v)
      (λ h.
        if_holds Sound (text_eq e.type "simulation.authority") _ _
          (λ h'. send_up-InOrder MessageType.readiness _ c v)
          (λ h'.
            if_holds Sound (text_eq e.type "sims.state") _ _ (λ k. sims_at-Sound e.payload _ c v)
              (λ k. typed-Sound (type_of e.type) e.payload c v)))

pub with_receiver-Sound :
    (r : Result SaveReceiver) (c : ClientRuntime) → InOrder c → Sound (with_receiver r c)
unfolding with_receiver save_progress save_failed
with_receiver-Sound (ok s) c v =
    send_up-InOrder _ _ _ (same_order c (record c { save_receiver = some s }) refl refl refl refl v)
with_receiver-Sound (raise (value_error t)) c v = send_up-InOrder _ _ c v
with_receiver-Sound (raise _) c v = InOrder-Showable v

pub chunk_failed-Sound :
    (e : PyError) (s : SaveReceiver) (c : ClientRuntime) → InOrder c → Sound (chunk_failed e s c)
unfolding chunk_failed save_failed
chunk_failed-Sound e s c v =
    send_up-InOrder _ _ _
      (same_order c (record c { save_receiver = some (abort s) }) refl refl refl refl v)

pub chunk_written-Sound :
    (r : Result (Unit {0}) × SaveReceiver) (c : ClientRuntime)
    → InOrder c
    → Sound (chunk_written r c)
unfolding chunk_written save_progress
chunk_written-Sound (raise e, s) c v = chunk_failed-Sound e s c v
chunk_written-Sound (ok _, s) c v =
    send_up-InOrder _ _ _ (same_order c (record c { save_receiver = some s }) refl refl refl refl v)

pub chunk_at-Sound :
    (o : Option SaveReceiver) (r : Result (ℤ × Bytes)) (c : ClientRuntime)
    → InOrder c
    → Sound (chunk_at o r c)
unfolding chunk_at save_failed
chunk_at-Sound none r c v = send_up-InOrder _ _ c v
chunk_at-Sound (some s) (raise e) c v = chunk_failed-Sound e s c v
chunk_at-Sound (some s) (ok (index, raw)) c v = chunk_written-Sound _ c v

pub finalized-InOrder :
    (r : Result Bool × SaveReceiver) (c : ClientRuntime) → InOrder c → InOrder (finalized r c)
unfolding finalized save_failed
finalized-InOrder (raise e, s) c v = send_up-InOrder _ _ c v
finalized-InOrder (ok b, s) c v = send_up-InOrder _ _ _ (same_order c _ refl refl refl refl v)

pub on_lock_state-InOrder :
    (d : Payload) (c : ClientRuntime) → InOrder c → InOrder (on_lock_state d c)
unfolding on_lock_state type_text
on_lock_state-InOrder d c v = flush_build-InOrder _ (
    tell_game-InOrder "build.lock_state" (payload_body d) _ refl
      (same_order c _ refl refl refl refl v))
