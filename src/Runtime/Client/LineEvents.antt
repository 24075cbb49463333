-- ===== src/Runtime/Client/LineEvents.antt =====
-- The events and messages of ClientRuntime (kermp/runtime.py) and its build operations.
use ker_mp.Prelude.{
  Bool, List, Option, String, ap, arith, false, if_holds, none, refl, some, text_eq, ◌∙◌, ◌≡◌,
}
use ker_mp.Prelude.Int.{ℤ}
use ker_mp.Prelude.Errors.{PyError, Result, ok, raise, value_error}
use ker_mp.Value.{Items, Payload, Value, get_value}
use ker_mp.Protocol.{MessageType}
use ker_mp.Protocol.Names.{type_names, type_of, type_text}
use ker_mp.Session.{no_interaction_id}
use ker_mp.SaveSync.{Bytes, SaveReceiver, abort, finalize, write_chunk}
use ker_mp.Net.{Body, payload_body}
use ker_mp.Runtime.Bridge.{BridgeEvent}
use ker_mp.Runtime.Client.State.{ClientRuntime, Went, tell_game, went}
use ker_mp.Runtime.Client.Saves.{
  chunk_at, chunk_failed, chunk_of, chunk_written, end_at, finalized, on_save_chunk, on_save_end,
  on_save_manifest, save_failed, save_progress, with_receiver,
}
use ker_mp.Runtime.Client.Game.{
  client_authority, client_hello, client_sims, on_client_event, on_client_type, select_active,
  sims_at, sims_list,
}
use ker_mp.Runtime.Client.Messages.{on_host_type, on_lock_state, pass_down}
use ker_mp.Runtime.Client.Line.{
  Kept, Lined, on_propose-Kept, same_line, send_up-Lined, tell_game-Lined,
}
use ker_mp.Runtime.Client.LineViews.{on_batch-Kept, on_resume-Kept, on_view-Kept}
use ker_mp.Runtime.Client.Queue.{flush_build-Lined}

module _ (made : List Body) where
  client_hello-Lined : (c : ClientRuntime) → Lined made c → Lined made (client_hello c)
  unfolding client_hello type_text
  client_hello-Lined c v =
      send_up-Lined made MessageType.readiness _ _ refl
        (tell_game-Lined made "sidecar.welcome" _ c v)

  client_authority-Lined :
      (d : Payload) (c : ClientRuntime) → Lined made c → Lined made (client_authority d c)
  unfolding client_authority type_text
  client_authority-Lined d c v = send_up-Lined made MessageType.readiness _ c refl v

  select_active-Lined :
      (x : Value) (c : ClientRuntime) → Lined made c → Lined made (select_active x c)
  unfolding select_active type_text
  select_active-Lined x c v =
      if_holds (Lined made) (no_interaction_id x) c _ (λ h. v)
        (λ h. send_up-Lined made MessageType.sim_select _ c refl v)

  sims_at-Kept :
      (d : Payload) (r : Result Items) (c : ClientRuntime)
      → Lined made c
      → Kept made (sims_at d r c)
  unfolding sims_at type_text
  sims_at-Kept d (raise e) c v = v
  sims_at-Kept d (ok xs) c v =
      select_active-Lined (get_value "active_sim_id" d) _
        (send_up-Lined made MessageType.sim_state _ c refl v)

  -- An event of the game that is no build operation.
  on_client_type-Kept :
      (t : MessageType) (d : Payload) (c : ClientRuntime)
      → text_eq (type_text t) "build.operation" ≡ false
      → Lined made c
      → Kept made (on_client_type t d c)
  unfolding on_client_type client_sims type_text
  on_client_type-Kept MessageType.clock_request_speed d c o v =
      send_up-Lined made MessageType.clock_request_speed _ c refl v
  on_client_type-Kept MessageType.clock_request_pause d c o v =
      send_up-Lined made MessageType.clock_request_pause _ c refl v
  on_client_type-Kept MessageType.travel_request d c o v =
      send_up-Lined made MessageType.travel_request _ c refl v
  on_client_type-Kept MessageType.sim_select d c o v =
      send_up-Lined made MessageType.sim_select _ c refl v
  on_client_type-Kept MessageType.sim_state d c o v = sims_at-Kept d (sims_list d) c v
  on_client_type-Kept MessageType.interaction_request d c o v =
      send_up-Lined made MessageType.interaction_request _ c refl v
  on_client_type-Kept MessageType.interaction_command d c o v =
      send_up-Lined made MessageType.interaction_command _ c refl v
  on_client_type-Kept MessageType.interaction_cancel d c o v =
      send_up-Lined made MessageType.interaction_cancel _ c refl v
  on_client_type-Kept MessageType.travel_ready d c o v =
      send_up-Lined made MessageType.travel_ready _ c refl v
  on_client_type-Kept MessageType.travel_zone_ready d c o v =
      send_up-Lined made MessageType.travel_zone_ready _ c refl v
  on_client_type-Kept MessageType.build_operation d c o v = absurd (ground (arith, o))
  on_client_type-Kept MessageType.build_lock_request d c o v =
      send_up-Lined made MessageType.build_lock_request _ c refl v
  on_client_type-Kept MessageType.build_lock_release d c o v =
      send_up-Lined made MessageType.build_lock_release _ (record c { owns_build_lock = false })
        refl (record { in_order = v.in_order; none_waits = λ h. absurd (ground (arith, h)) })
  on_client_type-Kept _ d c o v = v

  typed-Kept :
      (s : String) (o : Option MessageType) (d : Payload) (c : ClientRuntime)
      → type_of s ≡ o
      → text_eq s "build.operation" ≡ false
      → Lined made c
      → Kept made (elim o as (λ x. Went) [ none ↦ went c | some t ↦ on_client_type t d c ])
  typed-Kept s none d c e other v = v
  typed-Kept s (some t) d c e other v =
      let named : type_text t ≡ s = (type_names t s).1 e in
      on_client_type-Kept t d c (ap (λ x. text_eq x "build.operation") named ∙ other) v

  pub other_event-Kept :
      (e : BridgeEvent) (c : ClientRuntime)
      → text_eq e.type "build.operation" ≡ false
      → Lined made c
      → Kept made (on_client_event e c)
  unfolding on_client_event client_sims
  other_event-Kept e c other v =
      if_holds (Kept made) (text_eq e.type "game.hello") (went (client_hello c)) _
        (λ h. client_hello-Lined c v)
        (λ h.
          if_holds (Kept made) (text_eq e.type "simulation.authority")
            (went (client_authority e.payload c)) _ (λ h. client_authority-Lined e.payload c v)
            (λ h.
              if_holds (Kept made) (text_eq e.type "sims.state")
                (sims_at e.payload (sims_list e.payload) c) _
                (λ h. sims_at-Kept e.payload (sims_list e.payload) c v)
                (λ h. typed-Kept e.type (type_of e.type) e.payload c refl other v)))

  with_receiver-Kept :
      (r : Result SaveReceiver) (c : ClientRuntime) → Lined made c → Kept made (with_receiver r c)
  unfolding with_receiver save_progress save_failed type_text
  with_receiver-Kept (ok s) c v =
      let c1 = record c { save_receiver = some s } in
      send_up-Lined made MessageType.readiness _ c1 refl (same_line made c c1 refl refl refl v)
  with_receiver-Kept (raise (value_error t)) c v = send_up-Lined made _ _ c refl v
  with_receiver-Kept (raise _) c v = v

  chunk_failed-Kept :
      (e : PyError) (s : SaveReceiver) (c : ClientRuntime)
      → Lined made c
      → Kept made (chunk_failed e s c)
  unfolding chunk_failed save_failed type_text
  chunk_failed-Kept e s c v =
      let c1 = record c { save_receiver = some (abort s) } in
      send_up-Lined made _ _ c1 refl (same_line made c c1 refl refl refl v)

  chunk_written-Kept :
      (r : Result (Unit {0}) × SaveReceiver) (c : ClientRuntime)
      → Lined made c
      → Kept made (chunk_written r c)
  unfolding chunk_written save_progress type_text
  chunk_written-Kept (raise e, s) c v = chunk_failed-Kept e s c v
  chunk_written-Kept (ok _, s) c v =
      let c1 = record c { save_receiver = some s } in
      send_up-Lined made _ _ c1 refl (same_line made c c1 refl refl refl v)

  chunk_at-Kept :
      (o : Option SaveReceiver) (r : Result (ℤ × Bytes)) (c : ClientRuntime)
      → Lined made c
      → Kept made (chunk_at o r c)
  unfolding chunk_at save_failed type_text
  chunk_at-Kept none r c v = send_up-Lined made _ _ c refl v
  chunk_at-Kept (some s) (raise e) c v = chunk_failed-Kept e s c v
  chunk_at-Kept (some s) (ok (index, raw)) c v = chunk_written-Kept (write_chunk index raw s) c v

  finalized-Lined :
      (r : Result Bool × SaveReceiver) (c : ClientRuntime)
      → Lined made c
      → Lined made (finalized r c)
  unfolding finalized save_failed type_text
  finalized-Lined (raise e, s) c v = send_up-Lined made _ _ c refl v
  finalized-Lined (ok b, s) c v =
      send_up-Lined made _ _ _ refl (same_line made c _ refl refl refl v)

  end_at-Kept :
      (sha256 : Bytes → String) (id : String) (o : Option SaveReceiver) (c : ClientRuntime)
      → Lined made c
      → Kept made (end_at sha256 id o c)
  unfolding end_at save_failed type_text
  end_at-Kept sha256 id none c v = send_up-Lined made _ _ c refl v
  end_at-Kept sha256 id (some s) c v =
      let r = finalize sha256 id c.stamp s in
      same_line made (finalized r c) _ refl refl refl (finalized-Lined r c v)

  on_lock_state-Lined :
      (d : Payload) (c : ClientRuntime) → Lined made c → Lined made (on_lock_state d c)
  unfolding on_lock_state tell_game
  on_lock_state-Lined d c v = flush_build-Lined made _ v.in_order

  told-Kept :
      (t : MessageType) (d : Payload) (c : ClientRuntime)
      → Lined made c
      → Kept made (pass_down t d c)
  unfolding pass_down
  told-Kept t d c v = tell_game-Lined made (type_text t) (payload_body d) c v

  pub on_host_type-Kept :
      (decode : String → Result Bytes) (sha256 : Bytes → String) (t : MessageType) (d : Payload)
      (c : ClientRuntime)
      → Lined made c
      → Kept made (on_host_type decode sha256 t d c)
  unfolding on_host_type on_save_manifest on_save_chunk on_save_end
  on_host_type-Kept decode sha256 MessageType.save_manifest d c v = with_receiver-Kept _ c v
  on_host_type-Kept decode sha256 MessageType.save_chunk d c v =
      chunk_at-Kept c.save_receiver (chunk_of decode d) c v
  on_host_type-Kept decode sha256 MessageType.save_end d c v =
      end_at-Kept sha256 _ c.save_receiver c v
  on_host_type-Kept decode sha256 MessageType.game_raw_message d c v =
      on_view-Kept made decode d c v
  on_host_type-Kept decode sha256 MessageType.travel_view_batch d c v =
      on_batch-Kept made decode d c v
  on_host_type-Kept decode sha256 MessageType.travel_propose d c v = on_propose-Kept made d c v
  on_host_type-Kept decode sha256 MessageType.travel_resume d c v = on_resume-Kept made decode d c v
  on_host_type-Kept decode sha256 MessageType.build_lock_state d c v = on_lock_state-Lined d c v
  on_host_type-Kept decode sha256 MessageType.travel_commit d c v =
      told-Kept MessageType.travel_commit d c v
  on_host_type-Kept decode sha256 MessageType.travel_abort d c v =
      told-Kept MessageType.travel_abort d c v
  on_host_type-Kept decode sha256 MessageType.build_apply d c v =
      told-Kept MessageType.build_apply d c v
  on_host_type-Kept decode sha256 MessageType.clock_state d c v =
      told-Kept MessageType.clock_state d c v
  on_host_type-Kept decode sha256 MessageType.sim_state d c v =
      told-Kept MessageType.sim_state d c v
  on_host_type-Kept decode sha256 MessageType.sim_selection_state d c v =
      told-Kept MessageType.sim_selection_state d c v
  on_host_type-Kept decode sha256 MessageType.interaction_accepted d c v =
      told-Kept MessageType.interaction_accepted d c v
  on_host_type-Kept decode sha256 MessageType.interaction_rejected d c v =
      told-Kept MessageType.interaction_rejected d c v
  on_host_type-Kept decode sha256 MessageType.interaction_command_accepted d c v =
      told-Kept MessageType.interaction_command_accepted d c v
  on_host_type-Kept decode sha256 MessageType.interaction_command_rejected d c v =
      told-Kept MessageType.interaction_command_rejected d c v
  on_host_type-Kept decode sha256 MessageType.interaction_queued d c v =
      told-Kept MessageType.interaction_queued d c v
  on_host_type-Kept decode sha256 MessageType.interaction_started d c v =
      told-Kept MessageType.interaction_started d c v
  on_host_type-Kept decode sha256 MessageType.interaction_finished d c v =
      told-Kept MessageType.interaction_finished d c v
  on_host_type-Kept decode sha256 MessageType.interaction_cancel d c v =
      told-Kept MessageType.interaction_cancel d c v
  on_host_type-Kept decode sha256 MessageType.error d c v =
      tell_game-Lined made "sidecar.error" (payload_body d) c v
  on_host_type-Kept decode sha256 _ d c v = v
