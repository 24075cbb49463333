-- ===== src/GameMod/Travels.antt =====
-- The travel handlers of the mod (sims_mod_src/kermp_mod/hooks.py).
use ker_mp.Prelude.{
  Option, ℕ, zero, suc, true, Bool, String, [], false, if◌then◌else◌, none, not, some, text_eq,
  true, ◌&&◌, ◌++◌, ◌||◌, ◌∷◌,
}
use ker_mp.Prelude.Errors.{PyError, Result, ok, os_error, raise}
use ker_mp.Prelude.Int.{eq_ℤ, pos, ℤ}
use ker_mp.Value.{Payload, Value, bool, get_value, int, null, or_else, str, string, truthy}
use ker_mp.Net.{int_at, payload_body}
use ker_mp.Runtime.{epoch_of, kind_of}
use ker_mp.GameMod.Adapter.{describe}
use ker_mp.GameMod.State.{Game, Hooks}

-- A handler that raises breaks the connection to the sidecar.
abbrev pub Hooked : Type 0
Hooked = Result (Unit {0}) × Hooks

abbrev pub is_client : Hooks → Bool
is_client s = elim s.sidecar_role [ string t ↦ text_eq t "client" | _ ↦ false ]

-- _sidecar_role == 'host' or _sidecar_role == 'client'
abbrev pub has_role : Hooks → Bool
has_role s = elim s.sidecar_role [ string t ↦ text_eq t "host" || text_eq t "client" | _ ↦ false ]

-- The next statement, unless this one has raised.
abbrev pub then_next : Hooked → (Hooks → Hooked) → Hooked
then_next (raise e, s) f = (raise e, s)
then_next (ok _, s) f = f s

-- `_send` of the bridge: nothing without a connection, and OSError from a write that fails
unfoldable pub send_event : Bool → ℕ → String → Payload → Hooks → Hooked
send_event false n type d s = (ok tt, s)
send_event true zero type d s = (raise (os_error "Broken pipe"), s)
send_event true (suc n) type d s = (
  ok tt,
  record s {
    writes_left = n;
    emitted = s.emitted ++ record { type = type; body = payload_body d } ∷ [];
  },
)

-- bridge.emit(type, payload), whose result is not used
unfoldable pub emit : String → Payload → Hooks → Hooked
unfolding send_event
emit type d s = send_event s.sock s.writes_left type d s

abbrev pub txn_and_epoch : Hooks → Payload
txn_and_epoch s = ("txn_id", s.pending_travel_txn) ∷ ("epoch", int s.travel_epoch) ∷ []

-- set_simulation_bypass, without the status that repeats it
abbrev pub set_simulation_bypass : Bool → Hooks → Hooks
set_simulation_bypass active s = record s { simulation_bypass = active }

unfoldable pub begin_travel_buffer : ℤ → Hooks → Hooks
begin_travel_buffer epoch s = record s {
  travel_epoch = epoch;
  travel_buffering = true;
  travel_buffer = [];
}

-- if _sidecar_role == 'client': ...
unfoldable pub hold_client : Hooks → Hooks
unfolding begin_travel_buffer
hold_client s =
    if is_client s then begin_travel_buffer s.travel_epoch (set_simulation_bypass true s) else s

unfoldable pub prepare_at : Game → Result ℤ → Hooks → Hooked
unfolding hold_client emit
prepare_at g (raise e) s = (raise e, s)
prepare_at g (ok epoch) s =
    let s1 = record s {
      travel_epoch = epoch;
      travel_selected_sim_id = g.active_sim_id;
      travel_zone_reported = false;
    } in
    let s2 = hold_client s1 in emit "travel.ready" (txn_and_epoch s2) s2

unfoldable pub travel_prepare : Game → Payload → Hooks → Hooked
unfolding prepare_at
travel_prepare g d s =
    prepare_at g (int_at "epoch" (pos 0) d) (record s { pending_travel_txn = get_value "txn_id" d })

-- The call of the game's travel command has ended, and what follows where it has raised.
unfoldable pub invoked : Option PyError → Hooks → Hooked
unfolding emit
invoked none s = (ok tt, s)
invoked (some e) s =
    emit "travel.abort" (txn_and_epoch s ++ ("reason", string (describe e)) ∷ [])
      (record s { travel_last_error = some (describe e) })

unfoldable pub invoke_travel : Game → Hooks → Hooked
unfolding invoked
invoke_travel g s =
    if not (has_role s)
    then (ok tt, s)
    else invoked g.travel_end (record s { travel_api_info = g.api_info })

-- What a commit resets before the travel.
abbrev pub committing : Payload → ℤ → Hooks → Hooks
committing d epoch s = record s {
  travel_epoch = epoch;
  travel_batch_complete = false;
  travel_zone_reported = false;
  travel_api_info =
      ("zone_id", string (str (get_value "zone_id" d))) ∷ ("signature", string "unknown") ∷ [];
  travel_last_error = none;
}

unfoldable pub commit_at : Game → Payload → Result ℤ → Hooks → Hooked
unfolding hold_client invoke_travel
commit_at g d (raise e) s = (raise e, s)
commit_at g d (ok epoch) s = invoke_travel g (hold_client (committing d epoch s))

unfoldable pub travel_commit : Game → Payload → Hooks → Hooked
unfolding commit_at
travel_commit g d s =
    commit_at g d (int_at "epoch" s.travel_epoch d)
      (record s { pending_travel_txn = get_value "txn_id" d })

-- str(_current_zone_id())
abbrev pub zone_text : Game → String
zone_text g = elim g.zone_id [ none ↦ "0" | some z ↦ z ]

unfoldable pub zone_is_loaded : Game → Value → Bool
zone_is_loaded g zone = elim g.zone_id [
  | none ↦ false
  | some current ↦ not (truthy zone) || text_eq current (str zone)
]

-- A Sim was selected (the id is not empty), and the game makes it active.
abbrev pub restore_active_sim : Game → Hooks → Bool
restore_active_sim g s = elim s.travel_selected_sim_id [
  | none ↦ false
  | some id ↦ not (text_eq id "") && g.restores
]

-- The zone has been reported.
abbrev pub reported_zone : Hooks → Hooked
reported_zone s = (ok tt, record s { travel_zone_reported = true; simulation_bypass = false })

-- Where the report raises, the flag that it was made stays as it is.
unfoldable pub finish_zone_hydration : Game → Hooks → Hooked
unfolding emit
finish_zone_hydration g s =
    if s.travel_zone_reported
    then (ok tt, s)
    else let restored = restore_active_sim g s in
      let told =
        txn_and_epoch s
        ++ ("zone_id", string (zone_text g)) ∷ ("selected_sim_restored", bool restored) ∷ [] in
      then_next
        (emit "travel.zone_ready" told (record s { travel_selected_sim_restored = restored }))
        reported_zone

unfoldable pub view_batch_at : Game → Payload → Result ℤ → Hooks → Hooked
unfolding begin_travel_buffer finish_zone_hydration zone_is_loaded
view_batch_at g d (raise e) s = (raise e, s)
view_batch_at g d (ok epoch) s =
    if not (eq_ℤ epoch s.travel_epoch)
    then (ok tt, s)
    else if text_eq (kind_of d) "begin"
    then (let s1 = record s { travel_batch_complete = false } in
        (ok tt, if is_client s then begin_travel_buffer s.travel_epoch s1 else s1))
    else if text_eq (kind_of d) "end"
    then (let s1 = record s { travel_batch_complete = true } in
        if is_client s && zone_is_loaded g (get_value "zone_id" d)
        then finish_zone_hydration g s1
        else (ok tt, s1))
    else (ok tt, s)

unfoldable pub travel_view_batch : Game → Payload → Hooks → Hooked
unfolding view_batch_at
travel_view_batch g d s = view_batch_at g d (epoch_of d) s

unfoldable pub travel_abort : Payload → Hooks → Hooked
travel_abort d s =
    let reason = str (or_else (get_value "reason" d) (string "travel_aborted")) in
    (
      ok tt,
      record s {
        travel_last_error = some reason;
        pending_travel_txn = null;
        simulation_bypass = false;
      },
    )

unfoldable pub resume_with : Game → Payload → Result ℤ → Hooks → Hooked
unfolding finish_zone_hydration zone_is_loaded
resume_with g d (raise e) s = (raise e, s)
resume_with g d (ok epoch) s =
    if eq_ℤ epoch s.travel_epoch
      && (s.travel_batch_complete && zone_is_loaded g (get_value "zone_id" d))
    then finish_zone_hydration g s
    else (ok tt, s)

unfoldable pub travel_resume : Game → Payload → Hooks → Hooked
unfolding resume_with
travel_resume g d s =
    if is_client s then resume_with g d (int_at "epoch" s.travel_epoch d) s else (ok tt, s)

-- What `_after_zone_spin_up` does about travel; it also publishes the active Sim.
unfoldable pub after_zone_spin_up : Game → Hooks → Hooked
unfolding finish_zone_hydration emit
after_zone_spin_up g s =
    if not (truthy s.pending_travel_txn)
    then (ok tt, s)
    else let s1 = record s { travel_local_zone_loaded = true } in
      if is_client s
      then (if s.travel_batch_complete then finish_zone_hydration g s1 else (ok tt, s1))
      else let s2 = record s1 { travel_batch_complete = true } in
        let zone = ("zone_id", string (zone_text g)) ∷ [] in
        then_next (emit "travel.view_batch" (txn_and_epoch s2 ++ ("kind", string "end") ∷ zone) s2)
          (λ s3. emit "travel.zone_ready" (txn_and_epoch s2 ++ zone) s3)
