-- ===== src/Runtime/Client/Upload.antt =====
-- What the game builds and what goes to the host (kermp/runtime.py).
use ker_mp.Prelude.{
  List, String, [], append-nil, append_assoc, arith, eq_iff, if_holds, if◌then◌else◌, refl, subst,
  sym, text_eq, ◌++◌, ◌∷◌, ◌≡◌, true,
}
use ker_mp.Prelude.Errors.{Result, ok, raise}
use ker_mp.Prelude.Dict.{Dict}
use ker_mp.Value.{Payload}
use ker_mp.Protocol.Names.{type_of, type_text}
use ker_mp.SaveSync.{Bytes}
use ker_mp.Net.{Body, payload_body}
use ker_mp.Runtime.Bridge.{BridgeEvent}
use ker_mp.Runtime.Client.State.{ClientRuntime, SavedFile, Went, and_next, new_client, went}
use ker_mp.Runtime.Client.Views.{mark_local_zone_loaded}
use ker_mp.Runtime.Client.Game.{client_build, on_client_event, on_client_type}
use ker_mp.Runtime.Client.Messages.{on_host_type}
use ker_mp.Runtime.Client.Run.{
  Input, client_run, client_step, from_game, from_host, game_connects, clock_shows, zone_loaded,
}
use ker_mp.Runtime.Client.Line.{Kept, Lined, same_line, uploads}
use ker_mp.Runtime.Client.LineViews.{mark_local_zone_loaded-Kept}
use ker_mp.Runtime.Client.LineEvents.{on_host_type-Kept, other_event-Kept}
use ker_mp.Runtime.Client.Queue.{client_build-Lined}

-- The build operations that the game makes.
abbrev pub built_by : Input → List Body
built_by (from_game e) =
    if text_eq e.type "build.operation" then payload_body e.payload ∷ [] else []
built_by _ = []

abbrev pub built : List Input → List Body
built [] = []
built (x ∷ xs) = built_by x ++ built xs

build_event :
    (s : String) (d : Payload) (c : ClientRuntime)
    → s ≡ "build.operation"
    → on_client_event (record { type = s; payload = d }) c ≡ went (client_build d c)
unfolding on_client_event on_client_type type_of type_text
build_event s d c e = rw e refl

on_client_event-Kept :
    (made : List Body) (e : BridgeEvent) (c : ClientRuntime)
    → Lined made c
    → Kept (made ++ built_by (from_game e)) (on_client_event e c)
on_client_event-Kept made e c v =
    if_holds (λ bs. Kept (made ++ bs) (on_client_event e c)) (text_eq e.type "build.operation")
      (payload_body e.payload ∷ []) []
      (λ h.
        let same : e.type ≡ "build.operation" =
          ground (arith, h, eq_iff e.type "build.operation") in
        subst (Kept (made ++ payload_body e.payload ∷ []))
          (sym (build_event e.type e.payload c same)) (client_build-Lined made e.payload c v))
      (λ h.
        subst (λ m. Kept m (on_client_event e c)) (sym (append-nil made))
          (other_event-Kept made e c h v))

module _ (decode : String → Result Bytes) (sha256 : Bytes → String) where
  client_step-Kept :
      (made : List Body) (x : Input) (c : ClientRuntime)
      → Lined made c
      → Kept (made ++ built_by x) (client_step decode sha256 x c)
  unfolding client_step
  client_step-Kept made (from_game e) c v = on_client_event-Kept made e c v
  client_step-Kept made (from_host t d) c v =
      subst (λ m. Kept m (on_host_type decode sha256 t d c)) (sym (append-nil made))
        (on_host_type-Kept made decode sha256 t d c v)
  client_step-Kept made (zone_loaded epoch) c v =
      subst (λ m. Kept m (mark_local_zone_loaded decode epoch c)) (sym (append-nil made))
        (mark_local_zone_loaded-Kept made decode epoch c v)
  client_step-Kept made (game_connects n) c v =
      let b = record c { bridge = record c.bridge { connected = true; writes_left = n } } in
      subst (λ m. Lined m b) (sym (append-nil made)) (same_line made c b refl refl refl v)
  client_step-Kept made (clock_shows stamp) c v =
      let b = record c { stamp = stamp } in
      subst (λ m. Lined m b) (sym (append-nil made)) (same_line made c b refl refl refl v)

  -- A statement that has not raised is followed by the next one.
  next_of :
      (m n : List Body) (x : Went) (f : ClientRuntime → Went)
      → ((c : ClientRuntime) → Lined m c → (f c).0 ≡ ok tt → Lined n (f c).1)
      → Kept m x
      → (and_next x f).0 ≡ ok tt
      → Kept n (and_next x f)
  next_of m n (raise e, c) f g v h = absurd (ground (arith, h))
  next_of m n (ok u, c) f g v h = g c v h

  client_run-Lined :
      (made : List Body) (xs : List Input) (c : ClientRuntime)
      → Lined made c
      → (client_run decode sha256 xs c).0 ≡ ok tt
      → Kept (made ++ built xs) (client_run decode sha256 xs c)
  unfolding client_run
  client_run-Lined made [] c v h = subst (λ m. Lined m c) (sym (append-nil made)) v
  client_run-Lined made (x ∷ xs) c v h =
      subst (λ m. Kept m (client_run decode sha256 (x ∷ xs) c))
        (append_assoc made (built_by x) (built xs))
        (next_of (made ++ built_by x) ((made ++ built_by x) ++ built xs)
          (client_step decode sha256 x c) (λ b. client_run decode sha256 xs b)
          (λ b w k. client_run-Lined (made ++ built_by x) xs b w k) (client_step-Kept made x c v) h)

  -- A client is a queue between the game and the lease: after any run of a new client that has not
  -- raised, what went to the host followed by what still waits is what the game has built, in its
  -- order, nothing lost and nothing twice, and nothing waits while the client has the lease.
  pub builds_queued :
      (player_id : String) (disk : Dict SavedFile) (xs : List Input)
      → (client_run decode sha256 xs (new_client player_id disk)).0 ≡ ok tt
      → Lined (built xs) (client_run decode sha256 xs (new_client player_id disk)).1
  unfolding uploads
  builds_queued player_id disk xs h =
      let start : Lined [] (new_client player_id disk) = record {
        in_order = refl;
        none_waits = λ k. refl;
      } in
      client_run-Lined [] xs (new_client player_id disk) start h
