-- ===== src/Runtime/Client/Line.antt =====
-- The queue of build operations in ClientRuntime (kermp/runtime.py): which handlers leave it alone.
use ker_mp.Prelude.{
  List, String, [], arith, false, if_holds, if◌then◌else◌, leb, length, map, not, refl, sym,
  text_eq, true, ◌++◌, ◌∙◌, ◌∷◌, ◌≡◌,
}
use ker_mp.Prelude.Int.{lt_ℤ, pos, ℤ}
use ker_mp.Prelude.Errors.{Result, ok, raise, ◌>>=◌}
use ker_mp.Value.{Payload, to_int}
use ker_mp.Protocol.{MessageType}
use ker_mp.Protocol.Names.{type_text}
use ker_mp.SaveSync.{Bytes}
use ker_mp.Net.{Body, int_at, payload_body, reason_body}
use ker_mp.Runtime.Bridge.{Note}
use ker_mp.Runtime.Reading.{item}
use ker_mp.Runtime.Client.State.{
  ClientRuntime, Went, and_next, max_buffered_view_updates, send_up, sidecar_error, tell_game, went,
}
use ker_mp.Runtime.Client.Views.{
  keep_view, on_propose, propose_at, sort_views, with_bytes, with_number,
}

-- The build operations that have gone to the host.
unfoldable pub uploads : List Note → List Body
uploads [] = []
uploads (n ∷ ns) =
    let rest = uploads ns in if text_eq n.type "build.operation" then n.body ∷ rest else rest

pub uploads-other :
    (ns : List Note) (n : Note)
    → text_eq n.type "build.operation" ≡ false
    → uploads (ns ++ n ∷ []) ≡ uploads ns
unfolding uploads
uploads-other [] n h = ground (arith, h)
uploads-other (m ∷ ns) n h = ground (arith, uploads-other ns n h)

pub uploads-build :
    (ns : List Note) (n : Note)
    → text_eq n.type "build.operation" ≡ true
    → uploads (ns ++ n ∷ []) ≡ uploads ns ++ n.body ∷ []
unfolding uploads
uploads-build [] n h = rw h refl
uploads-build (m ∷ ns) n h = ground (arith, uploads-build ns n h)

abbrev pub waiting : ClientRuntime → List Body
waiting c = map (λ d. payload_body d) c.pending_build

-- What has gone to the host and what waits is what the game has made, in order, and nothing waits
-- while the client has the lease.
pub record Lined (made : List Body) (c : ClientRuntime) : Type 0 where
  pub in_order : uploads c.upstream ++ waiting c ≡ made
  pub none_waits : c.owns_build_lock ≡ true → c.pending_build ≡ []

module _ (made : List Body) where
  pub same_line :
      (c b : ClientRuntime)
      → b.upstream ≡ c.upstream
      → b.pending_build ≡ c.pending_build
      → b.owns_build_lock ≡ c.owns_build_lock
      → Lined made c
      → Lined made b
  same_line c b up pending owns v = record {
    in_order = rw (up, pending) v.in_order;
    none_waits = λ h. pending ∙ v.none_waits (sym owns ∙ h);
  }

  pub send_up-Lined :
      (type : MessageType) (body : Body) (c : ClientRuntime)
      → text_eq (type_text type) "build.operation" ≡ false
      → Lined made c
      → Lined made (send_up type body c)
  unfolding send_up
  send_up-Lined type body c other v = record {
    in_order = rw (uploads-other c.upstream _ other) v.in_order;
    none_waits = v.none_waits;
  }

  abbrev pub Kept : Went → Type 0
  Kept x = Lined made x.1

  pub and_next-Kept :
      (x : Went) (f : ClientRuntime → Went)
      → Kept x
      → ((c : ClientRuntime) → Lined made c → Kept (f c))
      → Kept (and_next x f)
  and_next-Kept (raise e, c) f v g = v
  and_next-Kept (ok u, c) f v g = g c v

  pub tell_game-Lined :
      (type : String) (body : Body) (c : ClientRuntime)
      → Lined made c
      → Lined made (tell_game type body c)
  unfolding tell_game
  tell_game-Lined type body c v = same_line c _ refl refl refl v

  pub sidecar_error-Lined :
      (reason : String) (c : ClientRuntime) → Lined made c → Lined made (sidecar_error reason c)
  unfolding sidecar_error
  sidecar_error-Lined reason c v = tell_game-Lined "sidecar.error" (reason_body reason) c v

  with_number-Kept :
      (d : Payload) (r : Result ℤ) (c : ClientRuntime) → Lined made c → Kept (with_number d r c)
  unfolding with_number tell_game
  with_number-Kept d (raise e) c v = v
  with_number-Kept d (ok id) c v = same_line c _ refl refl refl v

  pub with_bytes-Kept :
      (d : Payload) (r : Result Bytes) (c : ClientRuntime) → Lined made c → Kept (with_bytes d r c)
  unfolding with_bytes
  with_bytes-Kept d (raise e) c v = v
  with_bytes-Kept d (ok raw) c v =
      let c1 = record c { last_view_update_size = length raw } in
      with_number-Kept d (item "msg_id" d >>= λ x. to_int x) c1 (same_line c c1 refl refl refl v)

  pub keep_view-Lined :
      (d : Payload) (c : ClientRuntime) → Lined made c → Lined made (keep_view d c)
  unfolding keep_view
  keep_view-Lined d c v =
      if_holds (Lined made) (leb max_buffered_view_updates (length c.buffered_view_updates))
        (sidecar_error "view_update_buffer_full" c)
        (record c { buffered_view_updates = sort_views (c.buffered_view_updates ++ d ∷ []) })
        (λ h. sidecar_error-Lined "view_update_buffer_full" c v)
        (λ h. same_line c _ refl refl refl v)

  propose_at-Kept :
      (d : Payload) (r : Result ℤ) (c : ClientRuntime) → Lined made c → Kept (propose_at d r c)
  unfolding propose_at tell_game
  propose_at-Kept d (raise e) c v = v
  propose_at-Kept d (ok incoming) c v =
      if_holds Kept (not (lt_ℤ c.travel_epoch incoming)) (went c) _ (λ h. v)
        (λ h. same_line c _ refl refl refl v)

  pub on_propose-Kept : (d : Payload) (c : ClientRuntime) → Lined made c → Kept (on_propose d c)
  unfolding on_propose
  on_propose-Kept d c v = propose_at-Kept d (int_at "epoch" (pos 0) d) c v
