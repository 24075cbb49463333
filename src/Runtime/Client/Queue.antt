-- ===== src/Runtime/Client/Queue.antt =====
-- Build operations in ClientRuntime (kermp/runtime.py): a queue that waits for the lease.
use ker_mp.Prelude.{
  List, [], ap, append_assoc, arith, if_holds, map, refl, sym, ◌++◌, ◌∙◌, ◌∷◌, ◌≡◌, append-nil,
}
use ker_mp.Value.{Payload}
use ker_mp.Protocol.{MessageType}
use ker_mp.Protocol.Names.{type_text}
use ker_mp.Net.{Body, payload_body}
use ker_mp.Runtime.Client.State.{ClientRuntime, send_up}
use ker_mp.Runtime.Client.Game.{client_build, flush_build, send_builds}
use ker_mp.Runtime.Client.Line.{Lined, send_up-Lined, uploads, uploads-build, waiting}

-- Sending what waits keeps the line as it is.
send_builds-lines :
    (ds : List Payload) (c : ClientRuntime)
    → uploads (send_builds ds c).upstream ≡ uploads c.upstream ++ map (λ d. payload_body d) ds
unfolding send_builds send_up type_text
send_builds-lines [] c = sym (append-nil (uploads c.upstream))
send_builds-lines (d ∷ ds) c =
    send_builds-lines ds (send_up MessageType.build_operation (payload_body d) c)
    ∙ ap (λ us. us ++ map (λ d. payload_body d) ds)
        (uploads-build c.upstream (record { type = "build.operation"; body = payload_body d }) refl)
    ∙ append_assoc (uploads c.upstream) (payload_body d ∷ []) (map (λ d. payload_body d) ds)

pub flush_build-Lined :
    (made : List Body) (c : ClientRuntime)
    → uploads c.upstream ++ waiting c ≡ made
    → Lined made (flush_build c)
unfolding flush_build
flush_build-Lined made c line =
    if_holds (Lined made) c.owns_build_lock
      (record (send_builds c.pending_build c) { pending_build = [] }) c
      (λ h. record {
        in_order =
            append-nil (uploads (send_builds c.pending_build c).upstream)
            ∙ send_builds-lines c.pending_build c
            ∙ line;
        none_waits = λ k. refl;
      })
      (λ h. record { in_order = line; none_waits = λ k. absurd (ground (arith, h, k)) })

bodies-snoc :
    (ds : List Payload) (d : Payload)
    → map (λ d. payload_body d) (ds ++ d ∷ []) ≡ map (λ d. payload_body d) ds ++ payload_body d ∷ []
bodies-snoc [] d = refl
bodies-snoc (e ∷ ds) d = ap (λ bs. payload_body e ∷ bs) (bodies-snoc ds d)

pub client_build-Lined :
    (made : List Body) (d : Payload) (c : ClientRuntime)
    → Lined made c
    → Lined (made ++ payload_body d ∷ []) (client_build d c)
unfolding client_build type_text
client_build-Lined made d c v =
    let c1 = record c { pending_build = c.pending_build ++ d ∷ [] } in
    let longer : uploads c.upstream ++ waiting c1 ≡ made ++ payload_body d ∷ [] =
      ap (λ bs. uploads c.upstream ++ bs) (bodies-snoc c.pending_build d)
      ∙ sym (append_assoc (uploads c.upstream) (waiting c) (payload_body d ∷ []))
      ∙ ap (λ bs. bs ++ payload_body d ∷ []) v.in_order in
    if_holds (Lined (made ++ payload_body d ∷ [])) c.owns_build_lock (flush_build c1) _
      (λ h. flush_build-Lined (made ++ payload_body d ∷ []) c1 longer)
      (λ h.
        send_up-Lined (made ++ payload_body d ∷ []) MessageType.build_lock_request _ c1 refl
          (record { in_order = longer; none_waits = λ k. absurd (ground (arith, h, k)) }))
