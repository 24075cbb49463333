-- ===== src/Runtime/Host/Unchecked.antt =====
-- Messages that the host hands on without a check (kermp/net.py, kermp/runtime.py).
use ker_mp.Prelude.{List, [], ap, refl, some, ◌++◌, ◌∙◌, ◌∷◌, ◌≡◌}
use ker_mp.Prelude.Errors.{ok}
use ker_mp.Protocol.{MessageType}
use ker_mp.Protocol.Names.{type_text}
use ker_mp.Net.{
  KerMpHost, Message, Sent, World, dispatch_message, dispatch_type, done, handed_on, log,
  payload_body,
}
use ker_mp.Runtime.Bridge.{notify}
use ker_mp.Runtime.Host.State.{HostRuntime, ran, to_game}
use ker_mp.Runtime.Host.Messages.{
  after_host, dispatch_through, last_notice, on_notice, on_peer_type, pass_on,
}

last_notice-snoc : (xs : List Sent) (x : Sent) → last_notice xs (xs ++ x ∷ []) ≡ some x
unfolding last_notice
last_notice-snoc [] x = refl
last_notice-snoc (y ∷ ys) x = last_notice-snoc ys x

noticed :
    (w : World) (m : Message) (r : HostRuntime)
    → after_host w r (done (log (handed_on m) r.host))
      ≡ on_notice w (handed_on m) (record r { host = log (handed_on m) r.host })
unfolding after_host log
noticed w m r = rw (last_notice-snoc r.host.sent (handed_on m), after_host) refl

handed_apply :
    (t : MessageType) (w : World) (m : Message) (h : KerMpHost)
    → t ≡ MessageType.build_apply
    → dispatch_type t w m h ≡ done (log (handed_on m) h)
unfolding dispatch_type
handed_apply t w m h e = rw e refl

passed_apply :
    (t : MessageType) (w : World) (m : Message) (r : HostRuntime)
    → t ≡ MessageType.build_apply
    → on_peer_type w t m r
      ≡ ran (record r { bridge = notify "build.apply" (payload_body m.payload) r.bridge })
unfolding on_peer_type pass_on to_game type_text
passed_apply t w m r e = rw e refl

-- A BUILD_APPLY from any player, with or without the build lease, is told to the host's game as the
-- host's own would be. The session stays as it is.
pub unleased_build_reaches_game :
    (w : World) (m : Message) (r : HostRuntime)
    → m.type ≡ MessageType.build_apply
    → dispatch_through w m r ≡ (
      ok tt,
      record r {
        host = record r.host { sent = r.host.sent ++ handed_on m ∷ [] };
        bridge = notify "build.apply" (payload_body m.payload) r.bridge;
      },
    )
unfolding dispatch_through dispatch_message on_notice log
unleased_build_reaches_game w m r e =
    ap (after_host w r) (handed_apply m.type w m r.host e)
    ∙ noticed w m r
    ∙ passed_apply m.type w m (record r { host = log (handed_on m) r.host }) e
