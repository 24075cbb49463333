-- ===== src/Routing/Laws.antt =====
-- What the routers of kermp/routing.py promise.
use ker_mp.Prelude.{
  String, true, ◌≡◌, ◌≢◌, List, [], arith, eq_iff, eq_refl, false, if◌then◌else◌, none, refl, some,
  text_eq, ◌∷◌,
}
use ker_mp.Prelude.Dict.{has_key, Dict, get, get-pop, get-put, has_key-get, has_key-put, pop, put}
use ker_mp.Prelude.Errors.{raise, value_error, ok}
use ker_mp.Value.{Payload, Value, string, or_else, truthy, join}
use ker_mp.Routing.{
  NetworkedCommandRouter, dispatch, Dialog, DialogRouter, owned_keys, pop_all, respond,
  CommandResult, RequestCorrelation, disconnect, dispatch_as, dispatch_keyed, id_key, id_or,
}
use ker_mp.Prelude.Sets.{contains}

dispatch_as-used :
    (key : String) (id : Value) (player_id family : String) (payload : Payload)
    (r : NetworkedCommandRouter)
    → has_key key r.pending ≡ true
    → dispatch_as key id player_id family payload r
      ≡ (raise (value_error "duplicate_request_id"), r)
unfolding dispatch_as
dispatch_as-used key id player_id family payload r h = ground (arith, h)

has_key-dispatch_as :
    (key : String) (id : Value) (player_id family : String) (payload : Payload)
    (r : NetworkedCommandRouter)
    → has_key family r.handlers ≡ true
    → has_key key (dispatch_as key id player_id family payload r).1.pending ≡ true
unfolding dispatch_as
has_key-dispatch_as key id player_id family payload r known =
    let c : RequestCorrelation = record {
      request_id = id;
      player_id = player_id;
      family = family;
      completed = false;
    } in
    let pending = put key c r.pending in
    ground (
      arith,
      has_key-get family r.handlers,
      eq_refl key,
      has_key-put key key c r.pending,
      has_key-put key key (record c { completed = true }) pending,
    )

id_or-given : (id fresh : String) → id ≢ "" → id_or (string id) fresh ≡ string id
unfolding or_else truthy
id_or-given id fresh h = ground (arith, eq_iff id "")

-- With a text for its id, a request is looked up under the key of this text.
dispatch-named :
    (fresh player_id family id : String) (payload : Payload) (r : NetworkedCommandRouter)
    → id ≢ ""
    → dispatch fresh player_id family payload (string id) r
      ≡ dispatch_as (join "'" id) (string id) player_id family payload r
unfolding dispatch dispatch_keyed id_key
dispatch-named fresh player_id family id payload r named = rw (id_or-given id fresh named) refl

-- A request id is used once: whatever became of a request whose handler was called, a second request
-- with its id is refused, and changes nothing.
pub dispatch_once :
    (fresh fresh' player_id player_id' family family' id : String) (payload payload' : Payload)
    (r : NetworkedCommandRouter)
    → id ≢ ""
    → has_key family r.handlers ≡ true
    → dispatch fresh' player_id' family' payload'
        (string id)
        (dispatch fresh player_id family payload (string id) r).1
      ≡ (
        raise (value_error "duplicate_request_id"),
        (dispatch fresh player_id family payload (string id) r).1,
      )
dispatch_once fresh fresh' player_id player_id' family family' id payload payload' r named known =
    let key = join "'" id in
    let first = (dispatch_as key (string id) player_id family payload r).1 in
    rw
      (
        dispatch-named fresh player_id family id payload r named,
        dispatch-named fresh' player_id' family' id payload' first named,
      )
      (dispatch_as-used key (string id) player_id' family' payload' first
        (has_key-dispatch_as key (string id) player_id family payload r known))

-- A request is answered only if its family has a handler, and the answer carries the id and the
-- family of the request.
pub dispatch_whitelist :
    (fresh player_id family : String) (id : Value) (payload : Payload) (r : NetworkedCommandRouter)
    (result : CommandResult)
    → (dispatch fresh player_id family payload id r).0 ≡ ok result
    → (has_key family r.handlers ≡ true)
      × (result.request_id ≡ id_or id fresh)
      × (result.family ≡ family)
unfolding dispatch dispatch_keyed dispatch_as
dispatch_whitelist fresh player_id family id payload r result h =
    ground (arith, has_key-get family r.handlers)

pub owned-get :
    (p k : String) (d : Dict Dialog) (v : Dialog)
    → get k d ≡ some v
    → v.owner_player_id ≡ p
    → contains k (owned_keys p d) ≡ true
unfolding owned_keys get contains
owned-get p k [] v h e = cc
owned-get p k ((j, w) ∷ d) v h e =
    ground (arith, eq_iff j k, eq_iff w.owner_player_id p, owned-get p k d v)

pub get-pop_all {ℓ} :
    {V : Type ℓ} (ks : List String) (k : String) (d : Dict V)
    → get k (pop_all ks d) ≡ (if contains k ks then none else get k d)
unfolding pop_all contains
get-pop_all [] k d = refl
get-pop_all (j ∷ ks) k d = ground (arith, get-pop_all ks k (pop j d), get-pop j k d)

-- Only its owner closes a dialog: an answer of another player raises, and every dialog is still found
-- as before; the owner's answer takes this one dialog away, so that a second answer is refused.
pub respond_owned :
    (p id : String) (response : Payload) (d : DialogRouter) (v : Dialog)
    → get id d.pending ≡ some v
    → (v.owner_player_id ≢ p
        → ((respond p id response d).0 ≡ raise (value_error "dialog_not_owned"))
          × ((k : String) → get k (respond p id response d).1.pending ≡ get k d.pending))
      × (v.owner_player_id ≡ p
          → ((respond p id response d).0 ≡ ok (record { dialog = v; response = response }))
            × ((k : String)
                → get k (respond p id response d).1.pending
                  ≡ (if text_eq id k then none else get k d.pending)))
unfolding respond
respond_owned p id response d v h = (
  λ other. (
    ground (arith, eq_iff v.owner_player_id p),
    λ k. ground (
      arith,
      h,
      eq_iff v.owner_player_id p,
      eq_iff id k,
      get-put id k v (pop id d.pending),
      get-pop id k d.pending,
    ),
  ),
  λ own. (
    ground (arith, eq_iff v.owner_player_id p),
    λ k. ground (arith, h, eq_iff v.owner_player_id p, get-pop id k d.pending),
  ),
)

-- After `disconnect` exactly the dialogs of the other players are left, each under its key.
pub disconnect_leaves :
    (p k : String) (d : DialogRouter)
    → ((v : Dialog)
        → get k d.pending ≡ some v
        → v.owner_player_id ≡ p
        → get k (disconnect p d).1.pending ≡ none)
      × (contains k (disconnect p d).0 ≡ false → get k (disconnect p d).1.pending ≡ get k d.pending)
unfolding disconnect
disconnect_leaves p k d = (
  λ v h e.
      ground
        (arith, owned-get p k d.pending v h e, get-pop_all (owned_keys p d.pending) k d.pending),
  λ other. ground (arith, other, get-pop_all (owned_keys p d.pending) k d.pending),
)
