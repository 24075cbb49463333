-- ===== src/Examples/Play.antt =====
-- A session of two players, its requests, Sims, commands and dialogs at concrete inputs
-- (kermp/session.py, kermp/routing.py).
use ker_mp.Prelude.{
  Bool-cases, String, [], arith, eq_iff, false, if◌then◌else◌, inl, inr, none, refl, some, subst,
  sym, text_eq, true, ◌&&◌, ◌∷◌, ◌≡◌, ◌≢◌,
}
use ker_mp.Prelude.Errors.{ok, raise, value_error}
use ker_mp.Prelude.Dict.{get, has_key}
use ker_mp.Prelude.Sets.{contains}
use ker_mp.Value.{Payload, end, null, obj, string}
use ker_mp.Session.{
  HostSession, Interaction, Player, Sim, controllers_of, core_readiness, every, is_cons, new_player,
  remove_player, select_sim,
}
use ker_mp.Session.Control.{AllListed, select_sim-AllListed, select_sim_stale}
use ker_mp.Session.Leaving.{remove_player_leaves}
use ker_mp.Session.Core.{core_ready_iff, set_up}
use ker_mp.Routing.{
  CommandResult, Dialog, DialogRouter, Handler, NetworkedCommandRouter, dispatch, respond,
}
use ker_mp.Routing.Laws.{dispatch_once, respond_owned}
use ker_mp.Travel.{TravelTxn, finished}
use ker_mp.BuildSync.{owned_by}
use ker_mp.Readiness.{core_ready}

abbrev alice : String
alice = "a"

abbrev bob : String
bob = "b"

abbrev with_sim : String → String → Player
with_sim id sim = record (new_player id id) { active_sim_id = some sim }

abbrev first_sim : Sim
first_sim = record { name = "First"; controllers = "a" ∷ [] }

abbrev second_sim : Sim
second_sim = record { name = "Second"; controllers = "b" ∷ [] }

abbrev pub session : HostSession
session = record {
  session_id = "s";
  session_name = "KerMP LAN";
  players = ("a", with_sim alice "1") ∷ ("b", with_sim bob "2") ∷ [];
  travel = record { current = none; epoch_count = 0 };
  build = record {
    lease_seconds = 8;
    lock = none;
    seq = 0;
    history_limit = 128;
    history = [];
    lease_id = none;
  };
  sims = ("1", first_sim) ∷ ("2", second_sim) ∷ [];
  interaction_requests = [];
  reconnect_sim_ids = [];
  host_manifest = none;
  native_build_buy_required = false;
  clock = record { sequence = 0; speed = 1; paused = false };
  commands = record { handlers = []; pending = [] };
  dialogs = record { pending = [] };
}

abbrev asked : Payload
asked = ("affordance_id", string "chat") ∷ []

abbrev accepted : Interaction
accepted = record {
  request_id = "r1";
  player_id = "a";
  sim_id = "1";
  affordance_id = some "chat";
  target =
      ("target_id", null)
      ∷ ("target_kind", string "object")
      ∷ ("target_sim_id", null)
      ∷ ("target_type", null)
      ∷ ("position", null)
      ∷ ("pick", null)
      ∷ ("interaction_kwargs", obj end)
      ∷ [];
  status = "accepted";
  interaction_id = none;
  command = none;
}

abbrev first_id : String
first_id = "1"

abbrev second_id : String
second_id = "2"

sims_differ : first_id ≢ second_id
sims_differ e = ground (arith, (eq_iff first_id second_id).1 e)

listed :
    (p x : String) (sim known : Sim)
    → known.controllers ≡ p ∷ []
    → some known ≡ some sim
    → contains x (p ∷ []) ≡ true
    → contains x sim.controllers ≡ true
listed p x sim known own h m = let same : known ≡ sim = ground (arith, h) in rw (sym same, own) m

-- The goal of `session-AllListed` at an id.
abbrev ListedAt : String → Sim → String → Type 0
ListedAt x sim id =
    get id session.sims ≡ some sim
    → contains x (controllers_of id session.players) ≡ true
    → contains x sim.controllers ≡ true

session-AllListed : AllListed session
unfolding get controllers_of
session-AllListed id sim h x m = elim (Bool-cases (text_eq first_id id)) [
  | inl e ↦
      subst (ListedAt x sim) ((eq_iff first_id id).0 e) (listed alice x sim first_sim refl) h m
  | inr e ↦ elim (Bool-cases (text_eq second_id id)) [
    | inl f ↦
        subst (ListedAt x sim) ((eq_iff second_id id).0 f) (listed bob x sim second_sim refl) h m
    | inr f ↦ ground (arith, h)
  ]
]

select_sim-AllListed_example : AllListed (select_sim alice "2" session).1
select_sim-AllListed_example = select_sim-AllListed alice "2" session session-AllListed

select_sim_stale_example :
    (get alice (select_sim alice second_id session).1.players
      ≡ some (record (with_sim alice "1") { active_sim_id = some second_id }))
    × (get first_id (select_sim alice second_id session).1.sims ≡ some first_sim)
unfolding get
select_sim_stale_example =
    select_sim_stale alice first_id second_id session (with_sim alice "1") first_sim second_sim refl
      refl refl sims_differ

remove_player_leaves_example :
    (has_key alice (remove_player alice session).players ≡ false)
    × ((id : String) (sim : Sim)
        → get id (remove_player alice session).sims ≡ some sim
        → sim.controllers ≡ controllers_of id (remove_player alice session).players)
    × (owned_by alice (remove_player alice session).build.lock ≡ false)
    × ((t : TravelTxn)
        → (remove_player alice session).travel.current ≡ some t
        → finished t.phase ≡ false
        → contains alice t.participants ≡ false)
    × ((k : String) (d : Dialog)
        → get k session.dialogs.pending ≡ some d
        → d.owner_player_id ≡ alice
        → get k (remove_player alice session).dialogs.pending ≡ none)
    × ((remove_player alice session).interaction_requests ≡ session.interaction_requests)
    × ((was : Player) (id : String)
        → get alice session.players ≡ some was
        → was.active_sim_id ≡ some id
        → id ≢ ""
        → get alice (remove_player alice session).reconnect_sim_ids ≡ some id)
remove_player_leaves_example = remove_player_leaves alice session

core_ready_iff_example :
    core_ready (core_readiness session)
    ≡ (is_cons session.players && every (set_up session.native_build_buy_required) session.players)
core_ready_iff_example = core_ready_iff session

abbrev echo : Handler
echo player_id payload = ok payload

abbrev router : NetworkedCommandRouter
router = record { handlers = ("chat", echo) ∷ []; pending = [] }

abbrev request_id : String
request_id = "r1"

abbrev chat_result : CommandResult
chat_result = record { request_id = string request_id; family = "chat"; result = [] }

abbrev question : Dialog
question = record { dialog_id = "d1"; owner_player_id = alice; dialog_type = "ask"; payload = [] }

abbrev asking : DialogRouter
asking = record { pending = ("d1", question) ∷ [] }

dispatch_once_example :
    dispatch "f2" bob "none" []
      (string request_id)
      (dispatch "f1" alice "chat" [] (string request_id) router).1
    ≡ (
      raise (value_error "duplicate_request_id"),
      (dispatch "f1" alice "chat" [] (string request_id) router).1,
    )
unfolding has_key
dispatch_once_example =
    dispatch_once "f1" "f2" alice bob "chat" "none" request_id [] [] router (λ e. cc) refl

respond_owned_example :
    (question.owner_player_id ≢ bob
      → ((respond bob "d1" [] asking).0 ≡ raise (value_error "dialog_not_owned"))
        × ((k : String) → get k (respond bob "d1" [] asking).1.pending ≡ get k asking.pending))
    × (question.owner_player_id ≡ bob
        → ((respond bob "d1" [] asking).0 ≡ ok (record { dialog = question; response = [] }))
          × ((k : String)
              → get k (respond bob "d1" [] asking).1.pending
                ≡ (if text_eq "d1" k then none else get k asking.pending)))
unfolding get
respond_owned_example = respond_owned bob "d1" [] asking question refl
