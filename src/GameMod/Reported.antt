-- ===== src/GameMod/Reported.antt =====
-- How often a client's mod reports that its zone is loaded (sims_mod_src/kermp_mod/hooks.py).
use ker_mp.GameMod.State.{Game, Hooks}
use ker_mp.GameMod.Travels.{is_client}
use ker_mp.Prelude.{
  Bool, List, [], false, if◌then◌else◌, text_eq, true, ℕ, ◌+◌, ◌∷◌, ◌≡◌, ◌≤◌, not, ◌&&◌,
}
use ker_mp.Value.{Value}
use ker_mp.Runtime.{Note}
use ker_mp.GameMod.Views.{HookEvent, committed, prepared, welcomed}

-- How many times the zone was reported.
unfoldable pub zone_reports : List Note → ℕ
zone_reports [] = 0
zone_reports (n ∷ ns) =
    let rest = zone_reports ns in if text_eq n.type "travel.zone_ready" then rest + 1 else rest

-- The reports so far and the one that may still come.
abbrev pub reports_due : Hooks → ℕ
reports_due s = zone_reports s.emitted + (if s.travel_zone_reported then 0 else 1)

-- A client stays one, and has at most `k` more reports due.
pub record NoMoreDue (k : ℕ) (s t : Hooks) : Type 0 where
  pub still_client : is_client t ≡ true
  pub due : reports_due t ≤ reports_due s + k

-- What the number of reports depends on.
abbrev quota : Hooks → Value × (ℕ × Bool)
quota s = (s.sidecar_role, (zone_reports s.emitted, s.travel_zone_reported))

-- The word which role the mod has.
abbrev pub tells_role : HookEvent → Bool
tells_role (welcomed d) = true
tells_role _ = false

abbrev pub keeps_role : List (Game × HookEvent) → Bool
keeps_role [] = true
keeps_role ((g, x) ∷ xs) = not (tells_role x) && keeps_role xs

-- 1 where the event is a prepare or a commit, which reset the flag of the report.
abbrev pub restart : HookEvent → ℕ
restart (prepared d) = 1
restart (committed d) = 1
restart _ = 0

abbrev pub restarts : List (Game × HookEvent) → ℕ
restarts [] = 0
restarts ((g, x) ∷ xs) = restart x + restarts xs
