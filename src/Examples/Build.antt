-- ===== src/Examples/Build.antt =====
-- Leases, build operations and their history at concrete inputs (kermp/buildsync.py).
use ker_mp.BuildSync.{BuildLock}
use ker_mp.Prelude.{
  List, String, [], arith, false, if◌then◌else◌, length, refl, some, true, ◌++◌, ◌+◌, ◌∷◌, ◌≡◌, ◌≢◌,
  ◌≤◌,
}
use ker_mp.Prelude.Int.{pos}
use ker_mp.Prelude.Errors.{PyError, ok, raise}
use ker_mp.Prelude.Dict.{get}
use ker_mp.Value.{Payload, get_value, int, string}
use ker_mp.BuildSync.{
  BuildAuthority, BuildOperation, check_entries, history_since, ids_as_text, is_number,
  is_object_operation, lacks, live_lock, max_build_data_keys, new_authority, request_lock, submit,
  trimmed, validate_build_data,
}
use ker_mp.BuildSync.Lease.{Holds, request_lock_exact, submit_exact}
use ker_mp.BuildSync.History.{
  BuildCall, IsWindow, Runs, after, after_all, after_all-IsWindow, call_request, call_submit,
  history_since_exact, new_authority-IsWindow,
}
use ker_mp.BuildSync.Checks.{id_text, is_id_key, validate_effect}
use text.Mathlib.Text.{starts_with}

abbrev holder : String
holder = "a"

abbrev other : String
other = "b"

abbrev wall_create : String
wall_create = "wall.create"

abbrev leased : BuildAuthority
leased = record {
  lease_seconds = 8;
  lock = some (record { owner_id = "a"; acquired_at = 1; lease_seconds = 8 });
  seq = 4;
  history_limit = 2;
  history = [];
  lease_id = some "77";
}

abbrev wall : Payload
wall = ("zone_id", int (pos 5)) ∷ []

abbrev wall_text : Payload
wall_text = ("zone_id", string "5") ∷ []

abbrev building : List BuildCall
building =
    call_request 0 "7" "a"
    ∷ call_submit 1 "a" "wall.create" wall
    ∷ call_submit 2 "a" "wall.delete" wall
    ∷ call_submit 3 "a" "wall.create" wall
    ∷ []

request_lock_exact_example :
    ((request_lock 5 "78" other leased).0 ≡ true
      → 9 ≤ 5 + leased.lease_seconds
      → Holds 9 other (request_lock 5 "78" other leased).1)
    × ((request_lock 5 "78" other leased).0 ≡ false
        → (live_lock 5 (request_lock 5 "78" other leased).1 ≡ live_lock 5 leased)
          × ¬ Holds 5 other leased)
    × (Holds 5 holder leased → holder ≢ other → (request_lock 5 "78" other leased).0 ≡ false)
    × (((r : String) → Holds 5 r leased → r ≡ other) → (request_lock 5 "78" other leased).0 ≡ true)
request_lock_exact_example = request_lock_exact 5 9 "78" other holder leased

submit_exact_example :
    ((o : BuildOperation)
      → (submit 5 "a" "wall.create" wall leased).0 ≡ ok o
      → Holds 5 "a" leased
        × (validate_build_data "wall.create" wall ≡ ok o.args)
        × (o.player_id ≡ "a")
        × (o.op ≡ "wall.create")
        × (o.seq ≡ leased.seq + 1)
        × ((submit 5 "a" "wall.create" wall leased).1.seq ≡ o.seq)
        × ((submit 5 "a" "wall.create" wall leased).1.history
            ≡ trimmed leased.history_limit (leased.history ++ o ∷ []))
        × ((l : BuildLock)
            → live_lock 5 leased ≡ some l
            → (submit 5 "a" "wall.create" wall leased).1.lock
              ≡ some (record l { acquired_at = 5 })))
    × ((e : PyError)
        → (submit 5 "a" "wall.create" wall leased).0 ≡ raise e
        → ((submit 5 "a" "wall.create" wall leased).1.seq ≡ leased.seq)
          × ((submit 5 "a" "wall.create" wall leased).1.history ≡ leased.history)
          × (live_lock 5 (submit 5 "a" "wall.create" wall leased).1 ≡ live_lock 5 leased))
submit_exact_example = submit_exact 5 "a" "wall.create" wall leased

built : (after_all building (new_authority 8 2)).seq ≡ 3
unfolding after_all after new_authority submit live_lock request_lock validate_build_data
    is_object_operation check_entries ker_mp.BuildSync.check_required
    ker_mp.BuildSync.record_operation
built = refl

history_since_exact_example :
    Runs (1 + 1) (history_since 1 (after_all building (new_authority 8 2)))
    × (1 + length (history_since 1 (after_all building (new_authority 8 2)))
        ≡ (after_all building (new_authority 8 2)).seq)
history_since_exact_example =
    history_since_exact 8 2 1 building (omega (arith, built)) (omega (arith, built))

after_all-IsWindow_example : IsWindow 2 (after_all building (new_authority 8 2))
after_all-IsWindow_example =
    after_all-IsWindow 2 building (new_authority 8 2) (new_authority-IsWindow 8 2)

validate_effect_example :
    (is_object_operation wall_create ≡ true)
    × (length wall ≤ max_build_data_keys)
    × ((k : String) → get k wall_text ≡ (if is_id_key k then id_text (get k wall) else get k wall))
    × (starts_with wall_create "object." ≡ true
        → wall_create ≢ "object.create"
        → lacks "object_id" wall_text ≡ false)
    × (wall_create ≡ "object.create" → lacks "definition_id" wall_text ≡ false)
    × (wall_create ≡ "funds.modify"
        → (lacks "household_id" wall_text ≡ false)
          × (is_number (get_value "amount" wall_text) ≡ true))
unfolding validate_build_data is_object_operation check_entries ker_mp.BuildSync.check_required
    ids_as_text ker_mp.BuildSync.as_text get ker_mp.Prelude.Dict.put ker_mp.Value.str
validate_effect_example = validate_effect wall_create wall wall_text refl
