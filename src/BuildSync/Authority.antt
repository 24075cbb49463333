-- ===== src/BuildSync/Authority.antt =====
-- BuildLock, BuildOperation and BuildAuthority (kermp/buildsync.py). Times are ticks of
-- time.monotonic(), which the caller reads: `now`; `stamp` is the decimal text of time.time_ns().
use ker_mp.Prelude.{
  Bool, List, Option, String, [], drop, false, if◌then◌else◌, length, ltb, none, not, select, some,
  text_eq, true, ℕ, ◌++◌, ◌+◌, ◌-◌, ◌==◌, ◌∷◌,
}
use ker_mp.Prelude.Int.{pos}
use ker_mp.Prelude.Errors.{Result, ok, permission_error, raise}
use ker_mp.Value.{Payload, join, str_int}
use ker_mp.BuildSync.Validate.{validate_build_data}

pub record BuildLock : Type 0 where
  pub owner_id : String
  pub acquired_at : ℕ
  pub lease_seconds : ℕ

unfoldable pub expired : ℕ → BuildLock → Bool
expired now l = ltb l.lease_seconds (now - l.acquired_at)

pub record BuildOperation : Type 0 where
  pub operation_id : String
  pub seq : ℕ
  pub player_id : String
  pub op : String
  pub args : Payload

pub record BuildAuthority : Type 0 where
  pub lease_seconds : ℕ
  pub lock : Option BuildLock
  pub seq : ℕ
  pub history_limit : ℕ
  pub history : List BuildOperation
  pub lease_id : Option String

unfoldable pub new_authority : ℕ → ℕ → BuildAuthority
new_authority lease_seconds history_limit = record {
  lease_seconds = lease_seconds;
  lock = none;
  seq = 0;
  history_limit = history_limit;
  history = [];
  lease_id = none;
}

-- `if self.lock and self.lock.expired: self.lock = None`
unfoldable pub live_lock : ℕ → BuildAuthority → Option BuildLock
unfolding expired
live_lock now a = elim a.lock [ none ↦ none | some l ↦ if expired now l then none else some l ]

abbrev pub owned_by : String → Option BuildLock → Bool
owned_by p none = false
owned_by p (some l) = text_eq l.owner_id p

-- self.lock is None or self.lock.owner_id == player_id
abbrev pub free_for : String → Option BuildLock → Bool
free_for p none = true
free_for p (some l) = text_eq l.owner_id p

unfoldable pub request_lock : ℕ → String → String → BuildAuthority → Bool × BuildAuthority
request_lock now stamp player_id a =
    let lock = live_lock now a in
    if free_for player_id lock
    then (
      true,
      record a {
        lock =
            some
              (record { owner_id = player_id; acquired_at = now; lease_seconds = a.lease_seconds });
        lease_id = some (join player_id (join ":" stamp));
      },
    )
    else (false, record a { lock = lock })

unfoldable pub release_lock : String → BuildAuthority → Bool × BuildAuthority
release_lock player_id a =
    if owned_by player_id a.lock
    then (true, record a { lock = none; lease_id = none })
    else (false, a)

-- `del history[:-limit]`: the newest `limit` entries stay, and all of them where the limit is 0.
unfoldable pub trimmed : ℕ → List BuildOperation → List BuildOperation
trimmed limit history = if limit == 0 then history else drop (length history - limit) history

-- What `submit` does once the lock is the player's and the data is valid.
unfoldable pub record_operation :
    ℕ
    → String
    → String
    → Payload
    → Option BuildLock
    → BuildAuthority
    → BuildOperation × BuildAuthority
unfolding trimmed
record_operation now player_id op args lock a =
    let seq = a.seq + 1 in
    let operation : BuildOperation = record {
      operation_id = join "build-" (str_int (pos seq));
      seq = seq;
      player_id = player_id;
      op = op;
      args = args;
    } in
    (
      operation,
      record a {
        lock = elim lock [ none ↦ none | some l ↦ some (record l { acquired_at = now }) ];
        seq = seq;
        history = trimmed a.history_limit (a.history ++ operation ∷ []);
      },
    )

unfoldable pub submit :
    ℕ → String → String → Payload → BuildAuthority → Result BuildOperation × BuildAuthority
submit now player_id op args a =
    let lock = live_lock now a in
    if not (owned_by player_id lock)
    then (
      raise (permission_error "build operation submitted without authority"),
      record a { lock = lock },
    )
    else elim (validate_build_data op args) [
      | raise e ↦ (raise e, record a { lock = lock })
      | ok checked ↦
          let (operation, a') = record_operation now player_id op checked lock a in
          (ok operation, a')
    ]

unfoldable pub history_since : ℕ → BuildAuthority → List BuildOperation
history_since seq a = select (λ o. ltb seq o.seq) a.history

pub record BuildSnapshot : Type 0 where
  pub owner_id : Option String
  pub lease_id : Option String
  pub current_sequence : ℕ
  pub recent_operations : List BuildOperation

-- `history[-20:]`
unfoldable pub snapshot : ℕ → BuildAuthority → BuildSnapshot
snapshot now a = record {
  owner_id = elim (live_lock now a) [ none ↦ none | some l ↦ some l.owner_id ];
  lease_id = a.lease_id;
  current_sequence = a.seq;
  recent_operations = drop (length a.history - 20) a.history;
}
