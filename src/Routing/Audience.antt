-- ===== src/Routing/Audience.antt =====
-- PlayerAudience (kermp/routing.py): the recipients of a message. A set of ids is a list of ids, and
-- None as a player id is `none`.
use ker_mp.Prelude.{
  List, Option, String, [], arith, eq_iff, false, if◌then◌else◌, none, some, ◌&&◌, ◌||◌, ◌∷◌, ◌≡◌,
}
use ker_mp.Prelude.Sets.{contains, contains-discard, discard}

pub data AudienceKind : Type 0 where
  all_players host_only player all_except : AudienceKind

pub record PlayerAudience : Type 0 where
  pub kind : AudienceKind
  pub player_id : Option String

unfoldable pub recipients : PlayerAudience → List String → String → List String
recipients a player_ids host_id = elim a.kind [
  | AudienceKind.host_only ↦ host_id ∷ []
  | AudienceKind.player ↦ elim a.player_id [
    | none ↦ []
    | some p ↦ if contains p player_ids then p ∷ [] else []
  ]
  | AudienceKind.all_except ↦ elim a.player_id [ none ↦ player_ids | some p ↦ discard p player_ids ]
  | AudienceKind.all_players ↦ player_ids
]

-- PLAYER and ALL_EXCEPT of one player part the players: each player is addressed by exactly one of
-- the two, and nobody else is by either.
pub audience_partition :
    (p x : String) (player_ids : List String) (host_id : String)
    → let one = contains x (
        recipients
          (record { kind = AudienceKind.player; player_id = some p })
          player_ids
          host_id) in
      let others = contains x (
        recipients
          (record { kind = AudienceKind.all_except; player_id = some p })
          player_ids
          host_id) in
      ((one || others) ≡ contains x player_ids) × ((one && others) ≡ false)
unfolding recipients contains
audience_partition p x player_ids host_id = (
  ground (arith, contains-discard p x player_ids, eq_iff p x),
  ground (arith, contains-discard p x player_ids, eq_iff p x),
)
