-- ===== src/GameMod/Repeated.antt =====
-- What the host's game builds, on its way to the games of the players (kermp/runtime.py,
-- sims_mod_src/kermp_mod/build_adapter.py).
use ker_mp.Prelude.{List, String, false, refl, ◌∙◌, ◌≡◌}
use ker_mp.Prelude.Errors.{ok}
use ker_mp.Prelude.Dict.{get}
use ker_mp.Value.{get_value, null, or_else}
use ker_mp.BuildSync.{BuildOperation}
use ker_mp.GameMod.Adapter.{Operation, SimsBuildAdapter, given_id, normalize_operation, normalized}
use ker_mp.GameMod.Applying.{apply_remote}
use ker_mp.GameMod.Once.{AdapterCall, after_all}
use ker_mp.Runtime.Host.Builds.{host_payload}
use ker_mp.GameMod.Echo.{never_tried_again}

-- The number of the operation is not read, since the id is there and is None.
number_unread :
    (o u : BuildOperation)
    → u.op ≡ o.op
    → u.args ≡ o.args
    → get_value "op_id" o.args ≡ null
    → normalize_operation (host_payload u) ≡ normalize_operation (host_payload o)
unfolding host_payload normalize_operation normalized given_id get get_value or_else
number_unread o u same_op same_args bare = rw (same_op, same_args, bare) refl

module _ (dumps : Operation → String) where
  -- When the host builds the same thing twice, with numbers of its own and with anything in between,
  -- a player's game that has got the first skips the second: the host sends an `op_id` that is None, as
  -- the data of a captured operation has none, and then the text of the operation is its key.
  pub repeated_operation_skipped :
      (o u : BuildOperation) (x : Operation) (xs : List AdapterCall) (a : SimsBuildAdapter)
      → u.op ≡ o.op
      → u.args ≡ o.args
      → get_value "op_id" o.args ≡ null
      → normalize_operation (host_payload o) ≡ ok x
      → let b = after_all dumps xs (apply_remote dumps (host_payload o) a).1 in
        apply_remote dumps (host_payload u) b ≡ (ok false, b)
  repeated_operation_skipped o u x xs a same_op same_args bare good =
      let again = number_unread o u same_op same_args bare ∙ good in
      never_tried_again dumps (host_payload o) (host_payload u) x x xs a good again refl
