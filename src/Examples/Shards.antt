-- ===== src/Examples/Shards.antt =====
-- Configurations of shardkv1/shardcfg/shardcfg.go at concrete groups.
use Prim.Native.String.{String}
use text.Mathlib.TextEquality.{eq_iff}
use my.Prelude.{
  ℕ, ◌≡◌, refl, true, false, not, ◌&&◌, ◌||◌, some, List, [], ◌∷◌, arith, ◌>>=◌, length, Returns,
}
use my.Shards.Config.{ShardConfig, n_shards, make_shard_config, gids, contains, rebalance}
use my.Shards.Check.{check_config}
use my.Shards.Check.Rebalanced.{rebalance-passes}
use my.Shards.Membership.{clashes, join_loop, join, leave, join_balance, leave_balance}
use my.Shards.Membership.Joined.{IsWellFormed}
use my.Shards.Membership.Deployed.{
  IsDeployed, join_balance-passes, leave_balance-passes, leave-join,
}

abbrev two_groups : List (ℕ × List String)
two_groups = (1, "a" ∷ []) ∷ (2, "b" ∷ []) ∷ []

-- Two groups, and all shards in the first.
abbrev crowded : ShardConfig
crowded = record {
  num = 1;
  shards = 1 ∷ 1 ∷ 1 ∷ 1 ∷ 1 ∷ 1 ∷ 1 ∷ 1 ∷ 1 ∷ 1 ∷ 1 ∷ 1 ∷ [];
  groups = two_groups;
}

rebalance-passes_example : Returns (rebalance 67 crowded) λ c'.
    (check_config c' (gids crowded.groups) ≡ true)
    × (c'.num ≡ crowded.num)
    × (c'.groups ≡ crowded.groups)
    × (length c'.shards ≡ n_shards)
rebalance-passes_example = rebalance-passes 67 crowded refl (omega arith)

empty-IsWellFormed : IsWellFormed make_shard_config
unfolding make_shard_config
empty-IsWellFormed = record { size = refl; keys = tt }

abbrev joined : ShardConfig
joined = record make_shard_config { num = 1; groups = two_groups }

joins : join make_shard_config two_groups ≡ some (joined, true)
unfolding join join_loop make_shard_config
joins = refl

join_balance-passes_example : Returns (join_balance 67 make_shard_config two_groups) λ r.
    (r.1 ≡ true)
    × IsDeployed
        (λ g. contains (gids make_shard_config.groups) g || contains (gids two_groups) g)
        make_shard_config
        r.0
join_balance-passes_example =
    join_balance-passes 67 make_shard_config two_groups joined (omega arith) empty-IsWellFormed
      joins

crowded-IsWellFormed : IsWellFormed crowded
crowded-IsWellFormed = record {
  size = refl;
  keys = (λ h k. ground arith, (λ h k. absurd (ground arith), tt));
}

leave_balance-passes_example : Returns (leave_balance 67 crowded (2 ∷ [])) λ r.
    (r.1 ≡ true)
    × IsDeployed (λ g. contains (gids crowded.groups) g && not (contains (2 ∷ []) g)) crowded r.0
leave_balance-passes_example =
    leave_balance-passes 67 crowded (2 ∷ []) (omega arith) crowded-IsWellFormed (omega arith)
      (refl, tt) (λ g h. ground arith)

no_clash : clashes ("c" ∷ []) crowded.groups ≡ false
no_clash = ground (arith, eq_iff "a" "c", eq_iff "b" "c")

leave-join_example :
    (do r ← join crowded ((3, "c" ∷ []) ∷ []); leave r.0 (3 ∷ []))
    ≡ some (record crowded { num = 3 }, true)
leave-join_example = leave-join crowded 3 ("c" ∷ []) refl no_clash
