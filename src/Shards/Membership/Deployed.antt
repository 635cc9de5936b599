-- ===== src/Shards/Membership/Deployed.antt =====
-- The next configuration that `JoinBalance` and `LeaveBalance` make
-- (shardkv1/shardcfg/shardcfg.go).
use Prim.Native.String.{String}
use my.Prelude.{
  ℕ, ◌+◌, ◌<◌, ◌≡◌, inr, refl, sym, ap, ◌∙◌, subst, Bool, true, false, not, ◌&&◌, ◌||◌, some, List,
  [], ◌∷◌, arith, ◌>>=◌, length, Returns, Returns-map, Returns-bind,
}
use my.Shards.Config.{ShardConfig, n_shards, gids, contains, rebalance}
use my.Shards.Config.Moving.{all_pairs}
use my.Shards.Check.{check_config}
use my.Shards.Check.Rebalanced.{rebalance-passes}
use my.Shards.Membership.{
  clashes, add_group, join_loop, join, leave_loop, leave, then_balance, join_balance, leave_balance,
}
use my.Shards.Membership.Joined.{
  IsAscending, IsWellFormed, IsNext, AreDistinct, join_loop-IsNext, leave_loop-IsNext,
  delete_group-add_group, contains-add_group,
}

-- The next configuration: its groups are those of `P`, and it passes the test.
pub record IsDeployed (P : ℕ → Bool) (c c' : ShardConfig) : Type 0 where
  pub well_formed : IsWellFormed c'
  pub num : c'.num ≡ c.num + 1
  pub members : (g : ℕ) → contains (gids c'.groups) g ≡ P g
  pub passes : check_config c' (gids c'.groups) ≡ true

rebalance-IsDeployed :
    (fuel : ℕ) (P : ℕ → Bool) (c c1 : ShardConfig)
    → all_pairs n_shards < fuel
    → IsWellFormed c
    → IsNext P c c1
    → Returns (rebalance fuel c1) (IsDeployed P c)
rebalance-IsDeployed fuel P c c1 f w n =
    Returns-map
      {P = λ c2.
        (check_config c2 (gids c1.groups) ≡ true)
        × (c2.num ≡ c1.num)
        × (c2.groups ≡ c1.groups)
        × (length c2.shards ≡ n_shards)}
      _
      (λ c2 (ok, num, groups, size). record {
        well_formed = record {
          size = size;
          keys = subst (λ gs. IsAscending (gids gs)) (sym groups) n.keys;
        };
        num = num ∙ n.num;
        members = λ g. ap (λ gs. contains (gids gs) g) groups ∙ n.members g;
        passes = subst (λ gs. check_config c2 (gids gs) ≡ true) (sym groups) ok;
      })
      (rebalance-passes fuel c1 (ap length n.shards ∙ w.size) f)

abbrev Succeeds : (ℕ → Bool) → ShardConfig → ShardConfig × Bool → Type 0
Succeeds P c r = (r.1 ≡ true) × IsDeployed P c r.0

then_balance-IsDeployed :
    (fuel : ℕ) (P : ℕ → Bool) (c : ShardConfig) (r : ShardConfig × Bool)
    → all_pairs n_shards < fuel
    → IsWellFormed c
    → r.1 ≡ true
    → IsNext P c r.0
    → Returns (then_balance fuel r) (Succeeds P c)
then_balance-IsDeployed fuel P c (c1, false) f w t n = absurd (ground arith)
then_balance-IsDeployed fuel P c (c1, true) f w t n =
    Returns-bind (IsDeployed P c) (Succeeds P c) (rebalance fuel c1) (λ c2. some (c2, true))
      (rebalance-IsDeployed fuel P c c1 f w n) (λ c2 d. (refl, d))

-- On a configuration with NShards shards and each group once, with fuel for more rounds than there
-- are pairs of shards: where Join succeeds, JoinBalance succeeds, and leaves the configuration of
-- the next number, well formed, with the old and the new groups, that passes CheckConfig.
pub join_balance-passes :
    (fuel : ℕ) (c : ShardConfig) (servers : List (ℕ × List String)) (c1 : ShardConfig)
    → all_pairs n_shards < fuel
    → IsWellFormed c
    → join c servers ≡ some (c1, true)
    → Returns (join_balance fuel c servers) (λ r.
      (r.1 ≡ true)
      × IsDeployed (λ g. contains (gids c.groups) g || contains (gids servers) g) c r.0)
unfolding join join_balance
join_balance-passes fuel c servers c1 f w e =
    let P = λ (g : ℕ). contains (gids c.groups) g || contains (gids servers) g in
    let n : IsNext P c c1 = join_loop-IsNext servers false c c1 w.keys e in
    rw e (then_balance-IsDeployed fuel P c (c1, true) f w refl n)

-- On a configuration with NShards shards and each group once, with fuel for more rounds than there
-- are pairs of shards: when different groups leave, at least one and all of them there,
-- LeaveBalance succeeds and leaves the configuration of the next number, well formed, with the
-- other groups, that passes CheckConfig.
pub leave_balance-passes :
    (fuel : ℕ) (c : ShardConfig) (gone : List ℕ)
    → all_pairs n_shards < fuel
    → IsWellFormed c
    → 0 < length gone
    → AreDistinct gone
    → ((g : ℕ) → contains gone g ≡ true → contains (gids c.groups) g ≡ true)
    → Returns (leave_balance fuel c gone) (λ r.
      (r.1 ≡ true) × IsDeployed (λ g. contains (gids c.groups) g && not (contains gone g)) c r.0)
unfolding leave leave_balance
leave_balance-passes fuel c gone f w h d m =
    let P = λ (g : ℕ). contains (gids c.groups) g && not (contains gone g) in
    Returns-bind (λ r. (r.1 ≡ true) × IsNext P c r.0) (Succeeds P c) (leave c gone)
      (λ r. then_balance fuel r) (leave_loop-IsNext gone false c w.keys d m (inr h))
      (λ r (t, n). then_balance-IsDeployed fuel P c r f w t n)

-- A new group, none of whose servers is in another, that joins and leaves again leaves the
-- configuration as it was, with a number that is two higher.
pub leave-join :
    (c : ShardConfig) (gid : ℕ) (servers : List String)
    → contains (gids c.groups) gid ≡ false
    → clashes servers c.groups ≡ false
    → (do r ← join c ((gid, servers) ∷ []); leave r.0 (gid ∷ []))
      ≡ some (record c { num = c.num + 1 + 1 }, true)
unfolding join leave join_loop leave_loop
leave-join c gid servers n k =
    let q = contains-add_group gid servers c.groups gid in
    let i : contains (gids (add_group gid servers c.groups)) gid ≡ true = ground arith in
    rw (n, k, i, delete_group-add_group gid servers c.groups n) refl
