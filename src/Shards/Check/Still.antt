-- ===== src/Shards/Check/Still.antt =====
-- `Rebalance` on a configuration that passes `CheckConfig` (shardkv1/shardcfg/shardcfg.go).
use my.Prelude.{
  ℕ, suc, ◌+◌, ◌≤◌, ◌<◌, ◌≡◌, inl, inr, refl, true, false, some, List, [], ◌∷◌, arith, ltb, ◌==◌,
  length, Bool-cases,
}
use my.Shards.Config.{ShardConfig, n_shards, gids, contains, count, assign_loop, rebalance}
use my.Shards.Config.Counts.{analyze_lem}
use my.Shards.Config.Balance.{move_loop-stop}
use my.Shards.Check.Rebalanced.{length-gids}
use my.Shards.Check.{fewest_of, most_of, all_in, check_config}

fewest_of-le :
    (shards gs : List ℕ) (g : ℕ) → contains gs g ≡ true → fewest_of shards gs ≤ count g shards
fewest_of-le shards [] g h = absurd (ground arith)
fewest_of-le shards (x ∷ gs) g h = elim (Bool-cases (x == g)) [
  | inl t ↦ let e : x ≡ g = ground arith in ground arith
  | inr f ↦ let ih = fewest_of-le shards gs g (ground arith) in ground arith
]

most_of-ge :
    (shards gs : List ℕ) (g : ℕ) → contains gs g ≡ true → count g shards ≤ most_of shards gs
most_of-ge shards [] g h = absurd (ground arith)
most_of-ge shards (x ∷ gs) g h = elim (Bool-cases (x == g)) [
  | inl t ↦ let e : x ≡ g = ground arith in ground arith
  | inr f ↦ let ih = most_of-ge shards gs g (ground arith) in ground arith
]

assign_loop_none :
    (xs : List ℕ) (s : ℕ) (c : ShardConfig)
    → all_in (gids c.groups) xs ≡ true
    → assign_loop xs s c ≡ some c
unfolding assign_loop
assign_loop_none [] s c h = refl
assign_loop_none (x ∷ xs) s c h = elim (Bool-cases (contains (gids c.groups) x)) [
  | inl t ↦ rw t (assign_loop_none xs (suc s) c (ground arith))
  | inr f ↦ absurd (ground arith)
]

check_config-even :
    (c : ShardConfig)
    → 0 < length c.groups
    → check_config c (gids c.groups) ≡ true
    → (all_in (gids c.groups) c.shards ≡ true)
      × (most_of c.shards (gids c.groups) ≤ fewest_of c.shards (gids c.groups) + 1)
unfolding check_config
check_config-even c g h = ground (arith, length-gids c.groups)

-- A configuration with groups that passes the test is not changed.
pub rebalance-keeps :
    (fuel : ℕ) (c : ShardConfig)
    → 0 < length c.groups
    → length c.shards ≡ n_shards
    → check_config c (gids c.groups) ≡ true
    → rebalance (suc fuel) c ≡ some c
unfolding rebalance
rebalance-keeps fuel c g l h =
    let first : ltb (length c.groups) 1 ≡ false = ground arith in
    let (a, e) = check_config-even c g h in
    let x = analyze_lem c g (omega (arith, l)) in
    let gs = gids c.groups in
    let near : count x.mg c.shards < count x.lg c.shards + 2 = omega (
      arith,
      e,
      most_of-ge c.shards gs x.mg x.most_in,
      fewest_of-le c.shards gs x.lg x.fewest_in,
    ) in
    rw (first, assign_loop_none c.shards 0 c a) (move_loop-stop c x fuel near)
