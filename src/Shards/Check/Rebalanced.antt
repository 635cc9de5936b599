-- ===== src/Shards/Check/Rebalanced.antt =====
-- `CheckConfig` after `Rebalance` (shardkv1/shardcfg/shardcfg.go).
use Prim.Native.String.{String}
use my.Prelude.{
  ℕ, zero, suc, ◌+◌, ◌≤◌, ◌<◌, ◌≡◌, ◌⊎◌, inl, inr, refl, ap, ◌∙◌, true, some, List, [], ◌∷◌, arith,
  ltb, length, get_or, subst, replicate, length-replicate, Returns, Returns-map, Bool-cases,
}
use my.Shards.Config.{ShardConfig, n_shards, gids, contains, count, rebalance}
use my.Shards.Config.Counts.{count-le-length}
use my.Shards.Config.Moving.{all_pairs}
use my.Shards.Config.Balance.{IsEven, IsBalanced, rebalance-IsBalanced}
use my.Shards.Check.{fewest_of, most_of, all_in, check_config}

module _ (shards : List ℕ) where
  fewest_of_cases :
      (gs : List ℕ)
      → (fewest_of shards gs ≡ 257)
        ⊎ ((g : ℕ) × (contains gs g ≡ true) × (fewest_of shards gs ≡ count g shards))
  fewest_of_cases [] = inl refl
  fewest_of_cases (g ∷ gs) = elim (Bool-cases (ltb (count g shards) (fewest_of shards gs))) [
    | inl t ↦ inr (g, ground arith, rw t refl)
    | inr f ↦ elim (fewest_of_cases gs) [
      | inl e ↦ inl (rw f e)
      | inr (h, i, e) ↦ inr (h, ground arith, rw f e)
    ]
  ]

  most_of_cases :
      (gs : List ℕ)
      → (most_of shards gs ≡ 0)
        ⊎ ((g : ℕ) × (contains gs g ≡ true) × (most_of shards gs ≡ count g shards))
  most_of_cases [] = inl refl
  most_of_cases (g ∷ gs) = elim (Bool-cases (ltb (most_of shards gs) (count g shards))) [
    | inl t ↦ inr (g, ground arith, rw t refl)
    | inr f ↦ elim (most_of_cases gs) [
      | inl e ↦ inl (rw f e)
      | inr (h, i, e) ↦ inr (h, ground arith, rw f e)
    ]
  ]

  most_of-fewest_of :
      (gs : List ℕ)
      → length shards < 257
      → ((g h : ℕ)
          → contains gs g ≡ true
          → contains gs h ≡ true
          → count g shards ≤ count h shards + 1)
      → most_of shards gs ≤ fewest_of shards gs + 1
  most_of-fewest_of gs l e = elim (most_of_cases gs) [
    | inl m ↦ omega (arith, m)
    | inr (g, i, m) ↦ elim (fewest_of_cases gs) [
      | inl f ↦ omega (arith, m, f, count-le-length g shards)
      | inr (h, j, f) ↦ omega (arith, m, f, e g h i j)
    ]
  ]

all_in_lem :
    (gs xs : List ℕ)
    → ((i : ℕ) → i < length xs → contains gs (get_or xs i 0) ≡ true)
    → all_in gs xs ≡ true
all_in_lem gs [] h = refl
all_in_lem gs (x ∷ xs) h =
    rw (h 0 (omega arith)) (all_in_lem gs xs (λ i l. h (suc i) (omega arith)))

contains_self : (xs : List ℕ) (i : ℕ) → i < length xs → contains xs (get_or xs i 0) ≡ true
contains_self [] i h = absurd (omega arith)
contains_self (x ∷ xs) zero h = ground arith
contains_self (x ∷ xs) (suc i) h = let ih = contains_self xs i (omega arith) in ground arith

pub length-gids : (groups : List (ℕ × List String)) → length (gids groups) ≡ length groups
length-gids [] = refl
length-gids (g ∷ rest) = ap suc (length-gids rest)

IsEven-check_config :
    (c : ShardConfig) → IsEven c → length c.shards < 257 → check_config c (gids c.groups) ≡ true
unfolding check_config
IsEven-check_config c e l =
    let gs = gids c.groups in
    let a = all_in_lem gs gs (contains_self gs) in
    let b = all_in_lem gs c.shards e.assigned in
    let m = most_of-fewest_of c.shards gs l e.even in ground (arith, length-gids c.groups)

abbrev unassigned : ShardConfig → ShardConfig
unassigned c = record c { shards = replicate (length c.shards) 0 }

rebalance-unassigned :
    (fuel : ℕ) (c : ShardConfig)
    → ltb (length c.groups) 1 ≡ true
    → rebalance fuel c ≡ some (unassigned c)
unfolding rebalance
rebalance-unassigned fuel c t = rw t refl

check_config-unassigned :
    (c : ShardConfig) (groups : List (ℕ × List String))
    → c.groups ≡ groups
    → length groups < 1
    → check_config (unassigned c) (gids c.groups) ≡ true
unfolding check_config
check_config-unassigned c [] e h = rw e refl
check_config-unassigned c (g ∷ rest) e h = absurd (omega arith)

-- On an array of NShards shards, and with fuel for more rounds than there are pairs of shards,
-- Rebalance ends without a group -1, leaves the groups and the number alone, and what it leaves
-- passes CheckConfig for its groups.
pub rebalance-passes :
    (fuel : ℕ) (c : ShardConfig)
    → length c.shards ≡ n_shards
    → all_pairs n_shards < fuel
    → Returns (rebalance fuel c) (λ c'.
      (check_config c' (gids c.groups) ≡ true)
      × (c'.num ≡ c.num)
      × (c'.groups ≡ c.groups)
      × (length c'.shards ≡ n_shards))
rebalance-passes fuel c l f = elim (Bool-cases (ltb (length c.groups) 1)) [
  | inl t ↦ rw (rebalance-unassigned fuel c t) (
    check_config-unassigned c c.groups refl (ground arith),
    refl,
    refl,
    length-replicate (length c.shards) 0 ∙ l,
  )
  | inr n ↦
      Returns-map {P = IsBalanced c} _
        (λ c2 b. (
          subst (λ gs. check_config c2 (gids gs) ≡ true) b.0.groups
              (IsEven-check_config c2 b.1 (omega (arith, b.0.size, l))),
          b.0.num,
          b.0.groups,
          b.0.size ∙ l,
        ))
        (rebalance-IsBalanced fuel c (ground arith) l f)
]
