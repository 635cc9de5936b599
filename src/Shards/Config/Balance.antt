-- ===== src/Shards/Config/Balance.antt =====
-- The two loops of `Rebalance` of shardkv1/shardcfg/shardcfg.go.
use native.Mathlib.Decide.{ℕ_discrete}
use my.Prelude.{
  ℕ, zero, suc, ◌+◌, ◌≤◌, ◌<◌, ◌≡◌, ◌≢◌, inl, inr, refl, true, false, some, List, [], ◌∷◌, arith,
  ltb, length, get_or, get_or-set_self, get_or-set_ne, length-set, length-drop, ap, subst, sym,
  drop, set, Bool-cases, ◌∙◌, Returns, Returns-map, Returns-bind,
}
use my.Shards.Config.{
  ShardConfig, n_shards, gids, contains, count, least, assign_loop, moved, move_loop, rebalance,
}
use my.Shards.Config.Counts.{IsAnalyzed, analyze_lem}
use my.Shards.Config.Moving.{
  pairs, all_pairs, pairs-le, length-move_one, get_or-move_one, pairs-move_one,
}

-- The first `n` shards are in groups.
abbrev pub AreAssigned : ShardConfig → ℕ → Type 0
AreAssigned c n = (i : ℕ) → i < n → contains (gids c.groups) (get_or c.shards i 0) ≡ true

-- The groups and the number are those of the configuration before.
pub record IsLike (c c' : ShardConfig) : Type 0 where
  pub num : c'.num ≡ c.num
  pub groups : c'.groups ≡ c.groups
  pub size : length c'.shards ≡ length c.shards

pub record IsEven (c : ShardConfig) : Type 0 where
  pub assigned : AreAssigned c (length c.shards)
  pub even :
      (g h : ℕ)
      → contains (gids c.groups) g ≡ true
      → contains (gids c.groups) h ≡ true
      → count g c.shards ≤ count h c.shards + 1

abbrev pub IsBalanced : ShardConfig → ShardConfig → Type 0
IsBalanced c c' = IsLike c c' × IsEven c'

module _ (c : ShardConfig) (x : IsAnalyzed c) (fuel : ℕ) where
  pub move_loop-stop :
      count x.mg c.shards < count x.lg c.shards + 2 → move_loop (suc fuel) c ≡ some c
  unfolding move_loop
  move_loop-stop h = ground (arith, x.most, x.ln)

  move_loop-go :
      count x.lg c.shards + 2 ≤ count x.mg c.shards
      → move_loop (suc fuel) c ≡ move_loop fuel (moved c x.mg x.lg)
  unfolding move_loop
  move_loop-go h = ground (arith, x.most, x.ln, x.fewest)

  moved-AreAssigned :
      AreAssigned c (length c.shards)
      → AreAssigned (moved c x.mg x.lg) (length (moved c x.mg x.lg).shards)
  moved-AreAssigned a i h =
      let l : i < length c.shards = omega (arith, h, length-move_one x.mg x.lg c.shards) in
      elim (get_or-move_one x.mg x.lg i c.shards l) [
        | inl e ↦ rw e x.fewest_in
        | inr e ↦ rw e (a i l)
      ]

  pairs-moved :
      count x.lg c.shards + 2 ≤ count x.mg c.shards
      → pairs (moved c x.mg x.lg).shards < pairs c.shards
  pairs-moved h =
      let d : x.mg ≢ x.lg = λ e. ground arith in
      omega (arith, pairs-move_one x.mg x.lg d c.shards (omega arith))

IsLike-trans : (a b c : ShardConfig) → IsLike a b → IsLike b c → IsLike a c
IsLike-trans a b c l m = record {
  num = m.num ∙ l.num;
  groups = m.groups ∙ l.groups;
  size = m.size ∙ l.size;
}

IsAnalyzed-IsEven :
    (c : ShardConfig) (x : IsAnalyzed c)
    → AreAssigned c (length c.shards)
    → count x.mg c.shards < count x.lg c.shards + 2
    → IsEven c
IsAnalyzed-IsEven c x a h = record {
  assigned = a;
  even = λ g k i j. omega (arith, x.upper g i, x.lower k j);
}

pub move_loop-IsBalanced :
    (fuel : ℕ) (c : ShardConfig)
    → 0 < length c.groups
    → length c.shards < 257
    → AreAssigned c (length c.shards)
    → pairs c.shards < fuel
    → Returns (move_loop fuel c) (IsBalanced c)
move_loop-IsBalanced zero c g l a f = absurd (omega arith)
move_loop-IsBalanced (suc fuel) c g l a f =
    let x = analyze_lem c g l in
    elim (Bool-cases (ltb (count x.mg c.shards) (count x.lg c.shards + 2))) [
      | inl t ↦ rw (move_loop-stop c x fuel (ground arith)) (
        record { num = refl; groups = refl; size = refl },
        IsAnalyzed-IsEven c x a (ground arith),
      )
      | inr n ↦
          let far : count x.lg c.shards + 2 ≤ count x.mg c.shards = ground arith in
          let c1 = moved c x.mg x.lg in
          let size = length-move_one x.mg x.lg c.shards in
          let like : IsLike c c1 = record { num = refl; groups = refl; size = size } in
          rw (move_loop-go c x fuel far) (
            Returns-map {Q = IsBalanced c} _ (λ c2 b. (IsLike-trans c c1 c2 like b.0, b.1))
              (move_loop-IsBalanced fuel c1 g (omega (arith, size)) (moved-AreAssigned c x fuel a)
                (omega (arith, pairs-moved c x fuel far))))
    ]

drop-cons :
    (s : ℕ) (xs : List ℕ) (g : ℕ) (rest : List ℕ)
    → drop s xs ≡ g ∷ rest
    → (s < length xs) × (get_or xs s 0 ≡ g) × (drop (suc s) xs ≡ rest)
drop-cons zero [] g rest e = absurd (cc e)
drop-cons (suc s) [] g rest e = absurd (cc e)
drop-cons zero (x ∷ xs) g rest e = (omega arith, ap (λ l. get_or l 0 0) e, ap (λ l. drop 1 l) e)
drop-cons (suc s) (x ∷ xs) g rest e =
    let (l, h, d) = drop-cons s xs g rest e in (omega (arith, l), h, d)

drop-set : (s v : ℕ) (xs : List ℕ) → drop (suc s) (set xs s v) ≡ drop (suc s) xs
drop-set s v [] = refl
drop-set zero v (x ∷ xs) = refl
drop-set (suc s) v (x ∷ xs) = drop-set s v xs

AreAssigned-suc :
    (c : ShardConfig) (s : ℕ)
    → AreAssigned c s
    → contains (gids c.groups) (get_or c.shards s 0) ≡ true
    → AreAssigned c (suc s)
AreAssigned-suc c s a h i l = elim (ℕ_discrete s i) [
  | yes e ↦ subst (λ (j : ℕ). contains (gids c.groups) (get_or c.shards j 0) ≡ true) e h
  | no d ↦ a i (omega (arith, d))
]

abbrev put_shard : ShardConfig → ℕ → ℕ → ShardConfig
put_shard c s lg = record c { shards = set c.shards s lg }

put_shard-AreAssigned :
    (c : ShardConfig) (s lg : ℕ)
    → s < length c.shards
    → contains (gids c.groups) lg ≡ true
    → AreAssigned c s
    → AreAssigned (put_shard c s lg) (suc s)
put_shard-AreAssigned c s lg l k a =
    AreAssigned-suc (put_shard c s lg) s
      (λ i h. rw (get_or-set_ne c.shards {i = s} {j = i} lg 0 (λ e. ground arith)) (a i h))
      (rw (get_or-set_self c.shards s lg 0 l) k)

pub assign_loop_lem :
    (rest : List ℕ) (s : ℕ) (c : ShardConfig)
    → 0 < length c.groups
    → length c.shards < 257
    → drop s c.shards ≡ rest
    → AreAssigned c s
    → Returns (assign_loop rest s c) (λ c'. IsLike c c' × AreAssigned c' (length c'.shards))
unfolding assign_loop least
assign_loop_lem [] s c g l e a = (
  record { num = refl; groups = refl; size = refl },
  λ i h. a i (omega (arith, length-drop s c.shards, ap length e)),
)
assign_loop_lem (x ∷ rest) s c g l e a =
    let (lt, own, d) = drop-cons s c.shards x rest e in
    elim (Bool-cases (contains (gids c.groups) x)) [
      | inl t ↦ rw t (assign_loop_lem rest (suc s) c g l d (AreAssigned-suc c s a (rw own t)))
      | inr n ↦
          let z = analyze_lem c g l in
          let c1 = put_shard c s z.lg in
          let size = length-set c.shards s z.lg in
          let like : IsLike c c1 = record { num = refl; groups = refl; size = size } in
          rw (n, z.fewest)
            (Returns-map {P = λ c2. IsLike c1 c2 × AreAssigned c2 (length c2.shards)}
              {Q = λ c2. IsLike c c2 × AreAssigned c2 (length c2.shards)} _
              (λ c2 b. (IsLike-trans c c1 c2 like b.0, b.1))
              (assign_loop_lem rest (suc s) c1 g (omega (arith, size))
                (drop-set s z.lg c.shards ∙ d) (put_shard-AreAssigned c s z.lg lt z.fewest_in a)))
    ]

pub rebalance-IsBalanced :
    (fuel : ℕ) (c : ShardConfig)
    → 0 < length c.groups
    → length c.shards ≡ n_shards
    → all_pairs n_shards < fuel
    → Returns (rebalance fuel c) (IsBalanced c)
unfolding rebalance
rebalance-IsBalanced fuel c g l f =
    let first : ltb (length c.groups) 1 ≡ false = ground arith in
    rw first (
      Returns-bind (λ c1. IsLike c c1 × AreAssigned c1 (length c1.shards)) (IsBalanced c)
        (assign_loop c.shards 0 c) (λ c1. move_loop fuel c1)
        (assign_loop_lem c.shards 0 c g (omega (arith, l)) refl (λ i k. absurd (omega (arith, k))))
        (λ c1 b.
          Returns-map {Q = IsBalanced c} _ (λ c2 d. (IsLike-trans c c1 c2 b.0 d.0, d.1))
            (move_loop-IsBalanced fuel c1 (subst (λ gs. 0 < length gs) (sym b.0.groups) g)
              (omega (arith, b.0.size, l)) b.1
              (omega (arith, pairs-le c1.shards, ap all_pairs (b.0.size ∙ l), f)))))
