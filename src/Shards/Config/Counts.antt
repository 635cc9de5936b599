-- ===== src/Shards/Config/Counts.antt =====
-- How many shards the groups have: what `analyze` of shardkv1/shardcfg/shardcfg.go finds.
use Prim.Native.String.{String}
use my.Prelude.{
  ℕ, ◌≤◌, ◌<◌, ◌≡◌, ◌⊎◌, inl, inr, refl, true, Option, none, some, List, [], ◌∷◌, arith, ltb, ◌==◌,
  length, Bool-cases, subst, sym, ==→≡,
}
use my.Shards.Config.{
  ShardConfig, Extremes, gids, contains, count, larger, extend, analyze_loop, analyze,
}

pub count-le-length : (g : ℕ) (xs : List ℕ) → count g xs ≤ length xs
count-le-length g [] = omega arith
count-le-length g (x ∷ xs) = let ih = count-le-length g xs in ground arith

larger_cases :
    (m : Option (ℕ × ℕ)) (g n : ℕ)
    → (larger m g n ≡ some (g, n)) ⊎ ((larger m g n ≡ m) × ((p : ℕ × ℕ) × (m ≡ some p) × (n ≤ p.1)))
larger_cases none g n = inl refl
larger_cases (some (mg, mn)) g n = elim (Bool-cases (ltb mn n)) [
  | inl t ↦ inl (rw t refl)
  | inr f ↦ inr (rw f refl, ((mg, mn), refl, ground arith))
]

larger-ge :
    (m : Option (ℕ × ℕ)) (g n : ℕ) (p : ℕ × ℕ)
    → m ≡ some p
    → ((q : ℕ × ℕ) × (larger m g n ≡ some q) × (p.1 ≤ q.1))
larger-ge none g n p e = ground arith
larger-ge (some (mg, mn)) g n p e = elim (Bool-cases (ltb mn n)) [
  | inl t ↦ ((g, n), rw t refl, ground arith)
  | inr f ↦ ((mg, mn), rw f refl, ground arith)
]

module _ (gs shards : List ℕ) where
  -- The extremes are those of groups of `gs`, or the values that the loop begins with.
  abbrev IsFound : Extremes → Type 0
  IsFound x =
      ((x.most ≡ none) ⊎ ((g : ℕ) × (contains gs g ≡ true) × (x.most ≡ some (g, count g shards))))
      × (((x.lg ≡ none) × (x.ln ≡ 257))
          ⊎ ((g : ℕ) × (contains gs g ≡ true) × (x.lg ≡ some g) × (x.ln ≡ count g shards)))

  extend-IsFound :
      (x : Extremes) (g : ℕ) → contains gs g ≡ true → IsFound x → IsFound (extend shards x g)
  extend-IsFound x g h (m, l) = (
    elim (larger_cases x.most g (count g shards)) [ inl e ↦ inr (g, h, e) | inr (e, r) ↦ rw e m ],
    elim (Bool-cases (ltb (count g shards) x.ln)) [
      | inl t ↦ inr (g, h, rw t refl, rw t refl)
      | inr f ↦ rw f l
    ],
  )

  -- The extremes take the group `g` into account.
  abbrev Covers : ℕ → Extremes → Type 0
  Covers g x = (x.ln ≤ count g shards) × ((p : ℕ × ℕ) × (x.most ≡ some p) × (count g shards ≤ p.1))

  extend-Covers_self : (x : Extremes) (g : ℕ) → Covers g (extend shards x g)
  extend-Covers_self x g = (
    ground arith,
    elim (larger_cases x.most g (count g shards)) [
      | inl e ↦ ((g, count g shards), e, omega arith)
      | inr (e, (p, s, b)) ↦ (p, rw e s, b)
    ],
  )

  extend-Covers : (x : Extremes) (g h : ℕ) → Covers g x → Covers g (extend shards x h)
  extend-Covers x g h (l, (p, e, m)) =
      let (q, f, n) = larger-ge x.most h (count h shards) p e in
      (ground arith, (q, f, omega (arith, m, n)))

  analyze_loop-IsFound :
      (todo : List ℕ) (x : Extremes)
      → ((g : ℕ) → contains todo g ≡ true → contains gs g ≡ true)
      → IsFound x
      → IsFound (analyze_loop shards todo x)
  unfolding analyze_loop
  analyze_loop-IsFound [] x s f = f
  analyze_loop-IsFound (g ∷ todo) x s f =
      analyze_loop-IsFound todo (extend shards x g) (λ h k. s h (ground arith))
        (extend-IsFound x g (s g (ground arith)) f)

  analyze_loop-Covers_old :
      (todo : List ℕ) (x : Extremes) (g : ℕ) → Covers g x → Covers g (analyze_loop shards todo x)
  unfolding analyze_loop
  analyze_loop-Covers_old [] x g c = c
  analyze_loop-Covers_old (h ∷ todo) x g c =
      analyze_loop-Covers_old todo (extend shards x h) g (extend-Covers x g h c)

  analyze_loop-Covers :
      (todo : List ℕ) (x : Extremes) (g : ℕ)
      → contains todo g ≡ true
      → Covers g (analyze_loop shards todo x)
  unfolding analyze_loop
  analyze_loop-Covers [] x g h = absurd (ground arith)
  analyze_loop-Covers (k ∷ todo) x g h = elim (Bool-cases (k == g)) [
    | inl t ↦ analyze_loop-Covers_old todo (extend shards x k) g (
        subst (λ (j : ℕ). Covers g (extend shards x j)) (sym (==→≡ k g t)) (extend-Covers_self x g))
    | inr f ↦ analyze_loop-Covers todo (extend shards x k) g (ground arith)
  ]

-- What `analyze` finds: a group with the most shards and a group with the fewest.
pub record IsAnalyzed (c : ShardConfig) : Type 0 where
  pub mg : ℕ
  pub lg : ℕ
  pub most : (analyze c).most ≡ some (mg, count mg c.shards)
  pub fewest : (analyze c).lg ≡ some lg
  pub ln : (analyze c).ln ≡ count lg c.shards
  pub most_in : contains (gids c.groups) mg ≡ true
  pub fewest_in : contains (gids c.groups) lg ≡ true
  pub upper : (g : ℕ) → contains (gids c.groups) g ≡ true → count g c.shards ≤ count mg c.shards
  pub lower : (g : ℕ) → contains (gids c.groups) g ≡ true → count lg c.shards ≤ count g c.shards

has_group :
    (groups : List (ℕ × List String))
    → 0 < length groups
    → ((g : ℕ) × (contains (gids groups) g ≡ true))
has_group [] h = absurd (omega arith)
has_group (e ∷ rest) h = (e.0, ground arith)

pub analyze_lem : (c : ShardConfig) → 0 < length c.groups → length c.shards < 257 → IsAnalyzed c
unfolding analyze
analyze_lem c h l =
    let gs = gids c.groups in
    let x = analyze c in
    let start : Extremes = record { most = none; lg = none; ln = 257 } in
    let covers : (g : ℕ)
        → contains gs g ≡ true
        → (x.ln ≤ count g c.shards) × ((p : ℕ × ℕ) × (x.most ≡ some p) × (count g c.shards ≤ p.1)) =
      λ g k. analyze_loop-Covers gs c.shards gs start g k in
    let (g0, k0) = has_group c.groups h in
    let (m, f) =
      analyze_loop-IsFound gs c.shards gs start (λ g k. k) (inl refl, inl (refl, refl)) in
    let (low, (p, e, up)) = covers g0 k0 in
    elim m [
      | inl n ↦ absurd (cc (n, e))
      | inr (mg, mk, me) ↦ elim f [
        | inl (n, t) ↦ absurd (omega (arith, count-le-length g0 c.shards))
        | inr (lg, lk, le, ll) ↦ record {
          mg = mg;
          lg = lg;
          most = me;
          fewest = le;
          ln = ll;
          most_in = mk;
          fewest_in = lk;
          upper = λ g k. let (lo, (q, s, b)) = covers g k in ground (arith, s, b, me);
          lower = λ g k. omega (arith, (covers g k).0, ll);
        }
      ]
    ]
