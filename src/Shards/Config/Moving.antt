-- ===== src/Shards/Config/Moving.antt =====
-- The shard that one round of the loop of `Rebalance` moves (shardkv1/shardcfg/shardcfg.go).
use my.Prelude.{
  ℕ, zero, suc, ◌+◌, ◌≤◌, ◌<◌, ◌≡◌, ◌≢◌, ◌⊎◌, inl, inr, refl, List, [], ◌∷◌, arith, ◌==◌, length,
  get_or, Bool-cases, ==→≡,
}
use my.Shards.Config.{count, move_one}
use my.Shards.Config.Counts.{count-le-length}

-- The pairs of shards that are in one group.
abbrev pub pairs : List ℕ → ℕ
pairs [] = 0
pairs (g ∷ rest) = count g rest + pairs rest

-- The pairs of `n` shards.
abbrev pub all_pairs : ℕ → ℕ
all_pairs zero = 0
all_pairs (suc n) = n + all_pairs n

pub pairs-le : (xs : List ℕ) → pairs xs ≤ all_pairs (length xs)
pairs-le [] = omega arith
pairs-le (g ∷ rest) = omega (arith, pairs-le rest, count-le-length g rest)

pub length-move_one : (mg lg : ℕ) (xs : List ℕ) → length (move_one mg lg xs) ≡ length xs
unfolding move_one
length-move_one mg lg [] = refl
length-move_one mg lg (x ∷ xs) = let ih = length-move_one mg lg xs in ground arith

pub get_or-move_one :
    (mg lg i : ℕ) (xs : List ℕ)
    → i < length xs
    → (get_or (move_one mg lg xs) i 0 ≡ lg) ⊎ (get_or (move_one mg lg xs) i 0 ≡ get_or xs i 0)
unfolding move_one
get_or-move_one mg lg i [] h = absurd (omega arith)
get_or-move_one mg lg zero (x ∷ xs) h = ground arith
get_or-move_one mg lg (suc i) (x ∷ xs) h =
    let ih = get_or-move_one mg lg i xs (omega arith) in ground arith

module _ (mg lg : ℕ) (d : mg ≢ lg) where
  pub count-move_one-most :
      (xs : List ℕ) → 1 ≤ count mg xs → count mg (move_one mg lg xs) + 1 ≡ count mg xs
  unfolding move_one
  count-move_one-most [] h = absurd (omega arith)
  count-move_one-most (x ∷ xs) h = elim (Bool-cases (x == mg)) [
    | inl t ↦ ground arith
    | inr f ↦ let ih = count-move_one-most xs (ground arith) in ground arith
  ]

  pub count-move_one-least :
      (xs : List ℕ) → 1 ≤ count mg xs → count lg (move_one mg lg xs) ≡ count lg xs + 1
  unfolding move_one
  count-move_one-least [] h = absurd (omega arith)
  count-move_one-least (x ∷ xs) h = elim (Bool-cases (x == mg)) [
    | inl t ↦ ground arith
    | inr f ↦ let ih = count-move_one-least xs (ground arith) in ground arith
  ]

  pub count-move_one-other :
      (g : ℕ) (xs : List ℕ) → g ≢ mg → g ≢ lg → count g (move_one mg lg xs) ≡ count g xs
  unfolding move_one
  count-move_one-other g [] e f = refl
  count-move_one-other g (x ∷ xs) e f = let ih = count-move_one-other g xs e f in ground arith

  -- A shard that goes from `mg` to `lg` parts from the other shards of `mg` and joins those of `lg`.
  pub pairs-move_one :
      (xs : List ℕ)
      → 1 ≤ count mg xs
      → pairs (move_one mg lg xs) + count mg xs ≡ pairs xs + count lg xs + 1
  unfolding move_one
  pairs-move_one [] h = absurd (omega arith)
  pairs-move_one (x ∷ xs) h = elim (Bool-cases (x == mg)) [
    | inl t ↦ let e : x ≡ mg = ==→≡ x mg t in ground arith
    | inr f ↦
        let k : 1 ≤ count mg xs = ground arith in
        let ih = pairs-move_one xs k in
        elim (Bool-cases (x == lg)) [
          | inl t ↦
              let e : x ≡ lg = ==→≡ x lg t in let i2 = count-move_one-least xs k in ground arith
          | inr n ↦
              let i3 = count-move_one-other x xs (λ e. ground arith) (λ e. ground arith) in
              ground arith
        ]
  ]
