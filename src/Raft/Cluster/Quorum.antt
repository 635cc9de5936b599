-- ===== src/Raft/Cluster/Quorum.antt =====
-- Members of a family of peers, counted.
use my.Prelude.{
  ℕ, zero, suc, ◌+◌, ◌≤◌, ◌<◌, ◌≡◌, Bool, true, false, arith, ◌==◌, Bool-cases, inl, inr, refl,
}
use my.Raft.Cluster.{update}

abbrev pub as_number : Bool → ℕ
as_number true = 1
as_number false = 0

-- How many of the peers before `n` are in the set.
pub size : ℕ → (ℕ → Bool) → ℕ
size zero q = 0
size (suc n) q = size n q + as_number (q n)

size-update_above : (n i : ℕ) (q : ℕ → Bool) (b : Bool) → n ≤ i → size n (update q i b) ≡ size n q
unfolding size
size-update_above zero i q b h = refl
size-update_above (suc n) i q b h = ground (arith, size-update_above n i q b)

-- A new member adds one.
pub size-update :
    (n i : ℕ) (q : ℕ → Bool) → i < n → q i ≡ false → size n (update q i true) ≡ size n q + 1
unfolding size
size-update zero i q h f = absurd (omega arith)
size-update (suc n) i q h f = elim (Bool-cases (i == n)) [
  | inl e ↦ ground (arith, size-update_above n i q true, e)
  | inr e ↦ ground (arith, size-update n i q, e)
]

size-single_above : (n i : ℕ) → n ≤ i → size n (λ j. i == j) ≡ 0
unfolding size
size-single_above zero i h = refl
size-single_above (suc n) i h = ground (arith, size-single_above n i)

pub size-single : (n i : ℕ) → i < n → size n (λ j. i == j) ≡ 1
unfolding size
size-single zero i h = absurd (omega arith)
size-single (suc n) i h = elim (Bool-cases (i == n)) [
  | inl e ↦ ground (arith, size-single_above n i, e)
  | inr e ↦ ground (arith, size-single n i, e)
]

-- Sets with more than `n` members together have one in common.
pub common_member :
    (n : ℕ) (p q : ℕ → Bool)
    → n < size n p + size n q
    → (i : ℕ) × (i < n) × (p i ≡ true) × (q i ≡ true)
unfolding size
common_member zero p q h = absurd (omega arith)
common_member (suc n) p q h = elim (Bool-cases (p n)) [
  | inl a ↦ elim (Bool-cases (q n)) [
    | inl b ↦ (n, omega arith, a, b)
    | inr b ↦
        let (i, l, pi, qi) = common_member n p q (ground (arith, a, b)) in (i, omega arith, pi, qi)
  ]
  | inr a ↦ let (i, l, pi, qi) = common_member n p q (ground (arith, a)) in (i, omega arith, pi, qi)
]
