-- ===== src/Net/Groups/Isolation.antt =====
-- `Partition` on the parts of `MakePartition` (tester1/group.go).
use Prim.Native.String.{String}
use my.Prelude.{
  ℕ, ◌+◌, ◌*◌, ◌<◌, ◌≡◌, refl, inl, inr, some, List, [], ◌∷◌, arith, ltb, Returns, Option-cases,
}
use my.Net.Groups.{ServerGrp, make_partition, partition}
use my.Net.Groups.Links.{mem, AllBelow, IsDistinct, IsWired}
use my.Net.Groups.Parts.{count, IsSplit, make_partition-IsSplit}
use my.Net.Groups.Partitions.{AreApart, IsParted, partition-IsParted}

mem-eq-count : (x : ℕ) (p : List ℕ) → mem x p ≡ ltb 0 (count x p)
mem-eq-count x [] = refl
mem-eq-count x (j ∷ js) = ground (arith, mem-eq-count x js)

count-AllBelow : (n : ℕ) (p : List ℕ) → ((j : ℕ) → 0 < count j p → j < n) → AllBelow n p
count-AllBelow n [] h = tt
count-AllBelow n (j ∷ js) h =
    (h j (ground arith), count-AllBelow n js (λ k c. h k (ground (arith, c))))

module _ (n l : ℕ) (parts : List ℕ × List ℕ) (s : IsSplit n l parts) where
  IsSplit-AreApart : AreApart parts.0 parts.1
  IsSplit-AreApart x h = ground (arith, mem-eq-count x parts.0, mem-eq-count x parts.1, s.once x)

  IsSplit-AllBelow : AllBelow n parts.0 × AllBelow n parts.1
  IsSplit-AllBelow = (
    count-AllBelow n parts.0 (λ j c. ground (arith, s.once j)),
    count-AllBelow n parts.1 (λ j c. ground (arith, s.once j)),
  )

-- In a group of an odd number of servers, three at least, whose ends have different names:
-- MakePartition does not panic and puts each server once into one of two parts, a majority and a
-- minority that has the leader; and Partition on these parts does not panic and leaves the end
-- from any server to any server enabled if the two are in the same part and disabled if not,
-- whatever was enabled before.
pub make_partition-IsParted :
    {S : Type 0} (m l : ℕ) (name : ℕ → ℕ → String) (sg : ServerGrp S)
    → IsDistinct name
    → IsWired (2 * m + 1) name sg
    → 0 < m
    → l < 2 * m + 1
    → (parts : List ℕ × List ℕ) × (make_partition (2 * m + 1) l ≡ some parts)
      × IsSplit (2 * m + 1) l parts
      × Returns (partition parts.0 parts.1 sg) (IsParted (2 * m + 1) name parts.0 parts.1)
make_partition-IsParted m l name sg distinct w h k =
    let n : ℕ = 2 * m + 1 in
    let split = make_partition-IsSplit m l h k in
    elim (Option-cases (make_partition n l)) [
      | inl none_made ↦ absurd (rw none_made at split)
      | inr (parts, e) ↦
          let s : IsSplit n l parts = rw e at split in
          let (b1, b2) = IsSplit-AllBelow n l parts s in
          (
            parts,
            e,
            s,
            partition-IsParted n name distinct parts.0 parts.1 sg w b1 b2
                (IsSplit-AreApart n l parts s),
          )
    ]
