-- ===== src/Net/Groups/Parts.antt =====
-- The parts of `MakePartition` (tester1/group.go).
use mathlib.Core.List.{append_assoc}
use my.Prelude.{
  ℕ, zero, suc, ◌+◌, ◌-◌, ◌/◌, ◌*◌, ◌≤◌, ◌<◌, ◌≡◌, refl, sym, ap, ◌∙◌, true, Bool-cases, inl, inr,
  List, [], ◌∷◌, ◌++◌, arith, ltb, ◌==◌, if◌then◌else◌, length, set, replicate, length-append,
  length-set, length-replicate, Returns, Returns-map, Returns-bind, lt→ltb,
}
use my.Net.Groups.{Filled, place, place_all, make_partition}

-- How often a number stands in a list.
abbrev pub count : ℕ → List ℕ → ℕ
count j [] = 0
count j (x ∷ xs) = let rest = count j xs in if x == j then suc rest else rest

-- The `n` numbers from `i` on, without `l`.
abbrev others : ℕ → ℕ → ℕ → List ℕ
others l zero i = []
others l (suc n) i = let rest = others l n (suc i) in if i == l then rest else i ∷ rest

-- Numbers written one after the other, from the place `k` on.
abbrev written : List ℕ → ℕ → List ℕ → List ℕ
written a k [] = a
written a k (x ∷ xs) = written (set a k x) (suc k) xs

set-append :
    (xs ys : List ℕ) (k v : ℕ)
    → set (xs ++ ys) k v
      ≡ (if ltb k (length xs) then set xs k v ++ ys else xs ++ set ys (k - length xs) v)
set-append [] ys k v = let e : k - 0 ≡ k = omega arith in ground (arith, e)
set-append (x ∷ xs) ys zero v = ground arith
set-append (x ∷ xs) ys (suc k) v = ground (arith, set-append xs ys k v)

-- What has been filled, in a row.
abbrev row : Filled → List ℕ
row ps = ps.p1 ++ ps.p2

record Fills (ps : Filled) (xs : List ℕ) (ps' : Filled) : Type 0 where
  first : length ps'.p1 ≡ length ps.p1
  second : length ps'.p2 ≡ length ps.p2
  next : ps'.next ≡ ps.next + length xs
  row : row ps' ≡ written (row ps) ps.next xs

place-Fills :
    (i : ℕ) (ps : Filled)
    → ps.next < length ps.p1 + length ps.p2
    → Returns (place i ps) (Fills ps (i ∷ []))
unfolding place
place-Fills i ps h = ground (
  arith,
  set-append ps.p1 ps.p2 ps.next i,
  length-set ps.p1 ps.next i,
  length-set ps.p2 (ps.next - length ps.p1) i,
)

place_all-Fills :
    (l n i : ℕ) (ps : Filled)
    → ps.next + length (others l n i) ≤ length ps.p1 + length ps.p2
    → Returns (place_all l n i ps) (Fills ps (others l n i))
unfolding place_all
place_all-Fills l zero i ps h = record {
  first = refl;
  second = refl;
  next = omega arith;
  row = refl;
}
place_all-Fills l (suc n) i ps h = elim (Bool-cases (i == l)) [
  | inl same ↦ rw same (place_all-Fills l n (suc i) ps (ground (arith, same)))
  | inr differs ↦ rw differs (
      Returns-bind (Fills ps (i ∷ [])) (Fills ps (i ∷ others l n (suc i))) (place i ps)
        (place_all l n (suc i)) (place-Fills i ps (ground (arith, differs)))
        (λ ps' f.
          Returns-map {Q = Fills ps (i ∷ others l n (suc i))} _
            (λ out g. record {
              first = g.first ∙ f.first;
              second = g.second ∙ f.second;
              next = omega (arith, f.next, g.next);
              row =
                  g.row
                  ∙ ap (λ a. written a ps'.next (others l n (suc i))) f.row
                  ∙ ap (λ (k : ℕ). written (set (row ps) ps.next i) k (others l n (suc i)))
                      (let e : ps'.next ≡ suc ps.next = omega (arith, f.next) in e);
            })
            (place_all-Fills l n (suc i) ps' (ground (arith, differs, f.next, f.first, f.second)))))
]

set-middle :
    (pre : List ℕ) (x v : ℕ) (suf : List ℕ) → set (pre ++ x ∷ suf) (length pre) v ≡ pre ++ v ∷ suf
set-middle [] x v suf = refl
set-middle (p ∷ pre) x v suf = ap (λ l. p ∷ l) (set-middle pre x v suf)

-- Numbers written over a row of zeros.
written-zeros :
    (pre xs : List ℕ) (k : ℕ)
    → written (pre ++ replicate (length xs + k) 0) (length pre) xs ≡ pre ++ (xs ++ replicate k 0)
written-zeros pre [] k = let e : 0 + k ≡ k = omega arith in rw e refl
written-zeros pre (x ∷ xs) k =
    let e : suc (length xs) + k ≡ suc (length xs + k) = omega arith in
    let n : suc (length pre) ≡ length (pre ++ x ∷ []) = omega (arith, length-append pre (x ∷ [])) in
    ap (λ (j : ℕ). written (set (pre ++ replicate j 0) (length pre) x) (suc (length pre)) xs) e
    ∙ ap (λ a. written a (suc (length pre)) xs)
        (set-middle pre 0 x (replicate (length xs + k) 0)
          ∙ sym (append_assoc pre (x ∷ []) (replicate (length xs + k) 0)))
    ∙ ap (λ (j : ℕ). written ((pre ++ x ∷ []) ++ replicate (length xs + k) 0) j xs) n
    ∙ written-zeros (pre ++ x ∷ []) xs k
    ∙ append_assoc pre (x ∷ []) (xs ++ replicate k 0)

length-others_above : (l n i : ℕ) → l < i → length (others l n i) ≡ n
length-others_above l zero i h = refl
length-others_above l (suc n) i h = ground (arith, length-others_above l n (suc i))

length-others : (l n i : ℕ) → i ≤ l → l < i + n → length (others l n i) + 1 ≡ n
length-others l zero i h k = absurd (omega arith)
length-others l (suc n) i h k =
    ground (arith, length-others l n (suc i), length-others_above l n (suc i))

count-append : (j : ℕ) (xs ys : List ℕ) → count j (xs ++ ys) ≡ count j xs + count j ys
count-append j [] ys = omega arith
count-append j (x ∷ xs) ys = ground (arith, count-append j xs ys)

count-others :
    (l j n i : ℕ)
    → count j (others l n i)
      ≡ (if ltb j i then 0 else if j == l then 0 else if ltb j (i + n) then 1 else 0)
count-others l j zero i = ground arith
count-others l j (suc n) i = ground (arith, count-others l j n (suc i))

count-set : (a : List ℕ) (i v : ℕ) → i < length a → 0 < count v (set a i v)
count-set [] i v h = elim h [ ]
count-set (x ∷ a) zero v h = ground arith
count-set (x ∷ a) (suc i) v h = ground (arith, count-set a i v)

-- Each of the `n` servers is in exactly one of the parts, once, the leader in the smaller one.
pub record IsSplit (n l : ℕ) (parts : List ℕ × List ℕ) : Type 0 where
  pub majority : length parts.0 ≡ n / 2 + 1
  pub minority : length parts.1 ≡ n / 2
  pub once : (j : ℕ) → count j parts.0 + count j parts.1 ≡ (if ltb j n then 1 else 0)
  pub leader : count l parts.1 ≡ 1

abbrev zeros : ℕ → List ℕ
zeros n = replicate n 0

length-zeros : (n : ℕ) → length (zeros n) ≡ n
length-zeros n = length-replicate n 0

replicate-append : (a b : ℕ) → zeros a ++ zeros b ≡ zeros (a + b)
replicate-append zero b = let e : 0 + b ≡ b = omega arith in rw e refl
replicate-append (suc a) b =
    let e : suc a + b ≡ suc (a + b) = omega arith in rw e (ap (λ l. 0 ∷ l) (replicate-append a b))

abbrev start : ℕ → Filled
start n = record { p1 = replicate (n / 2 + 1) 0; p2 = replicate (n / 2) 0; next = 0 }

module _ (m l : ℕ) (h : 0 < m) (k : l < 2 * m + 1) where
  abbrev xs : List ℕ
  xs = others l (2 * m + 1) 0

  length-xs : length xs + 1 ≡ 2 * m + 1
  length-xs = length-others l (2 * m + 1) 0 (omega arith) (omega arith)

  -- The filled row is the other servers and one zero.
  row-filled : (ps : Filled) → Fills (start (2 * m + 1)) xs ps → row ps ≡ xs ++ 0 ∷ []
  row-filled ps f =
      f.row
      ∙ ap (λ a. written a 0 xs)
          (replicate-append ((2 * m + 1) / 2 + 1) ((2 * m + 1) / 2)
            ∙ ap zeros (
                let e : (2 * m + 1) / 2 + 1 + (2 * m + 1) / 2 ≡ length xs + 1 =
                  omega (arith, length-xs) in
                e))
      ∙ written-zeros [] xs 1

  with_leader :
      (ps : Filled)
      → Fills (start (2 * m + 1)) xs ps
      → ps.p1 ++ set ps.p2 (length ps.p2 - 1) l ≡ xs ++ l ∷ []
  with_leader ps f =
      let n2 : length ps.p2 ≡ m = f.second ∙ length-zeros ((2 * m + 1) / 2) ∙ (omega arith) in
      let n1 : length ps.p1 ≡ m + 1 =
        f.first ∙ length-zeros ((2 * m + 1) / 2 + 1) ∙ (omega arith) in
      let at : length ps.p1 + (length ps.p2 - 1) ≡ length xs = omega (arith, n1, n2, length-xs) in
      let whole : set (row ps) (length ps.p1 + (length ps.p2 - 1)) l
          ≡ ps.p1 ++ set ps.p2 (length ps.p2 - 1) l =
        ground (arith, set-append ps.p1 ps.p2 (length ps.p1 + (length ps.p2 - 1)) l) in
      sym whole
      ∙ ap (λ (j : ℕ). set (row ps) j l) at
      ∙ ap (λ a. set a (length xs) l) (row-filled ps f)
      ∙ set-middle xs 0 l []

  once_lem :
      (ps : Filled)
      → Fills (start (2 * m + 1)) xs ps
      → (j : ℕ)
      → count j ps.p1 + count j (set ps.p2 (length ps.p2 - 1) l)
        ≡ (if ltb j (2 * m + 1) then 1 else 0)
  once_lem ps f j =
      let e : count j (ps.p1 ++ set ps.p2 (length ps.p2 - 1) l) ≡ count j (xs ++ l ∷ []) =
        ap (count j) (with_leader ps f) in
      ground (
        arith,
        e,
        count-append j ps.p1 (set ps.p2 (length ps.p2 - 1) l),
        count-append j xs (l ∷ []),
        count-others l j (2 * m + 1) 0,
      )

  filled-IsSplit :
      (ps : Filled)
      → Fills (start (2 * m + 1)) xs ps
      → IsSplit (2 * m + 1) l (ps.p1, set ps.p2 (length ps.p2 - 1) l)
  filled-IsSplit ps f =
      let n2 : length ps.p2 ≡ (2 * m + 1) / 2 = f.second ∙ length-zeros ((2 * m + 1) / 2) in
      let n1 : length ps.p1 ≡ (2 * m + 1) / 2 + 1 = f.first ∙ length-zeros ((2 * m + 1) / 2 + 1) in
      let p2 = set ps.p2 (length ps.p2 - 1) l in
      let size : length p2 ≡ (2 * m + 1) / 2 = length-set ps.p2 (length ps.p2 - 1) l ∙ n2 in
      record {
        majority = n1;
        minority = size;
        once = once_lem ps f;
        leader =
            ground
              (arith, once_lem ps f l, count-set ps.p2 (length ps.p2 - 1) l (omega (arith, n2)));
      }

  -- An odd number of servers, three at least: each is in exactly one part, once, and the leader is in the
  -- minority.
  pub make_partition-IsSplit : Returns (make_partition (2 * m + 1) l) (IsSplit (2 * m + 1) l)
  unfolding make_partition
  make_partition-IsSplit =
      Returns-bind (Fills (start (2 * m + 1)) xs) (IsSplit (2 * m + 1) l) _ _
        (place_all-Fills l (2 * m + 1) 0 (start (2 * m + 1)) (
          omega
            (arith, length-xs, length-zeros ((2 * m + 1) / 2 + 1), length-zeros ((2 * m + 1) / 2))))
        (λ ps f.
          let n2 : length ps.p2 ≡ (2 * m + 1) / 2 = f.second ∙ length-zeros ((2 * m + 1) / 2) in
          let t : ltb (length ps.p2 - 1) (length ps.p2) ≡ true = lt→ltb _ _ (omega (arith, n2)) in
          rw t (filled-IsSplit ps f))
