-- ===== src/Net/Groups/Partitions.antt =====
-- What `Partition` leaves of the connections of a group (tester1/group.go).
use Prim.Native.String.{String}
use my.Prelude.{
  ℕ, ◌<◌, ◌≡◌, refl, ap, ◌∙◌, Bool, true, false, ◌||◌, Bool-cases, inl, inr, Option, List, [], ◌∷◌,
  arith, ◌==◌, ==→≡, if◌then◌else◌, length, get_or, set, length-set, Returns, Returns-map,
  Returns-bind, ◌>>=◌,
}
use my.Net.Groups.{ServerGrp, each, attach, disconnect, partition}
use my.Net.Groups.Links.{mem, AllBelow, IsDistinct, IsWired, on, Leaves, IsWired-move}
use my.Net.Groups.Connections.{joined, get_or-set, up, attach-Leaves, disconnect-Leaves}

-- The lists have no server in common.
abbrev pub AreApart : List ℕ → List ℕ → Type 0
AreApart p q = (x : ℕ) → mem x p ≡ true → mem x q ≡ false

-- Two servers are connected just if they are in the same part.
abbrev pub IsParted : {S : Type 0} → ℕ → (ℕ → ℕ → String) → List ℕ → List ℕ → ServerGrp S → Type 0
IsParted n name p1 p2 sg =
    (x y : ℕ)
    → (mem x p1 || mem x p2) ≡ true
    → (mem y p1 || mem y p2) ≡ true
    → on n name sg x y ≡ (if mem x p1 then mem y p1 else mem y p2)

AreApart-swap : (p q : List ℕ) → AreApart p q → AreApart q p
AreApart-swap p q apart x h = elim (Bool-cases (mem x p)) [
  | inl e ↦ absurd (cc (apart x e, h))
  | inr e ↦ e
]

member_done :
    (p : List ℕ) (done : ℕ → Bool) (i x : ℕ)
    → mem i p ≡ true
    → (done x ≡ true → mem x p ≡ true)
    → (done x || x == i) ≡ true
    → mem x p ≡ true
member_done p done i x hi d e = elim (Bool-cases (x == i)) [
  | inl same ↦ let q : x ≡ i = ==→≡ x i same in rw q hi
  | inr differs ↦ d (ground (arith, e, differs))
]

module _ {S : Type 0} (n : ℕ) (name : ℕ → ℕ → String) (distinct : IsDistinct name) where
  -- One round of a loop of `Partition`.
  abbrev round : List ℕ → List ℕ → ℕ → ServerGrp S → Option (ServerGrp S)
  round p q i sg = do sg' ← disconnect i q sg; attach i p sg'

  -- The ends after a round, and which servers are connected.
  record Rounds (p q : List ℕ) (i : ℕ) (sg sg' : ServerGrp S) : Type 0 where
    links :
        (x y : ℕ)
        → on n name sg' x y ≡ (
            if joined (λ z. z == i || up n name distinct sg z) i p x y
            then true
            else if joined (λ z. true) i q x y
            then false
            else on n name sg x y)
    live : (x : ℕ) → up n name distinct sg' x ≡ (x == i || up n name distinct sg x)
    size : length sg'.connected ≡ n
    srvs : sg'.srvs ≡ sg.srvs

  round-Rounds :
      (p q : List ℕ) (i : ℕ) (sg : ServerGrp S)
      → IsWired n name sg
      → i < n
      → AllBelow n p
      → AllBelow n q
      → Returns (round p q i sg) (Rounds p q i sg)
  round-Rounds p q i sg w hi bp bq =
      Returns-bind
        (Leaves n name (λ x y. if joined (λ z. true) i q x y then false else on n name sg x y)
          (set sg.connected i false) sg)
        (Rounds p q i sg) _ _ (disconnect-Leaves n name distinct i q sg w hi bq)
        (λ sg₁ l.
          let size : length sg₁.connected ≡ n =
            ap length l.connected ∙ length-set sg.connected i false ∙ w.size in
          let w₁ = IsWired-move n name distinct sg sg₁ w l.srvs size in
          let live : (x : ℕ)
              → get_or (set sg₁.connected i true) x false ≡ (x == i || up n name distinct sg x) =
            λ x.
              get_or-set sg₁.connected i true x (omega (arith, size, hi))
              ∙ ap (λ a. if x == i then true else get_or a x false) l.connected
              ∙ ground (arith, get_or-set sg.connected i false x) in
          Returns-map {Q = Rounds p q i sg} _
            (λ sg₂ k. record {
              links = λ x y. k.links x y ∙ ground (arith, live x, live y, l.links x y);
              live = λ x. ap (λ a. get_or a x false) k.connected ∙ live x;
              size = ap length k.connected ∙ length-set sg₁.connected i true ∙ size;
              srvs = k.srvs ∙ l.srvs;
            })
            (attach-Leaves n name distinct i p sg₁ w₁ hi bp))

  -- The servers of `p` that are done are connected with one another, and with none of `q`.
  record Parted (p q : List ℕ) (done : ℕ → Bool) (start sg : ServerGrp S) : Type 0 where
    wired : IsWired n name sg
    within : (x y : ℕ) → done x ≡ true → done y ≡ true → on n name sg x y ≡ true
    live : (x : ℕ) → done x ≡ true → up n name distinct sg x ≡ true
    across :
        (x y : ℕ)
        → done x ≡ true
        → mem y q ≡ true
        → (on n name sg x y ≡ false) × (on n name sg y x ≡ false)
    rest : (x y : ℕ) → mem x p ≡ false → mem y p ≡ false → on n name sg x y ≡ on n name start x y

  Rounds-Parted :
      (p q : List ℕ) (done : ℕ → Bool) (i : ℕ) (start sg sg' : ServerGrp S)
      → AreApart p q
      → mem i p ≡ true
      → ((x : ℕ) → done x ≡ true → mem x p ≡ true)
      → Parted p q done start sg
      → Rounds p q i sg sg'
      → Parted p q (λ x. done x || x == i) start sg'
  Rounds-Parted p q done i start sg sg' apart hi d h r = record {
    wired = IsWired-move n name distinct sg sg' h.wired r.srvs r.size;
    within = λ x y dx dy. ground (
      arith,
      r.links x y,
      d x,
      d y,
      h.live x,
      h.live y,
      h.within x y,
      apart x,
      apart y,
      apart i hi,
    );
    live = λ x dx. ground (arith, r.live x, h.live x);
    across = λ x y dx qy.
        ground (arith, r.links x y, r.links y x, d x, apart x, apart y, apart i hi, h.across x y);
    rest = λ x y px py. ground (arith, r.links x y, h.rest x y);
  }

  Parted-ext :
      (p q : List ℕ) {done done' : ℕ → Bool} (start sg : ServerGrp S)
      → ((x : ℕ) → done' x ≡ true → done x ≡ true)
      → Parted p q done start sg
      → Parted p q done' start sg
  Parted-ext p q start sg g h = record {
    wired = h.wired;
    within = λ x y dx dy. h.within x y (g x dx) (g y dy);
    live = λ x dx. h.live x (g x dx);
    across = λ x y dx qy. h.across x y (g x dx) qy;
    rest = h.rest;
  }

  each-Parted :
      (p q : List ℕ)
      → AllBelow n p
      → AllBelow n q
      → AreApart p q
      → (js : List ℕ) (done : ℕ → Bool) (start sg : ServerGrp S)
      → ((x : ℕ) → mem x js ≡ true → mem x p ≡ true)
      → ((x : ℕ) → done x ≡ true → mem x p ≡ true)
      → AllBelow n js
      → Parted p q done start sg
      → Returns (each (round p q) js sg) (Parted p q (λ x. done x || mem x js) start)
  unfolding each
  each-Parted p q bp bq apart [] done start sg sub d below h =
      Parted-ext p q start sg (λ x e. ground (arith, e)) h
  each-Parted p q bp bq apart (i ∷ js) done start sg sub d below h =
      let hi : mem i p ≡ true = sub i (ground arith) in
      Returns-bind (Rounds p q i sg) (Parted p q (λ x. done x || mem x (i ∷ js)) start) _ _
        (round-Rounds p q i sg h.wired below.0 bp bq)
        (λ sg₁ r.
          Returns-map {Q = Parted p q (λ x. done x || mem x (i ∷ js)) start} _
            (λ out k. Parted-ext p q start out (λ x e. ground (arith, e)) k)
            (each-Parted p q bp bq apart js (λ x. done x || x == i) start sg₁
              (λ x e. sub x (ground (arith, e))) (λ x e. member_done p done i x hi (d x) e) below.1
              (Rounds-Parted p q done i start sg sg₁ apart hi d h r)))

  -- Two parts that have no server in common.
  pub partition-IsParted :
      (p1 p2 : List ℕ) (sg : ServerGrp S)
      → IsWired n name sg
      → AllBelow n p1
      → AllBelow n p2
      → AreApart p1 p2
      → Returns (partition p1 p2 sg) (IsParted n name p1 p2)
  unfolding partition
  partition-IsParted p1 p2 sg w b1 b2 apart =
      Returns-bind (Parted p1 p2 (λ x. mem x p1) sg) (IsParted n name p1 p2) _ _
        (each-Parted p1 p2 b1 b2 apart p1 (λ x. false) sg sg (λ x e. e) (λ x e. absurd (cc)) b1
          (record {
            wired = w;
            within = λ x y e f. absurd (cc);
            live = λ x e. absurd (cc);
            across = λ x y e f. absurd (cc);
            rest = λ x y e f. refl;
          }))
        (λ sg₁ h.
          Returns-map {Q = IsParted n name p1 p2} _
            (λ out k x y ex ey. ground (
              arith,
              k.within x y,
              k.across x y,
              k.across y x,
              k.rest x y,
              h.within x y,
              apart x,
              apart y,
            ))
            (each-Parted p2 p1 b2 b1 (AreApart-swap p1 p2 apart) p2 (λ x. false) sg₁ sg₁ (λ x e. e)
              (λ x e. absurd (cc)) b2
              (record {
                wired = h.wired;
                within = λ x y e f. absurd (cc);
                live = λ x e. absurd (cc);
                across = λ x y e f. absurd (cc);
                rest = λ x y e f. refl;
              })))
