-- ===== src/Net/Groups/Links.antt =====
-- Which ends of a group are enabled, as `connect` and `disconnect` change it (tester1/group.go).
use Prim.Native.String.{String}
use text.Mathlib.TextEquality.{eq_iff}
use my.Prelude.{
  ℕ, ◌<◌, ◌≡◌, refl, sym, ap, ◌∙◌, Bool, false, ◌&&◌, ◌||◌, Bool-cases, inl, inr, Option, some,
  List, [], ◌∷◌, arith, ◌==◌, if◌then◌else◌, length, Returns, Returns-map, Returns-bind,
}
use my.Prelude.Maps.{◌=?◌, string_eq}
use my.Net.Rpc.{or_false, enable}
use my.Net.Groups.{ServerGrp, end_name, switch, each}

abbrev pub mem : ℕ → List ℕ → Bool
mem x [] = false
mem x (j ∷ js) = x == j || mem x js

abbrev pub any : (ℕ → Bool) → List ℕ → Bool
any f [] = false
any f (j ∷ js) = f j || any f js

abbrev pub AllBelow : ℕ → List ℕ → Type 0
AllBelow n [] = Unit
AllBelow n (j ∷ js) = (j < n) × AllBelow n js

-- The names of the ends, all different.
pub record IsDistinct (name : ℕ → ℕ → String) : Type 0 where
  pub row : (i j i' j' : ℕ) → name i j ≡ name i' j' → i ≡ i'
  pub column : (i j i' j' : ℕ) → name i j ≡ name i' j' → j ≡ j'

module _ {S : Type 0} (n : ℕ) (name : ℕ → ℕ → String) where
  -- `n` servers whose ends have these names.
  pub record IsWired (sg : ServerGrp S) : Type 0 where
    pub rows : (i j : ℕ) → i < n → j < n → end_name sg i j ≡ some (name i j)
    pub size : length sg.connected ≡ n

  -- Whether the end from `x` to `y` is enabled.
  abbrev pub on : ServerGrp S → ℕ → ℕ → Bool
  on sg x y = or_false (sg.net.enabled (name x y))

  -- What a step leaves: these ends enabled, and these servers marked as connected.
  pub record Leaves (ends : ℕ → ℕ → Bool) (up : List Bool) (sg sg' : ServerGrp S) : Type 0 where
    pub links : (x y : ℕ) → on sg' x y ≡ ends x y
    pub connected : sg'.connected ≡ up
    pub srvs : sg'.srvs ≡ sg.srvs

name_eq :
    (name : ℕ → ℕ → String) (distinct : IsDistinct name) (i j x y : ℕ)
    → (name i j =? name x y) ≡ (x == i && y == j)
name_eq name distinct i j x y = elim (Bool-cases (x == i && y == j)) [
  | inl both ↦
      let e : name i j ≡ name x y =
        ap (λ (k : ℕ). name k j) (let p : i ≡ x = ground (arith, both) in p)
        ∙ ap (λ (k : ℕ). name x k) (let p : j ≡ y = ground (arith, both) in p) in
      (eq_iff (name i j) (name x y)).1 e ∙ sym both
  | inr other ↦ elim (Bool-cases (name i j =? name x y)) [
    | inr f ↦ f ∙ sym other
    | inl t ↦
        let e = (eq_iff (name i j) (name x y)).0 t in
        absurd (ground (arith, other, distinct.row i j x y e, distinct.column i j x y e))
  ]
]

module _ {S : Type 0} (n : ℕ) (name : ℕ → ℕ → String) (distinct : IsDistinct name) where
  pub IsWired-move :
      (sg sg' : ServerGrp S)
      → IsWired n name sg
      → sg'.srvs ≡ sg.srvs
      → length sg'.connected ≡ n
      → IsWired n name sg'
  unfolding end_name
  IsWired-move sg sg' w e l = record { rows = λ i j p q. rw e (w.rows i j p q); size = l }

  pub switch-Leaves :
      (b : Bool) (i j : ℕ) (sg : ServerGrp S)
      → IsWired n name sg
      → i < n
      → j < n
      → Returns
          (switch b i j sg)
          (Leaves n name (λ x y. if x == i && y == j then b else on n name sg x y) sg.connected sg)
  unfolding switch enable
  switch-Leaves b i j sg w p q = rw (w.rows i j p q) record {
    links = λ x y. ground (arith, name_eq name distinct i j x y);
    connected = refl;
    srvs = refl;
  }

  -- A loop whose rounds set some ends to `b`, those that `hit` tells for the round.
  module _ (b : Bool) (f : ℕ → ServerGrp S → Option (ServerGrp S)) (hit : ℕ → ℕ → ℕ → Bool)
      (up : List Bool)
      (round : (j : ℕ) (sg : ServerGrp S)
        → IsWired n name sg
        → sg.connected ≡ up
        → j < n
        → Returns (f j sg) (
            Leaves n name (λ x y. if hit j x y then b else on n name sg x y) sg.connected sg)) where
    pub each-Leaves :
        (js : List ℕ) (sg : ServerGrp S)
        → IsWired n name sg
        → sg.connected ≡ up
        → AllBelow n js
        → Returns (each f js sg) (
            Leaves n name
              (λ x y. if any (λ j. hit j x y) js then b else on n name sg x y)
              sg.connected
              sg)
    unfolding each
    each-Leaves [] sg w u below = record { links = λ x y. refl; connected = refl; srvs = refl }
    each-Leaves (j ∷ js) sg w u below =
        Returns-bind
          (Leaves n name (λ x y. if hit j x y then b else on n name sg x y) sg.connected sg)
          (Leaves n name (λ x y. if any (λ k. hit k x y) (j ∷ js) then b else on n name sg x y)
            sg.connected sg)
          (f j sg) (each f js) (round j sg w u below.0)
          (λ sg₁ l.
            Returns-map
              {Q = Leaves n name
                (λ x y. if any (λ k. hit k x y) (j ∷ js) then b else on n name sg x y) sg.connected
                sg}
              _
              (λ out m. record {
                links = λ x y. m.links x y ∙ ground (arith, l.links x y);
                connected = m.connected ∙ l.connected;
                srvs = m.srvs ∙ l.srvs;
              })
              (each-Leaves js sg₁ (IsWired-move sg sg₁ w l.srvs (ap length l.connected ∙ w.size))
                (l.connected ∙ u) below.1))
