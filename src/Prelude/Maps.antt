-- ===== src/Prelude/Maps.antt =====
-- Go maps as functions, for code that does not depend on the order of the keys.
use mathlib.Core.Path.{◌≡◌, refl}
use mathlib.Core.Logic.{◌↔◌, ◌≢◌, ◌⊎◌, inl, inr}
use mathlib.Core.Bool.{Bool, true, false}
use mathlib.Core.Option.{Option, none, some}
use Prim.Native.Nat.{ℕ, compare, Ordering}
use Prim.Native.String.{String}
use text.Mathlib.Text.{◌==◌ as str_eq}
use text.Mathlib.TextEquality.{eq_iff}
use native.Mathlib.Omega.{arith}

pub record Eq (A : Type 0) : Type 0 where
  pub beq : A → A → Bool
  pub beq_iff : (a b : A) → (beq a b ≡ true) ↔ (a ≡ b)

abbrev nat_beq : ℕ → ℕ → Bool
nat_beq a b = elim (compare a b) [ Ordering.eq ↦ true | _ ↦ false ]

pub nat_beq_iff : (a b : ℕ) → (nat_beq a b ≡ true) ↔ (a ≡ b)
nat_beq_iff a b = ground arith

instance abbrev pub nat_eq : Eq ℕ
nat_eq = record { beq = nat_beq; beq_iff = nat_beq_iff }

instance abbrev pub string_eq : Eq String
string_eq = record { beq = str_eq; beq_iff = eq_iff }

infix 50 ◌=?◌
abbrev pub ◌=?◌ : {A : Type 0} ⦃e : Eq A⦄ → A → A → Bool
◌=?◌ ⦃e⦄ = e.beq

-- What a key is bound to, if it is.
abbrev pub Map : Type 0 → Type 0 → Type 0
Map K V = K → Option V

abbrev pub empty : {K V : Type 0} → Map K V
empty k = none

abbrev choose : {A : Type 0} → Bool → A → A → A
choose true x y = x
choose false x y = y

-- `m[k] = v`
abbrev pub insert : {K V : Type 0} ⦃e : Eq K⦄ → K → V → Map K V → Map K V
insert k v m j = choose (k =? j) (some v) (m j)

-- `delete(m, k)`
abbrev pub remove : {K V : Type 0} ⦃e : Eq K⦄ → K → Map K V → Map K V
remove k m j = choose (k =? j) none (m j)

choose_cases :
    {A : Type 0} (b : Bool) (x y z : A)
    → choose b x y ≡ z
    → ((b ≡ true) × (x ≡ z)) ⊎ ((b ≡ false) × (y ≡ z))
choose_cases true x y z h = inl (refl, h)
choose_cases false x y z h = inr (refl, h)

module _ {K V : Type 0} ⦃e : Eq K⦄ (k : K) (m : Map K V) (j : K) (w : V) where
  pub insert_cases : (v : V) → insert k v m j ≡ some w → ((k ≡ j) × (v ≡ w)) ⊎ (m j ≡ some w)
  insert_cases v h = elim (choose_cases (k =? j) (some v) (m j) (some w) h) [
    | inl (t, p) ↦ inl ((e.beq_iff k j).0 t, cc p)
    | inr (f, p) ↦ inr p
  ]

  pub remove_cases : remove k m j ≡ some w → (k ≢ j) × (m j ≡ some w)
  remove_cases h = elim (choose_cases (k =? j) none (m j) (some w) h) [
    | inl (t, p) ↦ absurd (cc p)
    | inr (f, p) ↦ (λ q. cc ((e.beq_iff k j).1 q, f), p)
  ]
