-- ===== src/Examples/Files/Names.antt =====
-- Names for the intermediate files that are all different, in place of "mr-%d-%d".
use Prim.Native.Char.{Char, code}
use Prim.Native.String.{String, ◌∷◌, []}
use text.Mathlib.Text.{◌==◌ as str_eq}
use text.Mathlib.TextEquality.{eq_iff}
use text.Mathlib.TextLemmas.{nil≢cons, cons≢nil, head-eq_of_cons-eq, tail-eq_of_cons-eq}
use my.Prelude.{ℕ, zero, suc, ◌≡◌, ◌≢◌, refl, sym, ap, ◌∙◌, Bool, arith, Bool-cases, inl, inr}
use my.MapReduce.Files.{Job}
use my.MapReduce.Files.Laws.{IsNamed}

abbrev ones : ℕ → String
ones zero = []
ones (suc n) = "r" ∷ ones n

unfoldable pub file_name : ℕ → ℕ → String
file_name zero i = "-" ∷ ones i
file_name (suc id) i = "m" ∷ file_name id i

ones_inj : (i j : ℕ) → ones i ≡ ones j → i ≡ j
ones_inj zero zero h = refl
ones_inj zero (suc j) h = absurd (nil≢cons h)
ones_inj (suc i) zero h = absurd (cons≢nil h)
ones_inj (suc i) (suc j) h = ap suc (ones_inj i j (tail-eq_of_cons-eq h))

mark_other : ◌≢◌ {A = Char} "-" "m"
mark_other p = let e : code "-" ≡ code "m" = ap code p in omega (arith, e)

pub file_name_inj : (id id' i j : ℕ) → file_name id i ≡ file_name id' j → (id ≡ id') × (i ≡ j)
unfolding file_name
file_name_inj zero zero i j h = (refl, ones_inj i j (tail-eq_of_cons-eq h))
file_name_inj zero (suc id') i j h = absurd (mark_other (head-eq_of_cons-eq h))
file_name_inj (suc id) zero i j h = absurd (mark_other (sym (head-eq_of_cons-eq h)))
file_name_inj (suc id) (suc id') i j h =
    let (p, q) = file_name_inj id id' i j (tail-eq_of_cons-eq h) in (ap suc p, q)

abbrev pub is_temp : String → Bool
is_temp name = str_eq name "t"

temp_other : (id i : ℕ) → file_name id i ≢ "t"
unfolding file_name
temp_other zero i p =
    let e : code "-" ≡ code "t" = ap code (head-eq_of_cons-eq {ys = []} p) in omega (arith, e)
temp_other (suc id) i p =
    let e : code "m" ≡ code "t" = ap code (head-eq_of_cons-eq {ys = []} p) in omega (arith, e)

pub file_name-IsNamed : (job : Job) → job.file_name ≡ file_name → IsNamed job is_temp
file_name-IsNamed job e = record {
  distinct =
      λ id i j n p. n (file_name_inj id id i j (cc (p, ap (λ f. f id i) e, ap (λ f. f id j) e))).1;
  apart = λ id id' i j n p.
      n (file_name_inj id id' i j (cc (p, ap (λ f. f id i) e, ap (λ f. f id' j) e))).0;
  not_temp = λ id i. elim (Bool-cases (is_temp (job.file_name id i))) [
    | inl t ↦
        let same : file_name id i ≡ job.file_name id i = ap (λ f. f id i) (sym e) in
        absurd (temp_other id i (same ∙ (eq_iff (job.file_name id i) "t").0 t))
    | inr f ↦ f
  ];
}
