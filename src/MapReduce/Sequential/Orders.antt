-- ===== src/MapReduce/Sequential/Orders.antt =====
-- The values of a key among pairs in different orders (the sort of `ByKey` in mr/worker.go and
-- main/mrsequential.go).
use Prim.Native.String.{String}
use text.Mathlib.TextEquality.{eq_iff}
use mathlib.Core.List.Permᴰ
use mathlib.Core.List.{Permᴰ}
use my.Prelude.{
  ℕ, suc, ◌%◌, ◌≡◌, refl, sym, ap, ◌∙◌, Bool, true, false, Bool-cases, inl, inr, List, [], ◌∷◌,
  ◌++◌, arith, length, ◌==◌, if◌then◌else◌,
}
use my.Prelude.Maps.{◌=?◌, string_eq}
use my.MapReduce.Worker.{KeyValue, ihash}
use my.MapReduce.Worker.Groups.{values_of}
use my.MapReduce.Worker.Buckets.{pairs_of}

pub length-perm {ℓ} : {A : Type ℓ} {xs ys : List A} → Permᴰ xs ys → length xs ≡ length ys
length-perm Permᴰ.nil = refl
length-perm (Permᴰ.cons e p) = ap suc (length-perm p)
length-perm (Permᴰ.swap e f) = refl
length-perm (Permᴰ.trans p q) = length-perm p ∙ length-perm q

-- A key has the same values in any order of the pairs, up to their order.
pub values_of-perm :
    (key : String) {kvs kvs' : List KeyValue}
    → Permᴰ kvs kvs'
    → Permᴰ (values_of key kvs) (values_of key kvs')
values_of-perm key Permᴰ.nil = Permᴰ.nil
values_of-perm key (Permᴰ.cons {a} {b} {l₁} {l₂} e p) = elim (Bool-cases (a.key =? key)) [
  | inl t ↦ rw (sym e, t) (Permᴰ.cons refl (values_of-perm key p))
  | inr f ↦ rw (sym e, f) (values_of-perm key p)
]
values_of-perm key (Permᴰ.swap {a} {b} {a'} {b'} {l} e f) =
    rw (sym e, sym f) (swapped (a.key =? key) (b.key =? key))
  where
    swapped :
        (s t : Bool)
        → Permᴰ
            (if s
              then a.value ∷ (if t then b.value ∷ values_of key l else values_of key l)
              else (if t then b.value ∷ values_of key l else values_of key l))
            (if t
              then b.value ∷ (if s then a.value ∷ values_of key l else values_of key l)
              else (if s then a.value ∷ values_of key l else values_of key l))
    swapped true true = Permᴰ.swap refl refl
    swapped true false = Permᴰ.refl _
    swapped false true = Permᴰ.refl _
    swapped false false = Permᴰ.refl _
values_of-perm key (Permᴰ.trans p q) = Permᴰ.trans (values_of-perm key p) (values_of-perm key q)

pub values_of-append :
    (key : String) (xs ys : List KeyValue)
    → values_of key (xs ++ ys) ≡ values_of key xs ++ values_of key ys
values_of-append key [] ys = refl
values_of-append key (x ∷ xs) ys = ground (arith, values_of-append key xs ys)

-- The pairs of a reduce task have all values of the keys that belong to it, and none of others.
pub values_of-pairs_of :
    (sum32 : String → ℕ) (n_reduce r : ℕ) (key : String) (kvs : List KeyValue)
    → values_of key (pairs_of sum32 n_reduce r kvs)
      ≡ (if ihash sum32 key % n_reduce == r then values_of key kvs else [])
values_of-pairs_of sum32 n_reduce r key [] = ground arith
values_of-pairs_of sum32 n_reduce r key (kv ∷ kvs) =
    ground (arith, values_of-pairs_of sum32 n_reduce r key kvs, eq_iff kv.key key)
