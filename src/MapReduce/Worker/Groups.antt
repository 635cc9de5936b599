-- ===== src/MapReduce/Worker/Groups.antt =====
-- The loops of a reduce task of mr/worker.go: the keys and their values.
use Prim.Native.String.{String}
use text.Mathlib.TextEquality.{eq_iff}
use my.Prelude.Maps.{◌=?◌, string_eq}
use my.Prelude.{
  ℕ, zero, suc, ◌≤◌, ◌≡◌, ◌≢◌, inl, inr, refl, ap, ◌∙◌, Bool, true, false, List, [], ◌∷◌, arith,
  length, Returns, if◌then◌else◌, Bool-cases, Option-cases, subst,
}
use my.MapReduce.Worker.{KeyValue, take_group, reduce_loop}

-- The values of a key, in their order.
abbrev pub values_of : String → List KeyValue → List String
values_of key [] = []
values_of key (kv ∷ rest) =
    if kv.key =? key then kv.value ∷ values_of key rest else values_of key rest

-- The outputs that are written for a key.
abbrev pub outputs_of : String → List (String × String) → List String
outputs_of key [] = []
outputs_of key (line ∷ rest) =
    if line.0 =? key then line.1 ∷ outputs_of key rest else outputs_of key rest

-- `less` is the order of Go's strings.
module _ (less : String → String → Bool) where
  -- No pair of the list comes before the key.
  abbrev pub NoneBefore : String → List KeyValue → Type 0
  NoneBefore key [] = Unit
  NoneBefore key (kv ∷ rest) = (less kv.key key ≡ false) × NoneBefore key rest

  -- What `sort.Sort(ByKey(…))` brings about.
  abbrev pub IsSorted : List KeyValue → Type 0
  IsSorted [] = Unit
  IsSorted (kv ∷ rest) = NoneBefore kv.key rest × IsSorted rest

  gone :
      (key first : String) (kvs : List KeyValue)
      → less key first ≡ true
      → NoneBefore first kvs
      → values_of key kvs ≡ []
  gone key first [] l n = refl
  gone key first (kv ∷ rest) l n = ground (arith, gone key first rest l n.1, eq_iff kv.key key)

  module _ (connected : (a b : String) → less a b ≡ false → less b a ≡ false → a ≡ b) where
    record Taken (key : String) (kvs : List KeyValue) (out : List String × List KeyValue)
        : Type 0 where
      values : out.0 ≡ values_of key kvs
      none_left : values_of key out.1 ≡ []
      others : (j : String) → j ≢ key → values_of j out.1 ≡ values_of j kvs
      sorted : IsSorted out.1
      shorter : length out.1 ≤ length kvs

    after :
        (key : String) (kv : KeyValue)
        → (kv.key =? key) ≡ false
        → less kv.key key ≡ false
        → less key kv.key ≡ true
    after key kv e n = elim (Bool-cases (less key kv.key)) [
      | inl l ↦ l
      | inr l ↦ ground (arith, e, eq_iff kv.key key, connected kv.key key n l)
    ]

    take_group_lem :
        (key : String) (kvs : List KeyValue)
        → IsSorted kvs
        → NoneBefore key kvs
        → Taken key kvs (take_group key kvs)
    unfolding take_group
    take_group_lem key [] s n = record {
      values = refl;
      none_left = refl;
      others = λ j d. refl;
      sorted = tt;
      shorter = omega arith;
    }
    take_group_lem key (kv ∷ rest) s n = elim (Bool-cases (kv.key =? key)) [
      | inl e ↦
          let t = take_group_lem key rest s.1 n.1 in
          record {
            values = ground (arith, t.values, e);
            none_left = ground (arith, t.none_left, e);
            others = λ j d. ground (arith, t.others j d, e, eq_iff kv.key key, eq_iff kv.key j);
            sorted = rw e t.sorted;
            shorter = ground (arith, t.shorter, e);
          }
      | inr e ↦
          let g = gone key kv.key rest (after key kv e n.0) s.0 in
          rw e record {
            values = ground (arith, g, e);
            none_left = ground (arith, g, e);
            others = λ j d. refl;
            sorted = s;
            shorter = omega arith;
          }
    ]

    -- The lines for a key that has these values.
    abbrev pub lines_for : (String → List String → String) → String → List String → List String
    lines_for reducef key [] = []
    lines_for reducef key (v ∷ vs) = reducef key (v ∷ vs) ∷ []

    abbrev pub AreReduced :
        (String → List String → String) → List KeyValue → List (String × String) → Type 0
    AreReduced reducef kvs lines =
        (key : String) → outputs_of key lines ≡ lines_for reducef key (values_of key kvs)

    reduce_group :
        (reducef : String → List String → String) (kv : KeyValue) (rest : List KeyValue)
        (lines : List (String × String))
        → Taken kv.key rest (take_group kv.key rest)
        → AreReduced reducef (take_group kv.key rest).1 lines
        → AreReduced reducef
            (kv ∷ rest)
            ((kv.key, reducef kv.key (kv.value ∷ (take_group kv.key rest).0)) ∷ lines)
    reduce_group reducef kv rest lines t r key = elim (Bool-cases (kv.key =? key)) [
      | inl e ↦
          let p : kv.key ≡ key = ground (arith, e, eq_iff kv.key key) in
          let w : values_of key (take_group kv.key rest).1 ≡ [] =
            subst (λ k. values_of k (take_group kv.key rest).1 ≡ []) p t.none_left in
          let v : (take_group kv.key rest).0 ≡ values_of key rest =
            subst (λ k. (take_group kv.key rest).0 ≡ values_of k rest) p t.values in
          let q : outputs_of key lines ≡ [] = r key ∙ ap (lines_for reducef key) w in
          rw (e, q, v, p) refl
      | inr e ↦
          let o : values_of key (take_group kv.key rest).1 ≡ values_of key rest =
            t.others key (λ p. ground (arith, p, e, eq_iff kv.key key)) in
          rw e (r key ∙ ap (lines_for reducef key) o)
    ]

    -- On pairs that are sorted by key, in an order where keys that neither comes before the other
    -- are equal, and with fuel for each pair, the loops of a reduce task return: each key that
    -- occurs has one line, its output on all of its values in their order, and no other key has a
    -- line.
    pub reduce_loop-AreReduced :
        (reducef : String → List String → String) (fuel : ℕ) (kvs : List KeyValue)
        → length kvs ≤ fuel
        → IsSorted kvs
        → Returns (reduce_loop reducef fuel kvs) (AreReduced reducef kvs)
    unfolding reduce_loop
    reduce_loop-AreReduced reducef fuel [] l s = λ key. refl
    reduce_loop-AreReduced reducef zero (kv ∷ rest) l s = absurd (omega arith)
    reduce_loop-AreReduced reducef (suc fuel) (kv ∷ rest) l s =
        let t = take_group_lem kv.key rest s.1 s.0 in
        let ih =
          reduce_loop-AreReduced reducef fuel (take_group kv.key rest).1 (omega (arith, t.shorter))
            t.sorted in
        elim (Option-cases (reduce_loop reducef fuel (take_group kv.key rest).1)) [
          | inl n ↦ absurd (rw n at ih)
          | inr (lines, p) ↦ rw p (reduce_group reducef kv rest lines t (rw p at ih))
        ]
