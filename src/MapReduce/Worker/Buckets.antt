-- ===== src/MapReduce/Worker/Buckets.antt =====
-- The buckets of a map task of mr/worker.go, and the hash of the keys in them.
use Prim.Native.String.{String}
use native.Mathlib.Nat.{mod-lt}
use native.Mathlib.Decide.{ℕ_discrete}
use mathlib.Core.List.{append_assoc, append-nil}
use my.Prelude.{
  ℕ, zero, suc, ◌%◌, ◌<◌, ◌≡◌, refl, sym, ap, ◌∙◌, true, false, some, List, [], ◌∷◌, ◌++◌, arith,
  length, get_or, get_elem?-eq_some, set, length-set, get_or-set_self, get_or-set_ne, replicate,
  length-replicate, Returns, Returns-map, ◌==◌, if◌then◌else◌,
}
use my.MapReduce.Worker.{KeyValue, ihash, add_to_bucket, fill_buckets, make_buckets}

module _ (sum32 : String → ℕ) (n_reduce : ℕ) where
  abbrev task_of : KeyValue → ℕ
  task_of kv = ihash sum32 kv.key % n_reduce

  -- The pairs whose key belongs to a reduce task, in their order.
  abbrev pub pairs_of : ℕ → List KeyValue → List KeyValue
  pairs_of i [] = []
  pairs_of i (kv ∷ rest) = if task_of kv == i then kv ∷ pairs_of i rest else pairs_of i rest

  in_range : (kv : KeyValue) → 0 < n_reduce → task_of kv < n_reduce
  in_range kv h = mod-lt (ihash sum32 kv.key) h

  added : (buckets : List (List KeyValue)) (kv : KeyValue) → List (List KeyValue)
  added buckets kv = set buckets (task_of kv) (get_or buckets (task_of kv) [] ++ kv ∷ [])

  add_to_bucket_lem :
      (buckets : List (List KeyValue)) (kv : KeyValue)
      → 0 < n_reduce
      → length buckets ≡ n_reduce
      → add_to_bucket sum32 n_reduce buckets kv ≡ some (added buckets kv)
  unfolding add_to_bucket added ihash
  add_to_bucket_lem buckets kv h l =
      ground (arith, get_elem?-eq_some buckets (task_of kv) [] (omega (arith, in_range kv h)))

  length-added :
      (buckets : List (List KeyValue)) (kv : KeyValue)
      → length buckets ≡ n_reduce
      → length (added buckets kv) ≡ n_reduce
  unfolding added
  length-added buckets kv l = length-set buckets (task_of kv) _ ∙ l

  get_or-added :
      (buckets : List (List KeyValue)) (kv : KeyValue) (rest : List KeyValue) (i : ℕ)
      → 0 < n_reduce
      → length buckets ≡ n_reduce
      → get_or (added buckets kv) i [] ++ pairs_of i rest
        ≡ get_or buckets i [] ++ pairs_of i (kv ∷ rest)
  unfolding added
  get_or-added buckets kv rest i h l = elim (ℕ_discrete (task_of kv) i) [
    | no d ↦
        let t : (task_of kv == i) ≡ false = ground arith in
        rw
          (
            get_or-set_ne buckets {i = task_of kv} {j = i}
                (get_or buckets (task_of kv) [] ++ kv ∷ []) [] d,
            t,
          )
          refl
    | yes e ↦
        let t : (task_of kv == i) ≡ true = ground arith in
        let own =
          get_or-set_self buckets (task_of kv) (get_or buckets (task_of kv) [] ++ kv ∷ []) []
            (omega (arith, in_range kv h)) in
        rw t (
          ap (λ b. b ++ pairs_of i rest)
            (ap (λ (j : ℕ). get_or (added buckets kv) j []) (sym e) ∙ own)
          ∙ append_assoc (get_or buckets (task_of kv) []) (kv ∷ []) (pairs_of i rest)
          ∙ ap (λ (j : ℕ). get_or buckets j [] ++ kv ∷ pairs_of i rest) e)
  ]

  -- One bucket for each reduce task, with the pairs of that task in their order.
  abbrev pub AreBuckets :
      (old : List (List KeyValue)) → List KeyValue → List (List KeyValue) → Type 0
  AreBuckets old kva buckets =
      (length buckets ≡ n_reduce)
      × ((i : ℕ) → get_or buckets i [] ≡ get_or old i [] ++ pairs_of i kva)

  fill_buckets_lem :
      (kva : List KeyValue) (buckets : List (List KeyValue))
      → 0 < n_reduce
      → length buckets ≡ n_reduce
      → Returns (fill_buckets sum32 n_reduce buckets kva) (AreBuckets buckets kva)
  unfolding fill_buckets
  fill_buckets_lem [] buckets h l = (l, λ i. sym (append-nil (get_or buckets i [])))
  fill_buckets_lem (kv ∷ rest) buckets h l = rw (add_to_bucket_lem buckets kv h l) (
      Returns-map {P = AreBuckets (added buckets kv) rest} _
        (λ out b. (b.0, λ i. b.1 i ∙ get_or-added buckets kv rest i h l))
        (fill_buckets_lem rest (added buckets kv) h (length-added buckets kv l)))

  abbrev no_pairs : List KeyValue
  no_pairs = []

  get_or-replicate : (n i : ℕ) → get_or (replicate n no_pairs) i [] ≡ no_pairs
  get_or-replicate zero i = refl
  get_or-replicate (suc n) zero = refl
  get_or-replicate (suc n) (suc i) = get_or-replicate n i

  -- With at least one reduce task, a map task does not panic and makes one bucket for each reduce
  -- task, which has exactly the pairs whose key belongs to that task, in their order.
  pub make_buckets-pairs_of :
      (kva : List KeyValue)
      → 0 < n_reduce
      → Returns
          (make_buckets sum32 n_reduce kva)
          λ buckets. (length buckets ≡ n_reduce) × ((i : ℕ) → get_or buckets i [] ≡ pairs_of i kva)
  unfolding make_buckets
  make_buckets-pairs_of kva h =
      Returns-map
        {Q = λ buckets.
          (length buckets ≡ n_reduce) × ((i : ℕ) → get_or buckets i [] ≡ pairs_of i kva)}
        _ (λ out b. (b.0, λ i. b.1 i ∙ ap (λ l. l ++ pairs_of i kva) (get_or-replicate n_reduce i)))
        (fill_buckets_lem kva (replicate n_reduce []) h (length-replicate n_reduce []))
