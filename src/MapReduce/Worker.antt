-- ===== src/MapReduce/Worker.antt =====
-- mr/worker.go: the map task and the reduce task of a worker, up to the files: which intermediate file
-- a pair goes to, and which values a key is reduced with.
pub mod Buckets
pub mod Groups
use Prim.Native.String.{String}
use my.Prelude.Maps.{◌=?◌, string_eq}
use my.Prelude.{
  ℕ, zero, suc, ◌%◌, ◌^◌, Bool, true, false, Option, none, some, List, [], ◌∷◌, ◌++◌, ◌==◌,
  if◌then◌else◌, ◌>>=◌, get_elem?, set, replicate,
}

pub record KeyValue : Type 0 where
  pub key : String
  pub value : String

-- The sum of hash/fnv, `fnv.New32a` over the bytes of a key, is the parameter `sum32`.
module _ (sum32 : String → ℕ) where
  -- `int(h.Sum32() & 0x7fffffff)`
  unfoldable pub ihash : String → ℕ
  ihash key = sum32 key % 2 ^ 31

  -- `buckets[ihash(kv.Key) % NReduce] = append(…, kv)`, which panics if there are no reduce tasks.
  unfoldable pub add_to_bucket : ℕ → List (List KeyValue) → KeyValue → Option (List (List KeyValue))
  unfolding ihash
  add_to_bucket n_reduce buckets kv = if n_reduce == 0 then none else do
    bucket ← get_elem? buckets (ihash kv.key % n_reduce)
    some (set buckets (ihash kv.key % n_reduce) (bucket ++ kv ∷ []))

  -- `for _, kv := range kva`
  unfoldable pub fill_buckets :
      ℕ → List (List KeyValue) → List KeyValue → Option (List (List KeyValue))
  fill_buckets n_reduce buckets [] = some buckets
  fill_buckets n_reduce buckets (kv ∷ rest) = do
    buckets' ← add_to_bucket n_reduce buckets kv
    fill_buckets n_reduce buckets' rest

  unfoldable pub make_buckets : ℕ → List KeyValue → Option (List (List KeyValue))
  unfolding fill_buckets
  make_buckets n_reduce kva = fill_buckets n_reduce (replicate n_reduce []) kva

-- The inner loop over `j`: the values of the pairs at the front that have the key, and what follows.
unfoldable pub take_group : String → List KeyValue → List String × List KeyValue
take_group key [] = ([], [])
take_group key (kv ∷ rest) =
    let (values, rest') = take_group key rest in
    if kv.key =? key then (kv.value ∷ values, rest') else ([], kv ∷ rest)

-- The outer loop over `i`, on fuel: the lines that are written, as pairs of a key and an output.
unfoldable pub reduce_loop :
    (String → List String → String) → ℕ → List KeyValue → Option (List (String × String))
unfolding take_group
reduce_loop reducef fuel [] = some []
reduce_loop reducef zero (kv ∷ rest) = none
reduce_loop reducef (suc fuel) (kv ∷ rest) =
    let (values, rest') = take_group kv.key rest in
    do
      lines ← reduce_loop reducef fuel rest'
      some ((kv.key, reducef kv.key (kv.value ∷ values)) ∷ lines)
