-- ===== src/MapReduce/Sequential/Equal.antt =====
-- The output of main/mrsequential.go against that of the reduce tasks of mr/worker.go.
use Prim.Native.String.{String}
use mathlib.Core.List.{Permᴰ}
use my.Prelude.{
  ℕ, ◌%◌, ◌<◌, ◌≡◌, refl, sym, ap, ◌∙◌, Bool, true, false, some, Option, List, [], ◌∷◌, ◌++◌, arith,
  length, map, ◌==◌, if◌then◌else◌, Returns, Returns-map,
}
use my.MapReduce.Coordinator.{Task, reduce_task}
use my.MapReduce.Worker.{KeyValue, ihash}
use my.MapReduce.Worker.Buckets.{pairs_of}
use my.MapReduce.Worker.Groups.{
  IsSorted, AreReduced, values_of, outputs_of, lines_for, reduce_loop-AreReduced,
}
use my.MapReduce.Files.{Os, Job, report, run_reduce}
use my.MapReduce.Files.Laws.{IsReliable, IsNamed}
use my.MapReduce.Files.Jobs.{MapsRun, HaveNumbers, all_pairs_of, run_reduce-MapsRun}
use my.MapReduce.Sequential.{gather, sequential}
use my.MapReduce.Sequential.Orders.{
  length-perm, values_of-perm, values_of-append, values_of-pairs_of,
}

-- The map tasks made of each input file what the map function makes of its content.
abbrev pub AreInputs :
    (String → Option String)
    → (String → String → List KeyValue)
    → List String
    → List (ℕ × List KeyValue)
    → Type 0
AreInputs read_file mapf [] [] = Unit
AreInputs read_file mapf (name ∷ names) (out ∷ outs) =
    ((content : String) × (read_file name ≡ some content) × (out.1 ≡ mapf name content))
    × AreInputs read_file mapf names outs
AreInputs read_file mapf _ _ = ⊥

abbrev pub all_pairs : List (ℕ × List KeyValue) → List KeyValue
all_pairs [] = []
all_pairs (out ∷ rest) = out.1 ++ all_pairs rest

gather_lem :
    (read_file : String → Option String) (mapf : String → String → List KeyValue)
    (names : List String) (outs : List (ℕ × List KeyValue))
    → AreInputs read_file mapf names outs
    → gather read_file mapf names ≡ some (all_pairs outs)
unfolding gather
gather_lem read_file mapf [] [] h = refl
gather_lem read_file mapf [] (out ∷ outs) h = absurd h
gather_lem read_file mapf (name ∷ names) [] h = absurd h
gather_lem read_file mapf (name ∷ names) (out ∷ outs) h =
    let (content, r, e) = h.0 in
    let ih = gather_lem read_file mapf names outs h.1 in
    rw (r, ih) (ap (λ x. some (x ++ all_pairs outs)) (sym e))

pub values_of-all_pairs_of :
    (job : Job) (n_reduce r : ℕ) (key : String) (outs : List (ℕ × List KeyValue))
    → values_of key (all_pairs_of job n_reduce r outs)
      ≡ (if ihash job.sum32 key % n_reduce == r then values_of key (all_pairs outs) else [])
values_of-all_pairs_of job n_reduce r key [] = ground arith
values_of-all_pairs_of job n_reduce r key (out ∷ outs) =
    values_of-append key (pairs_of job.sum32 n_reduce r out.1) (all_pairs_of job n_reduce r outs)
    ∙ ground (
      arith,
      values_of-pairs_of job.sum32 n_reduce r key out.1,
      values_of-all_pairs_of job n_reduce r key outs,
      values_of-append key out.1 (all_pairs outs),
    )

-- The sort gives back these pairs in the order of their keys.
pub record Sorts (less : String → String → Bool) (sort : List KeyValue → List KeyValue)
    (kvs : List KeyValue) : Type 0 where
  pub same : Permᴰ (sort kvs) kvs
  pub sorted : IsSorted less (sort kvs)

module _ (less : String → String → Bool)
    (connected : (a b : String) → less a b ≡ false → less b a ≡ false → a ≡ b)
    (reducef : String → List String → String)
    (orderless : (key : String) (vs ws : List String)
      → Permᴰ vs ws
      → reducef key vs ≡ reducef key ws) where
  lines_for-perm :
      (key : String) (vs ws : List String)
      → Permᴰ vs ws
      → lines_for less connected reducef key vs ≡ lines_for less connected reducef key ws
  lines_for-perm key [] [] p = refl
  lines_for-perm key [] (w ∷ ws) p = absurd (omega (arith, length-perm p))
  lines_for-perm key (v ∷ vs) [] p = absurd (omega (arith, length-perm p))
  lines_for-perm key (v ∷ vs) (w ∷ ws) p = ap (λ o. o ∷ []) (orderless key (v ∷ vs) (w ∷ ws) p)

  lines_for-if :
      (b : Bool) (key : String) (vs printed : List String)
      → printed ≡ lines_for less connected reducef key vs
      → lines_for less connected reducef key (if b then vs else []) ≡ (if b then printed else [])
  lines_for-if true key vs printed h = sym h
  lines_for-if false key vs printed h = refl

  -- A key's line in the output of a sorted part, by the values in the order they were made.
  pub reduced_line :
      (sort : List KeyValue → List KeyValue) (kvs : List KeyValue) (lines : List (String × String))
      (key : String)
      → Sorts less sort kvs
      → AreReduced less connected reducef (sort kvs) lines
      → outputs_of key lines ≡ lines_for less connected reducef key (values_of key kvs)
  reduced_line sort kvs lines key s r = r key ∙ lines_for-perm key _ _ (values_of-perm key s.same)

  pub sequential_lem :
      (read_file : String → Option String) (mapf : String → String → List KeyValue)
      (sort : List KeyValue → List KeyValue) (names : List String) (outs : List (ℕ × List KeyValue))
      → Sorts less sort (all_pairs outs)
      → AreInputs read_file mapf names outs
      → Returns
          (sequential read_file mapf reducef sort names)
          (AreReduced less connected reducef (sort (all_pairs outs)))
  unfolding sequential
  sequential_lem read_file mapf sort names outs s i = rw (gather_lem read_file mapf names outs i) (
      reduce_loop-AreReduced less connected reducef (length (all_pairs outs))
        (sort (all_pairs outs)) (omega (arith, length-perm s.same)) s.sorted)

-- The part of the reduce task `r`: the lines of the keys that belong to it, and no others.
abbrev pub IsPart : Job → ℕ → ℕ → List (String × String) → List (String × String) → Type 0
IsPart job n_reduce r lines printed =
    (key : String)
    → outputs_of key lines
      ≡ (if ihash job.sum32 key % n_reduce == r then outputs_of key printed else [])

module _ {D : Type 0} (os : Os D) (is_temp : String → Bool)
    (lines : D → String → List (String × String)) (reliable : IsReliable os is_temp lines)
    (job : Job) (named : IsNamed job is_temp) (n_reduce : ℕ) (positive : 0 < n_reduce) where
  -- After map tasks with different numbers that made of each input file what the map function
  -- makes of its content, on a disk whose calls succeed and with different names for the
  -- intermediate files: a reduce task over the files of its number reports, the sequential program
  -- prints its lines, and for each key of the task's part the task's output has exactly the
  -- sequential program's lines for it, and none for any other key. The reduce function does not
  -- depend on the order of the values, the sort gives back the same pairs, sorted by key in an
  -- order where keys that neither comes before the other are equal, and there is at least one
  -- reduce task.
  pub run_reduce-sequential :
      (less : String → String → Bool)
      (connected : (a b : String) → less a b ≡ false → less b a ≡ false → a ≡ b)
      (orderless : (key : String) (vs ws : List String)
        → Permᴰ vs ws
        → job.reducef key vs ≡ job.reducef key ws)
      (read_file : String → Option String) (names : List String) (outs : List (ℕ × List KeyValue))
      (d d' : D) (task : Task)
      → Sorts less job.sort (all_pairs_of job n_reduce task.id outs)
      → Sorts less job.sort (all_pairs outs)
      → AreInputs read_file job.mapf names outs
      → MapsRun os job n_reduce outs d d'
      → HaveNumbers outs
      → task.id < n_reduce
      → task.filenames ≡ map (λ out. job.file_name out.0 task.id) outs
      → (d'' : D) × (run_reduce os job task d'
          ≡ some (d'', report (record { type = reduce_task; id = task.id })))
        × Returns
            (sequential read_file job.mapf job.reducef job.sort names)
            (IsPart job n_reduce task.id (lines d'' (job.out_name task.id)))
  run_reduce-sequential less connected orderless read_file names outs d d' task sp s i run h l f =
      let part = all_pairs_of job n_reduce task.id outs in
      let (d'', e, r) =
        run_reduce-MapsRun os is_temp lines reliable job named n_reduce positive less connected outs
          d d' task sp.sorted (length-perm sp.same) run h l f in
      let q =
        sequential_lem less connected job.reducef orderless read_file job.mapf job.sort names outs s
          i in
      (
        d'',
        e,
        Returns-map {Q = IsPart job n_reduce task.id (lines d'' (job.out_name task.id))} _
            (λ printed p key.
              reduced_line less connected job.reducef orderless job.sort part _ key sp r
              ∙ ap (lines_for less connected job.reducef key)
                  (values_of-all_pairs_of job n_reduce task.id key outs)
              ∙ lines_for-if less connected job.reducef orderless
                  (ihash job.sum32 key % n_reduce == task.id) key _ _
                  (reduced_line less connected job.reducef orderless job.sort (all_pairs outs) _ key
                    s p))
            q,
      )
