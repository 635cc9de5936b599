-- ===== src/MapReduce/Files/Jobs.antt =====
-- A whole job of mr/: the map tasks one after the other, and then a reduce task.
use Prim.Native.String.{String}
use my.Prelude.{
  ℕ, ◌<◌, ◌≡◌, ◌≢◌, refl, sym, ap, ◌∙◌, subst, Bool, false, some, List, [], ◌∷◌, ◌++◌, arith,
  length, map, get_elem?,
}
use my.MapReduce.Coordinator.{Task, map_task, reduce_task}
use my.MapReduce.Worker.{KeyValue}
use my.MapReduce.Worker.Buckets.{pairs_of}
use my.MapReduce.Worker.Groups.{IsSorted, AreReduced}
use my.MapReduce.Files.{Os, Job, report, read_all, run_map, run_reduce}
use my.MapReduce.Files.Laws.{IsReliable, IsNamed}
use my.MapReduce.Files.Maps.{run_map-files}
use my.MapReduce.Files.Reduces.{run_reduce-AreReduced}

module _ {D : Type 0} (os : Os D) (job : Job) where
  -- Map tasks that run one after the other, each with its number and what the application made of
  -- the file as it was then.
  pub data MapsRun (n_reduce : ℕ) : List (ℕ × List KeyValue) → D → D → Type 0 where
    done : {d : D} → MapsRun n_reduce [] d d
    next :
        {rest : List (ℕ × List KeyValue)} {d d₁ d₂ : D} (task : Task) (filename content : String)
        → task.n_reduce ≡ n_reduce
        → get_elem? task.filenames 0 ≡ some filename
        → os.read_file d filename ≡ some content
        → run_map os job task d ≡ some (d₁, report (record { type = map_task; id = task.id }))
        → MapsRun n_reduce rest d₁ d₂
        → MapsRun n_reduce ((task.id, job.mapf filename content) ∷ rest) d d₂

-- The number is not that of one of the tasks.
abbrev pub IsOther : ℕ → List (ℕ × List KeyValue) → Type 0
IsOther id [] = Unit
IsOther id (out ∷ rest) = (id ≢ out.0) × IsOther id rest

abbrev pub HaveNumbers : List (ℕ × List KeyValue) → Type 0
HaveNumbers [] = Unit
HaveNumbers (out ∷ rest) = IsOther out.0 rest × HaveNumbers rest

-- The pairs of all tasks that belong to the reduce task `r`.
abbrev pub all_pairs_of : Job → ℕ → ℕ → List (ℕ × List KeyValue) → List KeyValue
all_pairs_of job n_reduce r [] = []
all_pairs_of job n_reduce r (out ∷ rest) =
    pairs_of job.sum32 n_reduce r out.1 ++ all_pairs_of job n_reduce r rest

module _ {D : Type 0} (os : Os D) (is_temp : String → Bool)
    (lines : D → String → List (String × String)) (reliable : IsReliable os is_temp lines)
    (job : Job) (named : IsNamed job is_temp) (n_reduce : ℕ) (positive : 0 < n_reduce) where
  record IsStored (id : ℕ) (kva : List KeyValue) (d d₁ : D) : Type 0 where
    files :
        (r : ℕ)
        → r < n_reduce
        → os.read_pairs d₁ (job.file_name id r) ≡ some (pairs_of job.sum32 n_reduce r kva)
    others :
        (other r : ℕ)
        → other ≢ id
        → os.read_pairs d₁ (job.file_name other r) ≡ os.read_pairs d (job.file_name other r)

  run_map-IsStored :
      (task : Task) (d d₁ : D) (filename content : String)
      → task.n_reduce ≡ n_reduce
      → get_elem? task.filenames 0 ≡ some filename
      → os.read_file d filename ≡ some content
      → run_map os job task d ≡ some (d₁, report (record { type = map_task; id = task.id }))
      → IsStored task.id (job.mapf filename content) d d₁
  run_map-IsStored task d d₁ filename content n f c run =
      let (d', e, files, others) =
        run_map-files os is_temp lines reliable job named task d filename content f c
          (omega (arith, n, positive)) in
      let same : d' ≡ d₁ = cc (e, run) in
      let kva = job.mapf filename content in
      record {
        files = λ r l.
            subst
              (λ (k : ℕ).
                os.read_pairs d₁ (job.file_name task.id r) ≡ some (pairs_of job.sum32 k r kva))
              n
              (subst
                (λ x.
                  os.read_pairs x (job.file_name task.id r)
                  ≡ some (pairs_of job.sum32 task.n_reduce r kva))
                same (files r (omega (arith, l, n))));
        others = λ other r o.
            subst
              (λ x.
                os.read_pairs x (job.file_name other r) ≡ os.read_pairs d (job.file_name other r))
              same
              (others (job.file_name other r) (named.not_temp other r)
                (λ i. named.apart task.id other i r (λ p. o (sym p))));
      }

  -- The files of the earlier tasks stay.
  MapsRun-keeps :
      (outs : List (ℕ × List KeyValue)) (d d' : D) (id r : ℕ)
      → MapsRun os job n_reduce outs d d'
      → IsOther id outs
      → os.read_pairs d' (job.file_name id r) ≡ os.read_pairs d (job.file_name id r)
  MapsRun-keeps outs d d' id r done o = refl
  MapsRun-keeps outs d d' id r (next {d₁ = d₁} task filename content n f c run rest) o =
      MapsRun-keeps _ d₁ d' id r rest o.1
      ∙ (run_map-IsStored task d d₁ filename content n f c run).others id r o.0

  MapsRun-files :
      (outs : List (ℕ × List KeyValue)) (d d' : D) (r : ℕ)
      → MapsRun os job n_reduce outs d d'
      → HaveNumbers outs
      → r < n_reduce
      → read_all os d' (map (λ out. job.file_name out.0 r) outs) ≡ all_pairs_of job n_reduce r outs
  unfolding read_all
  MapsRun-files outs d d' r done h l = refl
  MapsRun-files outs d d' r (next {d₁ = d₁} task filename content n f c run rest) h l =
      let own =
        MapsRun-keeps _ d₁ d' task.id r rest h.0
        ∙ (run_map-IsStored task d d₁ filename content n f c run).files r l in
      rw own (
        ap (λ kvs. pairs_of job.sum32 n_reduce r (job.mapf filename content) ++ kvs)
          (MapsRun-files _ d₁ d' r rest h.1 l))

  -- On a disk whose calls succeed, with different names for the intermediate files: after map
  -- tasks with different numbers have run one after the other, a reduce task over their files of
  -- its number reports, and its output has for each key of its part one line, the output of the
  -- reduce function on the values that it has among the sorted pairs that the tasks made for the
  -- part; other keys have no line. The sort gives back as many pairs, sorted by key in an order
  -- where keys that neither comes before the other are equal, and there is at least one reduce
  -- task.
  pub run_reduce-MapsRun :
      (less : String → String → Bool)
      (connected : (a b : String) → less a b ≡ false → less b a ≡ false → a ≡ b)
      (outs : List (ℕ × List KeyValue)) (d d' : D) (task : Task)
      → IsSorted less (job.sort (all_pairs_of job n_reduce task.id outs))
      → length (job.sort (all_pairs_of job n_reduce task.id outs))
        ≡ length (all_pairs_of job n_reduce task.id outs)
      → MapsRun os job n_reduce outs d d'
      → HaveNumbers outs
      → task.id < n_reduce
      → task.filenames ≡ map (λ out. job.file_name out.0 task.id) outs
      → (d'' : D) × (run_reduce os job task d'
          ≡ some (d'', report (record { type = reduce_task; id = task.id })))
        × AreReduced less connected job.reducef
            (job.sort (all_pairs_of job n_reduce task.id outs))
            (lines d'' (job.out_name task.id))
  run_reduce-MapsRun less connected outs d d' task sorted same run h l names =
      let kvs : read_all os d' task.filenames ≡ all_pairs_of job n_reduce task.id outs =
        ap (read_all os d') names ∙ MapsRun-files outs d d' task.id run h l in
      let (d'', e, reduced) =
        run_reduce-AreReduced os is_temp lines reliable job less connected task d'
          (subst (λ k. IsSorted less (job.sort k)) (sym kvs) sorted)
          (subst (λ k. length (job.sort k) ≡ length k) (sym kvs) same) in
      (
        d'',
        e,
        subst
            (λ k.
              AreReduced less connected job.reducef (job.sort k) (lines d'' (job.out_name task.id)))
            kvs reduced,
      )
