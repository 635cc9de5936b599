-- ===== src/MapReduce/Files.antt =====
-- mr/worker.go: the loop of a worker, and what its tasks do to the files.
pub mod Laws
pub mod Maps
pub mod Reduces
pub mod Jobs
pub mod Reports
use Prim.Native.String.{String}
use my.Prelude.{
  ℕ, zero, suc, Bool, true, false, Option, none, some, List, [], ◌∷◌, ◌++◌, ◌>>=◌, get_elem?,
  length,
}
use my.MapReduce.Coordinator.{Task, TaskType, map_task, reduce_task, wait_task, exit_task, DoneArgs}
use my.MapReduce.Worker.{KeyValue, make_buckets, reduce_loop}

-- The calls of the packages os, encoding/json and fmt, on a disk of type `D`. A file that cannot be
-- created or opened is none; errors of the others are logged and no more.
pub record Os (D : Type 0) : Type 0 where
  pub read_file : D → String → Option String
  pub create_temp : D → D × Option String
  pub write_pair : D → String → KeyValue → D  -- `enc.Encode(&kv)`
  pub write_line : D → String → String × String → D  -- `fmt.Fprintf(tempfile, "%v %v\n", …)`
  pub rename : D → String → String → D
  pub read_pairs : D → String → Option (List KeyValue)  -- `os.Open`, and `Decode` up to an error

-- What the worker does after a task: the next round, the end of `Worker`, or a report.
pub data After : Type 0 where
  go_on leave : After
  report : DoneArgs → After

-- The functions of the application, the sort of `ByKey`, and the names of the files.
pub record Job : Type 0 where
  pub mapf : String → String → List KeyValue
  pub reducef : String → List String → String
  pub sum32 : String → ℕ
  pub sort : List KeyValue → List KeyValue
  pub file_name : ℕ → ℕ → String
  pub out_name : ℕ → String

module _ {D : Type 0} (os : Os D) where
  abbrev pub write_pairs : String → List KeyValue → D → D
  write_pairs temp [] d = d
  write_pairs temp (kv ∷ rest) d = write_pairs temp rest (os.write_pair d temp kv)

  abbrev pub write_lines : String → List (String × String) → D → D
  write_lines temp [] d = d
  write_lines temp (line ∷ rest) d = write_lines temp rest (os.write_line d temp line)

  -- The files of the pairs of one reduce task after the other.
  abbrev or_empty : Option (List KeyValue) → List KeyValue
  or_empty none = []
  or_empty (some kvs) = kvs

  unfoldable pub read_all : D → List String → List KeyValue
  read_all d [] = []
  read_all d (name ∷ rest) = or_empty (os.read_pairs d name) ++ read_all d rest

  module _ (job : Job) where
    -- The buckets from the `i`-th on; false if a temporary file could not be made.
    unfoldable pub write_files : ℕ → ℕ → List (List KeyValue) → D → D × Bool
    write_files id i [] d = (d, true)
    write_files id i (bucket ∷ rest) d =
        let (d₁, created) = os.create_temp d in
        elim created [
          | none ↦ (d₁, false)
          | some temp ↦
              write_files id (suc i) rest
                (os.rename (write_pairs temp bucket d₁) temp (job.file_name id i))
        ]

    abbrev pub after_files : ℕ → D × Bool → D × After
    after_files id (d, true) = (d, report (record { type = map_task; id = id }))
    after_files id (d, false) = (d, leave)

    -- `case MapTask`; none is a panic.
    unfoldable pub run_map : Task → D → Option (D × After)
    unfolding write_files
    run_map task d = do
      filename ← get_elem? task.filenames 0
      elim (os.read_file d filename) [
        | none ↦ some (d, go_on)
        | some content ↦ (do
          buckets ← make_buckets job.sum32 task.n_reduce (job.mapf filename content)
          some (after_files task.id (write_files task.id 0 buckets d)))
      ]

    -- `case ReduceTask`. Without a temporary file, the lines go nowhere and `tempfile.Name()` panics.
    unfoldable pub run_reduce : Task → D → Option (D × After)
    unfolding read_all
    run_reduce task d = do
      let kvs = read_all d task.filenames
      let (d₁, created) = os.create_temp d
      lines ← reduce_loop job.reducef (length kvs) (job.sort kvs)
      temp ← created
      some (
        os.rename (write_lines temp lines d₁) temp (job.out_name task.id),
        report (record { type = reduce_task; id = task.id }),
      )

    -- The loop of `Worker` over what `Coordinator.AssignTask` replies, none for a call that failed:
    -- the disk and the reports. An empty list is a worker that still runs.
    unfoldable pub worker : List (Option Task) → D → Option (D × List DoneArgs)
    unfolding run_map run_reduce
    worker [] d = some (d, [])
    worker (none ∷ rest) d = some (d, [])
    worker (some task ∷ rest) d =
        let continue : D × After → Option (D × List DoneArgs) = λ (d₁, after). elim after [
          | leave ↦ some (d₁, [])
          | go_on ↦ worker rest d₁
          | report args ↦ (do (d₂, reports) ← worker rest d₁; some (d₂, args ∷ reports))
        ] in
        elim task.type [
          | map_task ↦ (do out ← run_map task d; continue out)
          | reduce_task ↦ (do out ← run_reduce task d; continue out)
          | wait_task ↦ worker rest d
          | exit_task ↦ some (d, [])
        ]
