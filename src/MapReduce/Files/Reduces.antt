-- ===== src/MapReduce/Files/Reduces.antt =====
-- The output of a reduce task of mr/worker.go, on a disk whose calls succeed.
use Prim.Native.String.{String}
use my.Prelude.{◌≡◌, ap, ◌∙◌, Bool, false, some, List, ◌++◌, arith, length, Option-cases, inl, inr}
use my.MapReduce.Coordinator.{Task, reduce_task}
use my.MapReduce.Worker.{reduce_loop}
use my.MapReduce.Worker.Groups.{IsSorted, AreReduced, reduce_loop-AreReduced}
use my.MapReduce.Files.{Os, Job, report, write_lines, read_all, run_reduce}
use my.MapReduce.Files.Laws.{IsReliable, write_lines_lem}

module _ {D : Type 0} (os : Os D) (is_temp : String → Bool)
    (lines : D → String → List (String × String)) (reliable : IsReliable os is_temp lines)
    (job : Job) (less : String → String → Bool) where
  -- A reduce task whose pairs the sort puts in order reports, and its output has one line for each
  -- key of the sorted pairs.
  pub run_reduce-AreReduced :
      (connected : (a b : String) → less a b ≡ false → less b a ≡ false → a ≡ b) (task : Task)
      (d : D)
      → IsSorted less (job.sort (read_all os d task.filenames))
      → length (job.sort (read_all os d task.filenames)) ≡ length (read_all os d task.filenames)
      → (d' : D) × (run_reduce os job task d
          ≡ some (d', report (record { type = reduce_task; id = task.id })))
        × AreReduced less connected job.reducef
            (job.sort (read_all os d task.filenames))
            (lines d' (job.out_name task.id))
  unfolding run_reduce
  run_reduce-AreReduced connected task d sorted same =
      let kvs = read_all os d task.filenames in
      let h =
        reduce_loop-AreReduced less connected job.reducef (length kvs) (job.sort kvs)
          (omega (arith, same)) sorted in
      let (temp, e, t, empty, no_lines, others) = reliable.created d in
      elim (Option-cases (reduce_loop job.reducef (length kvs) (job.sort kvs))) [
        | inl n ↦ absurd (rw n at h)
        | inr (ls, p) ↦
            let d₁ = (os.create_temp d).0 in
            let d' = os.rename (write_lines os temp ls d₁) temp (job.out_name task.id) in
            let printed : lines d' (job.out_name task.id) ≡ ls =
              (reliable.renamed (write_lines os temp ls d₁) temp (job.out_name task.id)).1
              ∙ write_lines_lem os is_temp lines reliable d₁ temp ls
              ∙ ap (λ l. l ++ ls) no_lines in
            (d', ground (arith, p, e), rw printed (rw p at h))
      ]
