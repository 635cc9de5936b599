-- ===== src/MapReduce/Apps/Count.antt =====
-- A job of mr/worker.go whose application is mrapps/wc.go.
use Prim.Native.String.{String}
use Prim.Native.Char.{Char}
use my.Prelude.{
  ℕ, ◌%◌, ◌<◌, ◌≡◌, refl, ap, ◌∙◌, Bool, true, false, some, List, [], ◌∷◌, arith, length,
  length-append, map, ◌==◌, if◌then◌else◌,
}
use my.MapReduce.Coordinator.{Task, reduce_task}
use my.MapReduce.Worker.{KeyValue, ihash}
use my.MapReduce.Worker.Groups.{values_of, outputs_of, lines_for}
use my.MapReduce.Files.{Os, Job, report, run_reduce}
use my.MapReduce.Files.Laws.{IsReliable, IsNamed}
use my.MapReduce.Files.Jobs.{MapsRun, HaveNumbers, all_pairs_of, run_reduce-MapsRun}
use my.MapReduce.Sequential.Orders.{length-perm, values_of-append}
use my.MapReduce.Sequential.Equal.{all_pairs, Sorts, reduced_line, values_of-all_pairs_of}
use my.MapReduce.Apps.{
  fields, wc_map, wc_reduce, wc_reduce-perm, total, count_line, lines_for-count, length-values_of,
}

module _ (is_letter : Char → Bool) (fields_func : String → (Char → Bool) → List String)
    (itoa : ℕ → String) where
  -- The job with this application.
  abbrev pub wc_job : Job → Job
  wc_job job = record job {
    mapf = wc_map is_letter fields_func itoa;
    reducef = wc_reduce is_letter fields_func itoa;
  }

  -- The map tasks made of these texts what the application makes of them.
  abbrev pub AreCounted : List (ℕ × List KeyValue) → List String → Type 0
  AreCounted [] [] = Unit
  AreCounted (out ∷ outs) (text ∷ texts) =
      ((name : String) × (out.1 ≡ wc_map is_letter fields_func itoa name text))
      × AreCounted outs texts
  AreCounted _ _ = ⊥

  length-values_of_counted :
      (key : String) (outs : List (ℕ × List KeyValue)) (texts : List String)
      → AreCounted outs texts
      → length (values_of key (all_pairs outs)) ≡ total is_letter fields_func itoa key texts
  unfolding wc_map
  length-values_of_counted key [] [] h = refl
  length-values_of_counted key [] (text ∷ texts) h = absurd h
  length-values_of_counted key (out ∷ outs) [] h = absurd h
  length-values_of_counted key (out ∷ outs) (text ∷ texts) ((name, e), h) =
      ap length (values_of-append key out.1 (all_pairs outs))
      ∙ omega (
        arith,
        length-append (values_of key out.1) (values_of key (all_pairs outs)),
        ap (λ kvs. length (values_of key kvs)) e,
        length-values_of is_letter fields_func itoa key (fields is_letter fields_func itoa text),
        length-values_of_counted key outs texts h,
      )

  length-if :
      (b : Bool) (vs : List String)
      → count_line is_letter fields_func itoa (length (if b then vs else []))
        ≡ (if b then count_line is_letter fields_func itoa (length vs) else [])
  length-if true vs = refl
  length-if false vs = refl

  module _ {D : Type 0} (os : Os D) (is_temp : String → Bool)
      (lines : D → String → List (String × String)) (reliable : IsReliable os is_temp lines)
      (job : Job) (named : IsNamed (wc_job job) is_temp) (n_reduce : ℕ)
      (positive : 0 < n_reduce) where
    -- On a disk whose calls succeed, with different names for the intermediate files: after map
    -- tasks of the word count with different numbers have run one after the other on these texts,
    -- a reduce task over the files of its number reports, and its output has for each word of its
    -- part that occurs one line, with the number of its occurrences in all of the texts; other
    -- words have no line. The sort gives back the same pairs, sorted by key in an order where keys
    -- that neither comes before the other are equal, and there is at least one reduce task.
    pub run_reduce-counts :
        (less : String → String → Bool)
        (connected : (a b : String) → less a b ≡ false → less b a ≡ false → a ≡ b)
        (outs : List (ℕ × List KeyValue)) (texts : List String) (d d' : D) (task : Task)
        → Sorts less job.sort (all_pairs_of (wc_job job) n_reduce task.id outs)
        → AreCounted outs texts
        → MapsRun os (wc_job job) n_reduce outs d d'
        → HaveNumbers outs
        → task.id < n_reduce
        → task.filenames ≡ map (λ out. job.file_name out.0 task.id) outs
        → (d'' : D) × (run_reduce os (wc_job job) task d'
            ≡ some (d'', report (record { type = reduce_task; id = task.id })))
          × ((key : String)
              → outputs_of key (lines d'' (job.out_name task.id)) ≡ (
                  if ihash job.sum32 key % n_reduce == task.id
                  then count_line is_letter fields_func itoa
                      (total is_letter fields_func itoa key texts)
                  else []))
    run_reduce-counts less connected outs texts d d' task s c run h l f =
        let part = all_pairs_of (wc_job job) n_reduce task.id outs in
        let reducef = wc_reduce is_letter fields_func itoa in
        let (d'', e, r) =
          run_reduce-MapsRun os is_temp lines reliable (wc_job job) named n_reduce positive less
            connected outs d d' task s.sorted (length-perm s.same) run h l f in
        (
          d'',
          e,
          λ key.
              let b = ihash job.sum32 key % n_reduce == task.id in
              let vs = values_of key (all_pairs outs) in
              reduced_line less connected reducef (wc_reduce-perm is_letter fields_func itoa)
                job.sort part _ key s r
              ∙ ap (lines_for less connected reducef key)
                  (values_of-all_pairs_of (wc_job job) n_reduce task.id key outs)
              ∙ lines_for-count is_letter fields_func itoa less connected key (if b then vs else [])
              ∙ length-if b vs
              ∙ ap (λ n. if b then count_line is_letter fields_func itoa n else [])
                  (length-values_of_counted key outs texts c),
        )
