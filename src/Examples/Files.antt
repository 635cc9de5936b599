-- ===== src/Examples/Files.antt =====
-- A disk in the memory, and a job of mr/worker.go on it.
pub mod Names
use Prim.Native.String.{String}
use Prim.Native.Char.{Char}
use text.Mathlib.Text.{◌==◌ as str_eq}
use text.Mathlib.TextEquality.{eq_iff}
use my.Prelude.{
  ℕ, suc, ◌%◌, ◌<◌, ◌≡◌, ◌≢◌, refl, ap, ◌∙◌, Bool, true, false, not, ◌&&◌, ◌||◌, Option, none, some,
  List, [], ◌∷◌, ◌++◌, arith, if◌then◌else◌, length, map, get_elem?, Returns, ◌==◌,
}
use my.MapReduce.Coordinator.{Task, map_task, reduce_task, exit_task, bare_task}
use my.MapReduce.Files.Reports.{AreGiven, worker-reports}
use my.MapReduce.Worker.{KeyValue, ihash, reduce_loop}
use mathlib.Core.List.Permᴰ
use my.MapReduce.Sequential.{sequential}
use my.MapReduce.Sequential.Equal.{IsPart, run_reduce-sequential}
use my.MapReduce.Apps.{wc_map, wc_reduce, count_line, total}
use my.MapReduce.Apps.Count.{wc_job, run_reduce-counts}
use my.MapReduce.Worker.Groups.{IsSorted, AreReduced, outputs_of}
use my.MapReduce.Files.{Os, Job, report, run_map, run_reduce, read_all, worker}
use my.MapReduce.Files.Laws.{IsReliable, IsNamed}
use my.MapReduce.Files.Maps.{run_map-files}
use my.MapReduce.Files.Jobs.{MapsRun, done, next, run_reduce-MapsRun, all_pairs_of}
use my.Examples.Files.Names.{file_name, file_name-IsNamed, is_temp}

-- The pairs and the lines in every file; every temporary file has the one name "t".
record Disk : Type 0 where
  pairs : String → Option (List KeyValue)
  printed : String → List (String × String)

abbrev put : {A : Type 0} → (String → A) → String → A → String → A
put f name a other = if str_eq name other then a else f other

abbrev and_pair : Option (List KeyValue) → KeyValue → Option (List KeyValue)
and_pair none kv = none
and_pair (some kvs) kv = some (kvs ++ kv ∷ [])

abbrev os : Os Disk
os = record {
  read_file = λ d name. some "words";
  create_temp =
      λ d. (record { pairs = put d.pairs "t" (some []); printed = put d.printed "t" [] }, some "t");
  write_pair = λ d temp kv. record d { pairs = put d.pairs temp (and_pair (d.pairs temp) kv) };
  write_line =
      λ d temp line. record d { printed = put d.printed temp (d.printed temp ++ line ∷ []) };
  rename = λ d temp name. record {
    pairs = put d.pairs name (d.pairs temp);
    printed = put d.printed name (d.printed temp);
  };
  read_pairs = λ d name. d.pairs name;
}

put_self : {A : Type 0} (f : String → A) (name : String) (a : A) → put f name a name ≡ a
put_self f name a = let e : str_eq name name ≡ true = (eq_iff name name).1 refl in rw e refl

put_other :
    {A : Type 0} (f : String → A) (name other : String) (a : A)
    → name ≢ other
    → put f name a other ≡ f other
put_other f name other a n = ground (arith, eq_iff name other)

os-IsReliable : IsReliable os is_temp (λ d name. d.printed name)
os-IsReliable = record {
  created = λ d. ("t", refl, refl, refl, refl, λ name f. ground (arith, eq_iff "t" name));
  written = λ d temp kvs kv h. put_self d.pairs temp _ ∙ ap (λ o. and_pair o kv) h;
  written_other = λ d temp name kv n. put_other d.pairs temp name _ n;
  printed = λ d temp line. put_self d.printed temp _;
  renamed = λ d temp name. (put_self d.pairs name _, put_self d.printed name _);
  renamed_other = λ d temp to name n m. put_other d.pairs to name _ m;
}

abbrev less : String → String → Bool
less x y = not (str_eq x y) && (str_eq x "a" || not (str_eq y "a"))

connected : (x y : String) → less x y ≡ false → less y x ≡ false → x ≡ y
connected x y h k = ground (arith, eq_iff x y, eq_iff y x, eq_iff x "a", eq_iff y "a")

-- Two map tasks that find the same two pairs, and one reduce task.
abbrev job : Job
job = record {
  mapf = λ name content. record { key = "a"; value = content } ∷ [];
  reducef = λ key values. "out";
  sum32 = λ key. 0;
  sort = λ kvs. kvs;
  file_name = file_name;
  out_name = λ id. "out";
}

abbrev map_task_of : ℕ → Task
map_task_of id = record { type = map_task; id = id; filenames = "in" ∷ []; n_reduce = 1 }

abbrev disk : Disk
disk = record { pairs = λ name. none; printed = λ name. [] }

abbrev lines : Disk → String → List (String × String)
lines d name = d.printed name

module _ (j : Job) (e : j.file_name ≡ file_name) where
  abbrev first_run :
      (d' : Disk) × (run_map os j (map_task_of 0) disk
        ≡ some (d', report (record { type = map_task; id = 0 })))
  first_run =
      let r =
        run_map-files os is_temp lines os-IsReliable j (file_name-IsNamed j e) (map_task_of 0) disk
          "in" "words" refl refl (omega arith) in
      (r.0, r.1)

  abbrev second_run :
      (d' : Disk) × (run_map os j (map_task_of 1) first_run.0
        ≡ some (d', report (record { type = map_task; id = 1 })))
  second_run =
      let r =
        run_map-files os is_temp lines os-IsReliable j (file_name-IsNamed j e) (map_task_of 1)
          first_run.0 "in" "words" refl refl (omega arith) in
      (r.0, r.1)

  abbrev made : List (ℕ × List KeyValue)
  made = (0, j.mapf "in" "words") ∷ (1, j.mapf "in" "words") ∷ []

  maps_run : MapsRun os j 1 made disk second_run.0
  maps_run =
      next (map_task_of 0) "in" "words" refl refl refl first_run.1
        (next (map_task_of 1) "in" "words" refl refl refl second_run.1 done)

abbrev word : KeyValue
word = record { key = "a"; value = "words" }

abbrev outs : List (ℕ × List KeyValue)
outs = (0, word ∷ []) ∷ (1, word ∷ []) ∷ []

abbrev reduce : Task
reduce = record {
  type = reduce_task;
  id = 0;
  filenames = map (λ out. file_name out.0 0) outs;
  n_reduce = 1;
}

two-IsSorted : IsSorted less (all_pairs_of job 1 0 outs)
unfolding ihash
two-IsSorted = ((refl, tt), (tt, tt))

-- A map task and then the end of the job.
abbrev replies : List (Option Task)
replies = some (map_task_of 0) ∷ some (bare_task exit_task) ∷ []

works :
    worker os job replies disk
    ≡ some ((first_run job refl).0, record { type = map_task; id = 0 } ∷ [])
unfolding worker
works = ground (arith, (first_run job refl).1)

worker-reports_example : AreGiven replies (record { type = map_task; id = 0 } ∷ [])
worker-reports_example =
    worker-reports os job replies disk (first_run job refl).0
      (record { type = map_task; id = 0 } ∷ []) works

run_reduce-sequential_example :
    (d'' : Disk) × (run_reduce os job reduce (second_run job refl).0
      ≡ some (d'', report (record { type = reduce_task; id = 0 })))
    × Returns
        (sequential (λ name. some "words") job.mapf job.reducef job.sort ("in" ∷ "in" ∷ []))
        (IsPart job 1 0 (d''.printed "out"))
run_reduce-sequential_example =
    run_reduce-sequential os is_temp lines os-IsReliable job (file_name-IsNamed job refl) 1
      (omega arith) less connected (λ key vs ws p. refl) (λ name. some "words") ("in" ∷ "in" ∷ [])
      outs disk (second_run job refl).0 reduce
      (record { same = Permᴰ.refl _; sorted = two-IsSorted })
      (record { same = Permᴰ.refl _; sorted = ((refl, tt), (tt, tt)) })
      (("words", refl, refl), (("words", refl, refl), tt)) (maps_run job refl)
      ((λ e. omega arith, tt), (tt, tt)) (omega arith) refl

-- One word, twice in a file and once in another.
abbrev fields_func : String → (Char → Bool) → List String
fields_func text separates = if str_eq text "a a" then "a" ∷ "a" ∷ [] else "a" ∷ []

abbrev is_letter : Char → Bool
is_letter r = true

abbrev itoa : ℕ → String
itoa n = if n == 3 then "3" else "?"

abbrev counting : Job
counting = wc_job is_letter fields_func itoa job

run_reduce-counts_example :
    (d'' : Disk) × (run_reduce os counting reduce (second_run counting refl).0
      ≡ some (d'', report (record { type = reduce_task; id = 0 })))
    × ((key : String)
        → outputs_of key (d''.printed "out") ≡ (
            if ihash job.sum32 key % 1 == 0
            then count_line is_letter fields_func itoa
                (total is_letter fields_func itoa key ("words" ∷ "words" ∷ []))
            else []))
unfolding wc_map ihash
run_reduce-counts_example =
    run_reduce-counts is_letter fields_func itoa os is_temp lines os-IsReliable job
      (file_name-IsNamed counting refl) 1 (omega arith) less connected (made counting refl)
      ("words" ∷ "words" ∷ []) disk (second_run counting refl).0 reduce
      (record { same = Permᴰ.refl _; sorted = ((refl, tt), (tt, tt)) })
      (("in", refl), (("in", refl), tt)) (maps_run counting refl) ((λ e. omega arith, tt), (tt, tt))
      (omega arith) refl

-- The same job in one process.
sequential_run :
    sequential (λ name. some "words") job.mapf job.reducef job.sort ("in" ∷ "in" ∷ [])
    ≡ some (("a", "out") ∷ [])
unfolding sequential reduce_loop
sequential_run = refl
