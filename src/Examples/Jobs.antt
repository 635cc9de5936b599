-- ===== src/Examples/Jobs.antt =====
-- The coordinator of mr/coordinator.go at small jobs, and the worker of mr/worker.go at a few pairs.
use Prim.Native.String.{String}
use text.Mathlib.Text.{◌==◌ as str_eq}
use text.Mathlib.TextEquality.{eq_iff}
use my.MapReduce.Worker.{KeyValue}
use my.Prelude.{
  ℕ, ◌≡◌, refl, Bool, true, false, not, ◌&&◌, ◌||◌, List, [], ◌∷◌, arith, Returns, if◌then◌else◌,
}
use my.MapReduce.Coordinator.{
  map_task, reduce_task, Coordinator, make_coordinator, assign_task, mark_task_done, all_completed,
  completed, in_progress, TaskInfo, idle, assign_first,
}
use my.MapReduce.Coordinator.Valid.{IsValid, mark_task_done-IsValid}
use my.MapReduce.Coordinator.Barrier.{assign_task-Barred}

abbrev file_name : ℕ → ℕ → String
file_name m r = "mr"

abbrev job : Coordinator
job = make_coordinator file_name ("a" ∷ "b" ∷ []) 1

abbrev map_info : TaskInfo
map_info = record {
  task = record { type = map_task; id = 0; filenames = "a" ∷ []; n_reduce = 1 };
  statu = completed;
  start_time = 5;
}

abbrev reduce_info : TaskInfo
reduce_info = record {
  task = record { type = reduce_task; id = 0; filenames = "mr" ∷ []; n_reduce = 1 };
  statu = idle;
  start_time = 0;
}

-- A job in its reduce phase, and one whose only map task is running.
abbrev reducing : Coordinator
reducing = record {
  n_reduce = 1;
  files = "a" ∷ [];
  map_tasks = map_info ∷ [];
  reduce_tasks = reduce_info ∷ [];
  map_done = true;
  reduce_done = false;
}

abbrev running : Coordinator
running = record reducing {
  map_tasks = record map_info { statu = in_progress } ∷ [];
  map_done = false;
}

reducing-IsValid : IsValid reducing
unfolding all_completed
reducing-IsValid = record {
  maps = (refl, tt);
  reduces = (refl, tt);
  maps_over = λ d. refl;
  reduces_over = λ d. ground arith;
}

running-IsValid : IsValid running
unfolding all_completed
running-IsValid = record {
  maps = (refl, tt);
  reduces = (refl, tt);
  maps_over = λ d. ground arith;
  reduces_over = λ d. ground arith;
}

given : (assign_task reducing 9).1.type ≡ reduce_task
unfolding assign_task assign_first
given = refl

assign_task-Barred_example : all_completed (assign_task reducing 9).0.map_tasks ≡ true
assign_task-Barred_example = assign_task-Barred reducing 9 reducing-IsValid given

mark_task_done-IsValid_example :
    Returns (mark_task_done running (record { type = map_task; id = 0 })) IsValid
mark_task_done-IsValid_example =
    mark_task_done-IsValid running (record { type = map_task; id = 0 }) running-IsValid
      (omega arith)

abbrev pair : String → String → KeyValue
pair key value = record { key = key; value = value }

abbrev pairs : List KeyValue
pairs = pair "a" "1" ∷ pair "a" "2" ∷ pair "b" "3" ∷ []

abbrev sum32 : String → ℕ
sum32 key = if str_eq key "a" then 4_294_967_295 else 6

-- An order in which "a" is the first of the keys.
abbrev less : String → String → Bool
less x y = not (str_eq x y) && (str_eq x "a" || not (str_eq y "a"))

connected : (x y : String) → less x y ≡ false → less y x ≡ false → x ≡ y
connected x y h k = ground (arith, eq_iff x y, eq_iff y x, eq_iff x "a", eq_iff y "a")
