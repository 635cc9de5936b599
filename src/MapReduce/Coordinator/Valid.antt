-- ===== src/MapReduce/Coordinator/Valid.antt =====
-- The invariant of the coordinator over the operations of mr/coordinator.go.
use Prim.Native.String.{String}
use my.Prelude.{
  ℕ, zero, suc, ◌+◌, ◌<◌, length, get_elem?-eq_some, get_or, ◌≡◌, inl, inr, refl, Bool, true, false,
  some, List, [], ◌∷◌, arith, Option-cases, ◌||◌, if◌then◌else◌, Returns, get_elem?, set,
}
use my.MapReduce.Coordinator.{
  TaskType, map_task, reduce_task, wait_task, exit_task, Task, DoneArgs, TaskInfo, Coordinator,
  idle, completed, give_map, give_reduce, bare_task, assign_first, assign_task, all_completed,
  complete, mark_done_as, mark_task_done, map_infos, reduce_infos, make_coordinator,
}

abbrev pub AllOf : TaskType → List TaskInfo → Type 0
AllOf t [] = Unit
AllOf t (info ∷ rest) = (info.task.type ≡ t) × AllOf t rest

-- The tables hold tasks of their kind, and a phase that is over has only completed tasks.
pub record IsValid (c : Coordinator) : Type 0 where
  pub maps : AllOf map_task c.map_tasks
  pub reduces : AllOf reduce_task c.reduce_tasks
  pub maps_over : c.map_done ≡ true → all_completed c.map_tasks ≡ true
  pub reduces_over : c.reduce_done ≡ true → all_completed c.reduce_tasks ≡ true

pub assign_first-AllOf :
    (t : TaskType) (now : ℕ) (tasks : List TaskInfo) (task : Task) (tasks' : List TaskInfo)
    → AllOf t tasks
    → assign_first now tasks ≡ some (task, tasks')
    → (task.type ≡ t) × AllOf t tasks'
unfolding assign_first
assign_first-AllOf t now [] task tasks' h e = ground arith
assign_first-AllOf t now (info ∷ rest) task tasks' h e =
    elim (Option-cases (assign_first now rest)) [
      | inl n ↦ ground (arith, n)
      | inr ((x, xs), p) ↦ ground (arith, p, assign_first-AllOf t now rest x xs h.1 p)
    ]

set-completed :
    (t : TaskType) (tasks : List TaskInfo) (id : ℕ) (info : TaskInfo)
    → AllOf t tasks
    → get_elem? tasks id ≡ some info
    → AllOf t (set tasks id (record info { statu = completed }))
      × (all_completed tasks ≡ true
          → all_completed (set tasks id (record info { statu = completed })) ≡ true)
unfolding all_completed
set-completed t [] id info h e = ground arith
set-completed t (x ∷ tasks) zero info h e = ground arith
set-completed t (x ∷ tasks) (suc id) info h e = ground (arith, set-completed t tasks id info h.1 e)

give_map-IsValid :
    (c : Coordinator) (now : ℕ)
    → IsValid c
    → c.map_done ≡ false
    → IsValid (give_map c (assign_first now c.map_tasks)).0
give_map-IsValid c now v d = elim (Option-cases (assign_first now c.map_tasks)) [
  | inl n ↦ rw n v
  | inr ((x, xs), p) ↦ rw p record {
    maps = (assign_first-AllOf map_task now c.map_tasks x xs v.maps p).1;
    reduces = v.reduces;
    maps_over = λ o. ground arith;
    reduces_over = v.reduces_over;
  }
]

give_reduce-IsValid :
    (c : Coordinator) (now : ℕ)
    → IsValid c
    → c.reduce_done ≡ false
    → IsValid (give_reduce c (assign_first now c.reduce_tasks)).0
give_reduce-IsValid c now v d = elim (Option-cases (assign_first now c.reduce_tasks)) [
  | inl n ↦ rw n v
  | inr ((x, xs), p) ↦ rw p record {
    maps = v.maps;
    reduces = (assign_first-AllOf reduce_task now c.reduce_tasks x xs v.reduces p).1;
    maps_over = v.maps_over;
    reduces_over = λ o. ground arith;
  }
]

assign_by :
    (c : Coordinator) (now : ℕ) (maps_done reduces_done : Bool)
    → c.map_done ≡ maps_done
    → c.reduce_done ≡ reduces_done
    → IsValid c
    → IsValid
        (if maps_done
          then (if reduces_done
              then (c, bare_task exit_task)
              else give_reduce c (assign_first now c.reduce_tasks))
          else give_map c (assign_first now c.map_tasks)).0
assign_by c now true true m r v = v
assign_by c now true false m r v = give_reduce-IsValid c now v r
assign_by c now false r m _ v = give_map-IsValid c now v m

-- Handing out a task keeps the invariant, at any time on the clock.
pub assign_task-IsValid : (c : Coordinator) (now : ℕ) → IsValid c → IsValid (assign_task c now).0
unfolding assign_task
assign_task-IsValid c now v = assign_by c now c.map_done c.reduce_done refl refl v

complete-AllOf :
    (t : TaskType) (tasks tasks' : List TaskInfo) (id : ℕ)
    → AllOf t tasks
    → complete tasks id ≡ some tasks'
    → AllOf t tasks' × (all_completed tasks ≡ true → all_completed tasks' ≡ true)
unfolding complete
complete-AllOf t tasks tasks' id h e = elim (Option-cases (get_elem? tasks id)) [
  | inl n ↦ ground (arith, n)
  | inr (x, p) ↦ ground (arith, p, e, set-completed t tasks id x h p)
]

or_over : (a b : Bool) → (b ≡ true → a ≡ true) → (a || b) ≡ true → a ≡ true
or_over true b h e = refl
or_over false b h e = h e

-- A report is about a task that exists.
abbrev pub IsKnown : Coordinator → TaskType → ℕ → Type 0
IsKnown c map_task id = id < length c.map_tasks
IsKnown c reduce_task id = id < length c.reduce_tasks
IsKnown c _ id = Unit

with_maps-IsValid :
    (c : Coordinator) (tasks : List TaskInfo)
    → IsValid c
    → AllOf map_task tasks × (all_completed c.map_tasks ≡ true → all_completed tasks ≡ true)
    → IsValid (record c { map_tasks = tasks; map_done = all_completed tasks || c.map_done })
with_maps-IsValid c tasks v h = record {
  maps = h.0;
  reduces = v.reduces;
  maps_over = or_over (all_completed tasks) c.map_done (λ d. h.1 (v.maps_over d));
  reduces_over = v.reduces_over;
}

with_reduces-IsValid :
    (c : Coordinator) (tasks : List TaskInfo)
    → IsValid c
    → AllOf reduce_task tasks × (all_completed c.reduce_tasks ≡ true → all_completed tasks ≡ true)
    → IsValid
        (record c { reduce_tasks = tasks; reduce_done = all_completed tasks || c.reduce_done })
with_reduces-IsValid c tasks v h = record {
  maps = v.maps;
  reduces = h.0;
  maps_over = v.maps_over;
  reduces_over = or_over (all_completed tasks) c.reduce_done (λ d. h.1 (v.reduces_over d));
}

abbrev unset_info : TaskInfo
unset_info = record { task = bare_task map_task; statu = idle; start_time = 0 }

complete-Returns :
    (tasks : List TaskInfo) (id : ℕ)
    → id < length tasks
    → (tasks' : List TaskInfo) × (complete tasks id ≡ some tasks')
unfolding complete
complete-Returns tasks id b = (
  set tasks id (record (get_or tasks id unset_info) { statu = completed }),
  rw (get_elem?-eq_some tasks id unset_info b) refl,
)

mark_done_as-IsValid :
    (t : TaskType) (c : Coordinator) (id : ℕ)
    → IsValid c
    → IsKnown c t id
    → Returns (mark_done_as t c id) IsValid
unfolding mark_done_as
mark_done_as-IsValid map_task c id v b =
    let (tasks, p) = complete-Returns c.map_tasks id b in
    rw p (with_maps-IsValid c tasks v (complete-AllOf map_task c.map_tasks tasks id v.maps p))
mark_done_as-IsValid reduce_task c id v b =
    let (tasks, p) = complete-Returns c.reduce_tasks id b in
    rw p (
      with_reduces-IsValid c tasks v
        (complete-AllOf reduce_task c.reduce_tasks tasks id v.reduces p))
mark_done_as-IsValid wait_task c id v b = v
mark_done_as-IsValid exit_task c id v b = v

-- The report of a task that exists does not panic, and a coordinator that meets its invariant
-- meets it afterwards.
pub mark_task_done-IsValid :
    (c : Coordinator) (args : DoneArgs)
    → IsValid c
    → IsKnown c args.type args.id
    → Returns (mark_task_done c args) IsValid
unfolding mark_task_done
mark_task_done-IsValid c args v b = mark_done_as-IsValid args.type c args.id v b

map_infos-AllOf : (n i : ℕ) (files : List String) → AllOf map_task (map_infos n i files)
unfolding map_infos
map_infos-AllOf n i [] = tt
map_infos-AllOf n i (file ∷ rest) = (refl, map_infos-AllOf n (i + 1) rest)

reduce_infos-AllOf :
    (name : ℕ → ℕ → String) (maps : List TaskInfo) (n i k : ℕ)
    → AllOf reduce_task (reduce_infos name maps n i k)
unfolding reduce_infos
reduce_infos-AllOf name maps n i zero = tt
reduce_infos-AllOf name maps n i (suc k) = (refl, reduce_infos-AllOf name maps n (i + 1) k)

-- The coordinator that `MakeCoordinator` returns meets the invariant.
pub make_coordinator-IsValid :
    (name : ℕ → ℕ → String) (files : List String) (n : ℕ) → IsValid (make_coordinator name files n)
unfolding make_coordinator
make_coordinator-IsValid name files n = record {
  maps = map_infos-AllOf n 0 files;
  reduces = reduce_infos-AllOf name (map_infos n 0 files) n 0 n;
  maps_over = λ o. ground arith;
  reduces_over = λ o. ground arith;
}
