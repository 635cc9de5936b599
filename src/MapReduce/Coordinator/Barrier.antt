-- ===== src/MapReduce/Coordinator/Barrier.antt =====
-- AssignTask of mr/coordinator.go: the barrier between the two phases, and what `wait` means.
use my.Prelude.{
  ℕ, ◌≡◌, ◌≢◌, inl, inr, refl, Bool, true, false, none, List, [], ◌∷◌, arith, Option-cases,
  if◌then◌else◌,
}
use my.MapReduce.Coordinator.{
  map_task, reduce_task, wait_task, exit_task, Task, TaskInfo, Coordinator, is_assignable, give_map,
  give_reduce, bare_task, assign_first, assign_task, all_completed,
}
use my.MapReduce.Coordinator.Valid.{IsValid, assign_first-AllOf}

-- The type of a task handed out, once the tables hold tasks of their kind.
Barred : Coordinator × Task → Type 0
Barred out = out.1.type ≡ reduce_task → all_completed out.0.map_tasks ≡ true

give_map-Barred :
    (c : Coordinator) (now : ℕ)
    → IsValid c
    → (give_map c (assign_first now c.map_tasks)).1.type ≢ reduce_task
give_map-Barred c now v = elim (Option-cases (assign_first now c.map_tasks)) [
  | inl n ↦ ground (arith, n)
  | inr ((x, xs), p) ↦
      ground (arith, p, (assign_first-AllOf map_task now c.map_tasks x xs v.maps p).0)
]

give_reduce-Barred :
    (c : Coordinator) (now : ℕ)
    → (give_reduce c (assign_first now c.reduce_tasks)).0.map_tasks ≡ c.map_tasks
give_reduce-Barred c now = ground arith

phases-Barred :
    (c : Coordinator) (now : ℕ) (maps_done reduces_done : Bool)
    → c.map_done ≡ maps_done
    → IsValid c
    → Barred (
        if maps_done
        then (if reduces_done
            then (c, bare_task exit_task)
            else give_reduce c (assign_first now c.reduce_tasks))
        else give_map c (assign_first now c.map_tasks))
unfolding Barred
phases-Barred c now true true m v t = v.maps_over m
phases-Barred c now true false m v t = rw (give_reduce-Barred c now) (v.maps_over m)
phases-Barred c now false r m v t = absurd (give_map-Barred c now v t)

-- A coordinator that meets its invariant gives a worker a reduce task only when every map task is
-- completed.
pub assign_task-Barred :
    (c : Coordinator) (now : ℕ)
    → IsValid c
    → (assign_task c now).1.type ≡ reduce_task
    → all_completed (assign_task c now).0.map_tasks ≡ true
unfolding assign_task Barred
assign_task-Barred c now v t = phases-Barred c now c.map_done c.reduce_done refl v t

-- No task of the list can be handed out: each is completed or in progress within the timeout.
abbrev pub NoneAssignable : ℕ → List TaskInfo → Type 0
NoneAssignable now [] = Unit
NoneAssignable now (info ∷ rest) =
    (is_assignable info.statu info.start_time now ≡ false) × NoneAssignable now rest

-- The tasks of the phase the job is in; none when the job is over.
abbrev pub open_tasks : Coordinator → List TaskInfo
open_tasks c = if c.map_done then (if c.reduce_done then [] else c.reduce_tasks) else c.map_tasks

assign_first-NoneAssignable :
    (now : ℕ) (tasks : List TaskInfo) → assign_first now tasks ≡ none → NoneAssignable now tasks
unfolding assign_first
assign_first-NoneAssignable now [] e = tt
assign_first-NoneAssignable now (info ∷ rest) e = elim (Option-cases (assign_first now rest)) [
  | inl n ↦ ground (arith, n, assign_first-NoneAssignable now rest n)
  | inr (x, p) ↦ ground (arith, p)
]

give_map-waits :
    (c : Coordinator) (now : ℕ)
    → IsValid c
    → (give_map c (assign_first now c.map_tasks)).1.type ≡ wait_task
    → NoneAssignable now c.map_tasks
give_map-waits c now v t = elim (Option-cases (assign_first now c.map_tasks)) [
  | inl n ↦ assign_first-NoneAssignable now c.map_tasks n
  | inr ((x, xs), p) ↦
      ground (arith, p, (assign_first-AllOf map_task now c.map_tasks x xs v.maps p).0)
]

give_reduce-waits :
    (c : Coordinator) (now : ℕ)
    → IsValid c
    → (give_reduce c (assign_first now c.reduce_tasks)).1.type ≡ wait_task
    → NoneAssignable now c.reduce_tasks
give_reduce-waits c now v t = elim (Option-cases (assign_first now c.reduce_tasks)) [
  | inl n ↦ assign_first-NoneAssignable now c.reduce_tasks n
  | inr ((x, xs), p) ↦
      ground (arith, p, (assign_first-AllOf reduce_task now c.reduce_tasks x xs v.reduces p).0)
]

waits_by :
    (c : Coordinator) (now : ℕ) (maps_done reduces_done : Bool)
    → IsValid c
    → (if maps_done
        then (if reduces_done
            then (c, bare_task exit_task)
            else give_reduce c (assign_first now c.reduce_tasks))
        else give_map c (assign_first now c.map_tasks)).1.type
      ≡ wait_task
    → NoneAssignable now
        (if maps_done then (if reduces_done then [] else c.reduce_tasks) else c.map_tasks)
waits_by c now true true v t = tt
waits_by c now true false v t = give_reduce-waits c now v t
waits_by c now false r v t = give_map-waits c now v t

-- A coordinator that meets its invariant tells a worker to wait only when every task of the open
-- phase is completed or was started within the timeout.
pub assign_task-waits :
    (c : Coordinator) (now : ℕ)
    → IsValid c
    → (assign_task c now).1.type ≡ wait_task
    → NoneAssignable now (open_tasks c)
unfolding assign_task
assign_task-waits c now v t = waits_by c now c.map_done c.reduce_done v t
