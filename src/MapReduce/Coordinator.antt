-- ===== src/MapReduce/Coordinator.antt =====
-- mr/coordinator.go and the messages of mr/rpc.go: the coordinator hands out tasks and takes reports.
pub mod Barrier
pub mod Valid
use Prim.Native.String.{String}
use my.Prelude.{
  ℕ, zero, suc, ◌+◌, ◌-◌, ◌*◌, Bool, true, false, ◌&&◌, ◌||◌, Option, none, some, List, [], ◌∷◌,
  map, ltb, ◌==◌, if◌then◌else◌, ◌>>=◌, length, get_elem?, set,
}

pub data TaskType : Type 0 where
  map_task reduce_task wait_task exit_task : TaskType

pub record Task : Type 0 where
  pub type : TaskType
  pub id : ℕ
  pub filenames : List String
  pub n_reduce : ℕ

pub record DoneArgs : Type 0 where
  pub type : TaskType
  pub id : ℕ

pub data TaskState : Type 0 where
  idle in_progress completed : TaskState

pub record TaskInfo : Type 0 where
  pub task : Task
  pub statu : TaskState
  pub start_time : ℕ  -- nanoseconds

pub record Coordinator : Type 0 where
  pub n_reduce : ℕ
  pub files : List String
  pub map_tasks : List TaskInfo
  pub reduce_tasks : List TaskInfo
  pub map_done : Bool
  pub reduce_done : Bool

abbrev pub timeout : ℕ
timeout = 10 * 1_000_000_000

-- `Task{Type: t}`
abbrev pub bare_task : TaskType → Task
bare_task t = record { type = t; id = 0; filenames = []; n_reduce = 0 }

abbrev pub is_completed : TaskState → Bool
is_completed completed = true
is_completed _ = false

-- Idle, or in progress for longer than the timeout at the time `now`.
abbrev pub is_assignable : TaskState → ℕ → ℕ → Bool
is_assignable idle start now = true
is_assignable in_progress start now = ltb timeout (now - start)
is_assignable completed start now = false

-- The loop over the tasks: the first that can be assigned, and the tasks with it started.
unfoldable pub assign_first : ℕ → List TaskInfo → Option (Task × List TaskInfo)
assign_first now [] = none
assign_first now (info ∷ rest) =
    let later = (do (task, rest') ← assign_first now rest; some (task, info ∷ rest')) in
    if is_assignable info.statu info.start_time now
    then some (info.task, record info { statu = in_progress; start_time = now } ∷ rest)
    else later

abbrev pub give_map : Coordinator → Option (Task × List TaskInfo) → Coordinator × Task
give_map c none = (c, bare_task wait_task)
give_map c (some (task, tasks)) = (record c { map_tasks = tasks }, task)

abbrev pub give_reduce : Coordinator → Option (Task × List TaskInfo) → Coordinator × Task
give_reduce c none = (c, bare_task wait_task)
give_reduce c (some (task, tasks)) = (record c { reduce_tasks = tasks }, task)

unfoldable pub assign_task : Coordinator → ℕ → Coordinator × Task
assign_task c now =
    if c.map_done
    then (if c.reduce_done
        then (c, bare_task exit_task)
        else give_reduce c (assign_first now c.reduce_tasks))
    else give_map c (assign_first now c.map_tasks)

unfoldable pub all_completed : List TaskInfo → Bool
all_completed [] = true
all_completed (info ∷ rest) = is_completed info.statu && all_completed rest

-- `tasks[id].Statu = Completed`, which panics if there is no such task.
unfoldable pub complete : List TaskInfo → ℕ → Option (List TaskInfo)
complete tasks id = do
  info ← get_elem? tasks id
  some (set tasks id (record info { statu = completed }))

unfoldable pub mark_done_as : TaskType → Coordinator → ℕ → Option Coordinator
mark_done_as map_task c id = do
  tasks ← complete c.map_tasks id
  some (record c { map_tasks = tasks; map_done = all_completed tasks || c.map_done })
mark_done_as reduce_task c id = do
  tasks ← complete c.reduce_tasks id
  some (record c { reduce_tasks = tasks; reduce_done = all_completed tasks || c.reduce_done })
mark_done_as _ c id = some c

unfoldable pub mark_task_done : Coordinator → DoneArgs → Option Coordinator
unfolding mark_done_as
mark_task_done c args = mark_done_as args.type c args.id

unfoldable pub done : Coordinator → Bool
done c = c.reduce_done

unfoldable pub map_infos : ℕ → ℕ → List String → List TaskInfo
map_infos n_reduce i [] = []
map_infos n_reduce i (file ∷ rest) =
    record {
      task = record { type = map_task; id = i; filenames = file ∷ []; n_reduce = n_reduce };
      statu = idle;
      start_time = 0;
    }
    ∷ map_infos n_reduce (i + 1) rest

-- `fmt.Sprintf("mr-%d-%d", m, r)` is the parameter `file_name m r`.
module _ (file_name : ℕ → ℕ → String) where
  unfoldable pub reduce_infos : List TaskInfo → ℕ → ℕ → ℕ → List TaskInfo
  reduce_infos maps n_reduce i zero = []
  reduce_infos maps n_reduce i (suc rounds) =
      record {
        task = record {
          type = reduce_task;
          id = i;
          filenames = map (λ j. file_name j.task.id i) maps;
          n_reduce = n_reduce;
        };
        statu = idle;
        start_time = 0;
      }
      ∷ reduce_infos maps n_reduce (i + 1) rounds

  unfoldable pub make_coordinator : List String → ℕ → Coordinator
  unfolding map_infos reduce_infos
  make_coordinator files n_reduce = record {
    n_reduce = n_reduce;
    files = files;
    map_tasks = map_infos n_reduce 0 files;
    reduce_tasks = reduce_infos (map_infos n_reduce 0 files) n_reduce 0 n_reduce;
    map_done = false;
    reduce_done = false;
  }
