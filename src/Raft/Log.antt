-- ===== src/Raft/Log.antt =====
-- The log of a peer: conversions between logical and physical indexes, and reads
-- (`ConvertToPhysicIdx` to `GetLogSlices` of raft1/raft.go).
pub mod Indexed
use my.Prelude.{
  ℕ, suc, ◌+◌, ◌-◌, ◌≤◌, ◌<◌, ◌≡◌, Bool, true, false, Option, none, some, List, [], ◌∷◌, ltb, leb,
  length, get_elem?, get_or, take, drop, if◌then◌else◌, ◌||◌,
}
use my.Raft.State.{LogEntry, Raft, zero_entry}

module _ {C : Type 0} where
  unfoldable pub convert_to_physic_idx : Raft C → ℕ → ℕ × Bool
  convert_to_physic_idx rf logic_index =
      if ltb logic_index rf.last_included_index
      then (0, false)
      else (let physic_index = logic_index - rf.last_included_index in
          if leb (length rf.log) physic_index then (0, false) else (physic_index, true))

  -- `rf.Log[len(rf.Log)-1]`, which panics on an empty log.
  unfoldable pub get_last_log : Raft C → Option (LogEntry C)
  get_last_log rf = get_elem? rf.log (length rf.log - 1)

  unfoldable pub convert_to_logic_idx : Raft C → ℕ → ℕ × Bool
  convert_to_logic_idx rf physic_index =
      if leb (length rf.log) physic_index
      then (0, false)
      else (rf.last_included_index + physic_index, true)

  unfoldable pub get_log_entry : Raft C → ℕ → LogEntry C × Bool
  get_log_entry rf logical_index =
      if ltb logical_index rf.last_included_index
      then (zero_entry, false)
      else (let local_index = logical_index - rf.last_included_index in
          if leb (length rf.log) local_index
          then (zero_entry, false)
          else (get_or rf.log local_index zero_entry, true))

  -- `rf.Log[localstart:localend]` panics if the bounds are the wrong way round.
  unfoldable pub get_log_slices : Raft C → ℕ → ℕ → Option (List (LogEntry C) × Bool)
  get_log_slices rf logical_start logical_end =
      if ltb logical_start rf.last_included_index
        || ltb (rf.last_included_index + length rf.log) logical_end
      then some ([], false)
      else if ltb logical_end logical_start
      then none
      else (let local_start = logical_start - rf.last_included_index in
          let local_end = logical_end - rf.last_included_index in
          some (take (local_end - local_start) (drop local_start rf.log), true))
