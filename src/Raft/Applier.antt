-- ===== src/Raft/Applier.antt =====
-- The applier goroutine, cut where it gives up the mutex, and the ticker (`Applier`, `ticker`,
-- `Kill` of raft1/raft.go; `ApplyMsg` of raftapi/raftapi.go).
pub mod Delivery
use my.Prelude.{
  ℕ, suc, ◌+◌, ◌-◌, Bool, true, false, not, ◌&&◌, ◌||◌, Option, none, some, List, [], ◌∷◌, map, max,
  ltb, leb, ◌==◌, if◌then◌else◌, ◌>>=◌, length,
}
use my.Raft.State.{Raft, LogEntry, Bytes, is_leader, signal}
use my.Raft.Log.{get_log_slices}

-- A message with `CommandValid`, or one with `SnapshotValid`.
pub data ApplyMsg (C : Type 0) : Type 0 where
  command_msg : Option C → ℕ → ℕ → ApplyMsg C  -- Command, CommandTerm, CommandIndex
  snapshot_msg : Bytes → ℕ → ℕ → ApplyMsg C  -- Snapshot, SnapshotTerm, SnapshotIndex

-- What the applier does next: `wait` sleeps on the condition, `retry` goes round the loop, `send`
-- puts messages on the channel and then raises `LastApplied`.
pub data Applying (C : Type 0) : Type 0 where
  stop wait retry : Applying C
  send : List (ApplyMsg C) → ℕ → Applying C

-- What the ticker does next.
pub data Tick : Type 0 where
  exit broadcast elect sleep : Tick

module _ {C : Type 0} where
  abbrev pub entry_msg : LogEntry C → ApplyMsg C
  entry_msg entry = command_msg entry.command entry.term entry.index

  -- The condition of the loop around `Wait`.
  abbrev pub nothing_to_apply : Raft C → Bool
  nothing_to_apply rf =
      leb rf.commit_index rf.last_applied && leb rf.last_included_index rf.last_applied

  -- The body of the loop once the condition has been left.
  unfoldable pub apply_next : Raft C → Option (Applying C)
  apply_next rf =
      if ltb rf.last_applied rf.last_included_index
      then some (
          send
            (snapshot_msg rf.persister.snapshot rf.last_included_term rf.last_included_index ∷ [])
            rf.last_included_index)
      else do
        (applied_entries, found) ← get_log_slices rf (rf.last_applied + 1) (rf.commit_index + 1)
        some (
            if not found || (length applied_entries == 0)
            then retry
            else send (map entry_msg applied_entries) rf.commit_index)

  -- The applier with the mutex, in the loop around `Wait`: after a wake-up it tests the condition
  -- alone, and not `killed()`.
  unfoldable pub applier_woken : Raft C → Option (Raft C × Applying C)
  applier_woken rf =
      if nothing_to_apply rf
      then some (record rf { apply_cond = true }, wait)
      else do next ← apply_next rf; some (rf, next)

  -- The applier at the head of its outer loop.
  unfoldable pub applier_begin : Raft C → Option (Raft C × Applying C)
  applier_begin rf = if rf.dead then some (rf, stop) else applier_woken rf

  -- The critical section after the messages were sent.
  unfoldable pub applier_end : Raft C → ℕ → Raft C
  applier_end rf applied = record rf { last_applied = max rf.last_applied applied }

  unfoldable pub kill : Raft C → Raft C
  kill rf = signal (record rf { dead = true })

  -- One round of `ticker`, with the peer as it is at the first and at the second lock; a clock that
  -- runs backwards gives no timeout.
  unfoldable pub ticker : Raft C → Raft C → ℕ → Tick
  ticker rf rf' now =
      if rf.dead
      then exit
      else if is_leader rf.state
      then broadcast
      else if ltb rf'.election_timeout (now - rf'.last_contect)
      then elect
      else sleep
