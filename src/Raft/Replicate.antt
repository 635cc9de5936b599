-- ===== src/Raft/Replicate.antt =====
-- Replication, the leader's side: `Start`, and the goroutine of `BroadcastEntries` for one peer, what
-- it sends and what it does with the reply (raft1/raft.go).
pub mod Leading
pub mod Prepare
pub mod Replies
pub mod Round
use my.Prelude.{
  ℕ, zero, suc, ◌+◌, ◌-◌, Bool, true, false, not, ◌&&◌, ◌||◌, Option, none, some, List, [], ◌∷◌,
  ◌++◌, ltb, leb, ◌==◌, if◌then◌else◌, ◌>>=◌, get_elem?, get_or, set, length,
}
use my.Raft.State.{Raft, LogEntry, Gob, State, follower, is_leader, not_voted, zero_entry, persist}
use my.Raft.Log.{get_last_log, get_log_entry, get_log_slices}
use my.Raft.Append.{AppendEntriesArgs, AppendEntriesReply}
use my.Raft.Snapshots.{InstallSnapshotArgs, raise_to}
use my.Raft.Commit.{update_commit_index}

-- The index and the term of the new entry, and whether the peer is the leader; `-1, -1, false` of
-- the source is `none`.
abbrev pub Started : Type 0
Started = Option (ℕ × ℕ)

abbrev pub or_else : Option ℕ → ℕ → ℕ
or_else none d = d
or_else (some i) d = i

-- What a goroutine of `BroadcastEntries` does after its first critical section.
pub data Outgoing (C : Type 0) : Type 0 where
  nothing : Outgoing C
  install : InstallSnapshotArgs → Outgoing C
  append : AppendEntriesArgs C → Outgoing C

module _ {C : Type 0} where
  -- The critical section of `Start`; `BroadcastEntries` follows it.
  unfoldable pub start : Gob C → Raft C → C → Option (Raft C × Started)
  unfolding persist
  start gob rf command = if not (is_leader rf.state) then some (rf, none) else do
    last_log ← get_last_log rf
    let new_log_entry : LogEntry C = record {
      command = some command;
      term = rf.current_term;
      index = last_log.index + 1;
    }
    some (
      persist gob (record rf { log = rf.log ++ new_log_entry ∷ [] }),
      some (last_log.index + 1, rf.current_term),
    )

  unfoldable pub prepare : Raft C → ℕ → Option (Outgoing C)
  prepare rf server = if not (is_leader rf.state) || rf.dead then some nothing else do
    next_index ← get_elem? rf.next_index server
    last_log ← get_last_log rf
    if leb next_index rf.last_included_index
        then some (
            install (record {
              term = rf.current_term;
              leader_id = rf.me;
              last_included_index = rf.last_included_index;
              last_included_term = rf.last_included_term;
              bytes = rf.persister.snapshot;
            }))
        else do
          let prev_index = next_index - 1
          let (prev_log, _) = get_log_entry rf prev_index
          (entries_to_send, slice_ok) ← get_log_slices rf next_index (last_log.index + 1)
          some (
              if not slice_ok
              then nothing
              else append (record {
                term = rf.current_term;
                leader_id = rf.me;
                prev_log_index = prev_index;
                prev_log_term = prev_log.term;
                entries = entries_to_send;
                leader_commit = rf.commit_index;
              }))

  -- `for i := len(rf.Log) - 1; i >= 0; i--`, from the index `i` down: one past the last entry of the
  -- term, if there is one.
  unfoldable pub after_last_of_term : List (LogEntry C) → ℕ → ℕ → Option ℕ
  after_last_of_term log x_term zero = none
  after_last_of_term log x_term (suc i) =
      let rest = after_last_of_term log x_term i in
      if (get_or log i zero_entry).term == x_term
      then some ((get_or log i zero_entry).index + 1)
      else rest

  -- `NextIndex[server]` after a refusal.
  unfoldable pub back_off : Raft C → AppendEntriesReply → ℕ
  back_off rf reply =
      if reply.x_term == 0
      then reply.x_len
      else or_else (after_last_of_term rf.log reply.x_term (length rf.log)) reply.x_index

  -- `rf.NextIndex[server] = v`
  unfoldable pub set_next_index : Raft C → ℕ → ℕ → Option (Raft C)
  set_next_index rf server v =
      if ltb server (length rf.next_index)
      then some (record rf { next_index = set rf.next_index server v })
      else none

  -- The critical section of the goroutine after a reply has arrived.
  unfoldable pub handle_append_reply :
      Gob C → Raft C → ℕ → AppendEntriesArgs C → AppendEntriesReply → Option (Raft C)
  unfolding persist set_next_index
  handle_append_reply gob rf server args reply =
      if not (args.term == rf.current_term)
      then some rf
      else if ltb rf.current_term reply.term
      then some (
          persist gob
            (record rf { current_term = reply.term; state = follower; voted_for = not_voted }))
      else if reply.success
      then (do
        let new_match_index = args.prev_log_index + length args.entries
        next_index ← raise_to rf.next_index server (new_match_index + 1)
        match_index ← raise_to rf.match_index server new_match_index
        update_commit_index (record rf { next_index = next_index; match_index = match_index }))
      else set_next_index rf server (back_off rf reply)
