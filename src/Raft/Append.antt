-- ===== src/Raft/Append.antt =====
-- Replication, the follower's side: the handler `AppendEntries` and `checkLogConsistency`
-- (raft1/raft.go).
pub mod Safety
pub mod Splice
pub mod Runs
pub mod Handler
pub mod Refuses
pub mod Accepts
pub mod Overlay
use my.Prelude.{
  ℕ, zero, suc, ◌+◌, ◌-◌, Bool, true, false, not, ◌&&◌, Option, none, some, List, [], ◌∷◌, ◌++◌,
  ltb, leb, ◌==◌, if◌then◌else◌, ◌>>=◌, take, min,
}
use my.Raft.State.{
  Raft, LogEntry, Gob, Clock, State, follower, not_voted, reset_timer, persist, signal,
}
use my.Raft.Log.{get_last_log, get_log_entry, convert_to_physic_idx}

pub record AppendEntriesArgs (C : Type 0) : Type 0 where
  pub term : ℕ
  pub leader_id : ℕ
  pub prev_log_index : ℕ
  pub prev_log_term : ℕ
  pub entries : List (LogEntry C)
  pub leader_commit : ℕ

pub record AppendEntriesReply : Type 0 where
  pub term : ℕ
  pub success : Bool
  pub x_term : ℕ
  pub x_index : ℕ
  pub x_len : ℕ

-- The reply that the RPC layer hands to the handler.
abbrev pub zero_reply : AppendEntriesReply
zero_reply = record { term = 0; success = false; x_term = 0; x_index = 0; x_len = 0 }

module _ {C : Type 0} where
  -- `for firstIndex > rf.LastIncludedIndex { … firstIndex-- }`
  unfoldable pub first_index_of_term : Raft C → ℕ → ℕ → ℕ
  first_index_of_term rf x_term zero = zero
  first_index_of_term rf x_term (suc n) =
      let rest = first_index_of_term rf x_term n in
      let (prev_entry, found) = get_log_entry rf n in
      if ltb rf.last_included_index (suc n) && (found && (prev_entry.term == x_term))
      then rest
      else suc n

  unfoldable pub check_log_consistency :
      Raft C → AppendEntriesArgs C → AppendEntriesReply → Option (Bool × AppendEntriesReply)
  check_log_consistency rf args reply =
      if ltb args.prev_log_index rf.last_included_index
      then some (
        false,
        record reply {
          success = false;
          term = rf.current_term;
          x_len = rf.last_included_index + 1;
        },
      )
      else (let (prev_log, found) = get_log_entry rf args.prev_log_index in
          do
            last_log ← get_last_log rf
            if not found
                then some (
                  false,
                  record reply {
                    success = false;
                    x_index = 0;
                    x_term = 0;
                    x_len = last_log.index + 1;
                  },
                )
                else if not (prev_log.term == args.prev_log_term)
                then some (
                  false,
                  record reply {
                    success = false;
                    x_term = prev_log.term;
                    x_index = first_index_of_term rf prev_log.term prev_log.index;
                  },
                )
                else some (true, reply))

  -- The loop over `args.Entries`; `last_index` is `lastlog.Index` from before the loop.
  unfoldable pub merge_entries : Raft C → ℕ → List (LogEntry C) → List (LogEntry C)
  merge_entries rf last_index [] = rf.log
  merge_entries rf last_index (new_entry ∷ rest) =
      let merged = merge_entries rf last_index rest in
      if ltb last_index new_entry.index
      then rf.log ++ new_entry ∷ rest
      else (let (cur_entry, _) = get_log_entry rf new_entry.index in
          if not (cur_entry.term == new_entry.term)
          then take (convert_to_physic_idx rf cur_entry.index).0 rf.log ++ new_entry ∷ rest
          else merged)

  -- `if args.LeaderCommit > rf.CommitIndex { … }`
  unfoldable pub follow_commit : Raft C → ℕ → ℕ → Raft C
  follow_commit rf leader_commit last_index =
      if ltb rf.commit_index leader_commit
      then signal (record rf { commit_index = min leader_commit last_index })
      else rf

  -- Up to the consistency check: the term is adopted, the peer is a follower, the timer is reset.
  unfoldable pub accept_leader : Clock → Raft C → AppendEntriesArgs C → Raft C
  unfolding reset_timer
  accept_leader clock rf args =
      let rf' =
        if ltb rf.current_term args.term
        then record rf { current_term = args.term; voted_for = not_voted; state = follower }
        else rf in
      reset_timer clock (record rf' { state = follower })

  -- From the consistency check to the end of the handler.
  unfoldable pub append_checked :
      Raft C → AppendEntriesArgs C → AppendEntriesReply → Option (Raft C × AppendEntriesReply)
  unfolding follow_commit
  append_checked rf args reply = do
    (consistent, reply') ← check_log_consistency rf args reply
    if not consistent then some (rf, reply') else do
      last_log ← get_last_log rf
      let rf' = record rf { log = merge_entries rf last_log.index args.entries }
      last_log' ← get_last_log rf'
      some (follow_commit rf' args.leader_commit last_log'.index, record reply' { success = true })

  -- `defer rf.persist()` runs on every return.
  unfoldable pub append_entries :
      Gob C → Clock → Raft C → AppendEntriesArgs C → Option (Raft C × AppendEntriesReply)
  append_entries gob clock rf args =
      if ltb args.term rf.current_term
      then some (persist gob rf, record zero_reply { success = false; term = rf.current_term })
      else (let rf' = accept_leader clock rf args in
          do
            (rf'', reply) ← append_checked rf' args (record zero_reply { term = rf'.current_term })
            some (persist gob rf'', reply))
