-- ===== src/Raft/Append/Handler.antt =====
-- `AppendEntries` from a leader of a term that is not stale, whose previous entry the log has.
use my.Prelude.{◌+◌, ◌-◌, ◌≤◌, ◌≡◌, true, List, ◌∷◌, ◌++◌, arith, length, Returns, le→ltb}
use my.Raft.State.{Raft, LogEntry, Gob, Clock, follower, encode_raft_state, persist}
use my.Raft.Log.Indexed.{IsIndexed}
use my.Raft.Append.{
  AppendEntriesArgs, AppendEntriesReply, append_entries, accept_leader, follow_commit, zero_reply,
}
use my.Raft.Append.Overlay.{overlay}
use my.Raft.Append.Accepts.{AreNumbered, Matches, next_commit, append_checked-Matches}

module _ {C : Type 0} where
  module _ (clock : Clock) (rf : Raft C) (args : AppendEntriesArgs C) where
    pub accept_leader-log : (accept_leader clock rf args).log ≡ rf.log
    unfolding accept_leader
    accept_leader-log = ground arith

    pub accept_leader-base :
        (accept_leader clock rf args).last_included_index ≡ rf.last_included_index
    unfolding accept_leader
    accept_leader-base = ground arith

    pub accept_leader-commit : (accept_leader clock rf args).commit_index ≡ rf.commit_index
    unfolding accept_leader
    accept_leader-commit = ground arith

    pub accept_leader-term :
        rf.current_term ≤ args.term
        → ((accept_leader clock rf args).current_term ≡ args.term)
          × ((accept_leader clock rf args).state ≡ follower)
    unfolding accept_leader
    accept_leader-term h = ground arith

    pub accept_leader-IsIndexed : IsIndexed rf → IsIndexed (accept_leader clock rf args)
    accept_leader-IsIndexed i = record {
      nonempty = rw accept_leader-log i.nonempty;
      indexed = rw (accept_leader-log, accept_leader-base) i.indexed;
    }

    accept_leader-Matches :
        {pre : List (LogEntry C)} {c : LogEntry C} {local : List (LogEntry C)}
        → Matches rf args pre c local
        → Matches (accept_leader clock rf args) args pre c local
    accept_leader-Matches m = record {
      split = rw accept_leader-log m.split;
      place = rw accept_leader-base m.place;
      agree = m.agree;
    }

  -- The outcome of a call that was accepted, for the log that it leaves.
  pub record Accepted (gob : Gob C) (rf : Raft C) (args : AppendEntriesArgs C)
      (log' : List (LogEntry C)) (rf' : Raft C) (reply : AppendEntriesReply) : Type 0 where
    pub success : reply.success ≡ true
    pub reply_term : reply.term ≡ args.term
    pub log : rf'.log ≡ log'
    pub base : rf'.last_included_index ≡ rf.last_included_index
    pub commit : rf'.commit_index ≡ next_commit rf args.leader_commit log'
    pub term : rf'.current_term ≡ args.term
    pub state : rf'.state ≡ follower
    pub durable : rf'.persister.raftstate ≡ encode_raft_state gob rf'

  accepted :
      {gob : Gob C} {rf : Raft C} {args : AppendEntriesArgs C} {log' : List (LogEntry C)}
      (rf' : Raft C)
      → (rf'.current_term ≡ args.term) × (rf'.state ≡ follower)
      → rf'.last_included_index ≡ rf.last_included_index
      → rf'.commit_index ≡ rf.commit_index
      → Accepted gob rf args log'
          (persist gob (
            follow_commit
              (record rf' { log = log' })
              args.leader_commit
              (rf'.last_included_index + length log' - 1)))
          (record zero_reply { term = rf'.current_term; success = true })
  unfolding persist follow_commit encode_raft_state
  accepted rf' t b e = ground arith

  module _ (gob : Gob C) (clock : Clock) (rf : Raft C) (args : AppendEntriesArgs C)
      (pre : List (LogEntry C)) (c : LogEntry C) (local : List (LogEntry C))
      (current : rf.current_term ≤ args.term) (m : Matches rf args pre c local) (i : IsIndexed rf)
      (n : AreNumbered args) where
    -- The call is accepted: the log keeps what it has up to the previous entry, takes the new
    -- entries over the rest, and the commit index follows the leader's.
    pub append_entries-accepts :
        Returns
          (append_entries gob clock rf args)
          λ out. Accepted gob rf args (pre ++ c ∷ overlay local args.entries) out.0 out.1
    unfolding append_entries
    append_entries-accepts = rw (le→ltb args.term rf.current_term current) (
        rw
          (append_checked-Matches (accept_leader clock rf args) args pre c local
            (accept_leader-Matches clock rf args m) (accept_leader-IsIndexed clock rf args i) n _)
          (accepted (accept_leader clock rf args) (accept_leader-term clock rf args current)
            (accept_leader-base clock rf args) (accept_leader-commit clock rf args)))
