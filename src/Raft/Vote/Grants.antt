-- ===== src/Raft/Vote/Grants.antt =====
-- When `RequestVote` grants a vote, and what it leaves behind.
use my.Prelude.{◌≤◌, ◌<◌, ◌≡◌, ◌⊎◌, true, false, none, some, arith, Returns}
use my.Raft.State.{Raft, LogEntry, Gob, Clock, encode_raft_state}
use my.Raft.Log.{get_last_log}
use my.Raft.Vote.{RequestVoteArgs, request_vote}

module _ {C : Type 0} where
  -- The candidate's log is at least as up to date as one that ends in `last`.
  abbrev pub IsUpToDate : RequestVoteArgs → LogEntry C → Type 0
  IsUpToDate args last =
      (last.term < args.last_log_term)
      ⊎ ((last.term ≡ args.last_log_term) × (last.index ≤ args.last_log_index))

  -- The voter has not given its vote of the candidate's term to somebody else.
  abbrev pub IsFree : Raft C → RequestVoteArgs → Type 0
  IsFree rf args =
      (rf.current_term < args.term)
      ⊎ ((rf.current_term ≡ args.term)
          × ((rf.voted_for ≡ none) ⊎ (rf.voted_for ≡ some args.candidate_id)))

  pub record Granted (gob : Gob C) (rf : Raft C) (args : RequestVoteArgs) (rf' : Raft C)
      : Type 0 where
    pub term : rf'.current_term ≡ args.term
    pub vote : rf'.voted_for ≡ some args.candidate_id
    pub durable : rf'.persister.raftstate ≡ encode_raft_state gob rf'
    pub log : rf'.log ≡ rf.log

  -- A voter that has not given its vote of that term to another, asked by a candidate whose log is
  -- as up to date as its own, grants the vote, adopts the term, leaves its log alone and has the
  -- vote persisted.
  pub request_vote-grants :
      (gob : Gob C) (clock : Clock) (rf : Raft C) (args : RequestVoteArgs) (last : LogEntry C)
      → get_last_log rf ≡ some last
      → IsFree rf args
      → IsUpToDate args last
      → Returns
          (request_vote gob clock rf args)
          λ out. (out.1.vote_grabted ≡ true) × Granted gob rf args out.0
  unfolding request_vote get_last_log encode_raft_state
  request_vote-grants gob clock rf args last e f u = ground arith

  -- A voter that has voted for another in that term, or is in a newer term, or whose log is more
  -- up to date, refuses and leaves its log alone; it keeps its term and its vote, or moves to a
  -- newer term without a vote.
  pub request_vote-refuses :
      (gob : Gob C) (clock : Clock) (rf : Raft C) (args : RequestVoteArgs) (last : LogEntry C)
      → get_last_log rf ≡ some last
      → ¬ (IsFree rf args × IsUpToDate args last)
      → Returns (request_vote gob clock rf args) λ out.
        (out.1.vote_grabted ≡ false)
        × (out.0.log ≡ rf.log)
        × (rf.current_term ≤ out.0.current_term)
        × ((out.0.current_term ≡ rf.current_term × (out.0.voted_for ≡ rf.voted_for))
            ⊎ (rf.current_term < out.0.current_term × (out.0.voted_for ≡ none)))
  unfolding request_vote get_last_log encode_raft_state
  request_vote-refuses gob clock rf args last e n = ground arith
