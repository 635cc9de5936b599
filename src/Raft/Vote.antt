-- ===== src/Raft/Vote.antt =====
-- Elections: the handler `RequestVote`, `AttemptElection` with the goroutine that takes each reply,
-- and `BecomeLeader` (raft1/raft.go).
pub mod Grants
use my.Prelude.{
  ℕ, zero, suc, ◌+◌, Bool, true, false, not, ◌&&◌, ◌||◌, Option, none, some, List, [], ◌∷◌, ltb,
  leb, ◌==◌, if◌then◌else◌, ◌>>=◌,
}
use my.Raft.State.{
  Raft, Gob, Clock, State, candidate, follower, leader, is_candidate, not_voted, reset_timer,
  persist,
}
use my.Raft.Log.{get_last_log}

pub record RequestVoteArgs : Type 0 where
  pub term : ℕ
  pub candidate_id : ℕ
  pub last_log_index : ℕ
  pub last_log_term : ℕ

pub record RequestVoteReply : Type 0 where
  pub term : ℕ
  pub vote_grabted : Bool

-- `(rf.VotedFor != NotVoted) && (rf.VotedFor != args.CandidateID)`
abbrev pub voted_for_other : Option ℕ → ℕ → Bool
voted_for_other none candidate_id = false
voted_for_other (some v) candidate_id = not (v == candidate_id)

-- The loop `for i := range rf.peers { a[i] = v }`, which panics if `a` is too short.
unfoldable pub fill : ℕ → ℕ → List ℕ → Option (List ℕ)
fill zero v a = some a
fill (suc n) v [] = none
fill (suc n) v (x ∷ a) = do rest ← fill n v a; some (v ∷ rest)

module _ {C : Type 0} where
  -- A newer term clears the vote, and is persisted before the vote is considered.
  unfoldable pub adopt_term : Gob C → Raft C → RequestVoteArgs → Raft C
  unfolding persist
  adopt_term gob rf args =
      if ltb rf.current_term args.term
      then persist gob
          (record rf { current_term = args.term; voted_for = not_voted; state = follower })
      else rf

  unfoldable pub request_vote :
      Gob C → Clock → Raft C → RequestVoteArgs → Option (Raft C × RequestVoteReply)
  unfolding adopt_term persist reset_timer
  request_vote gob clock rf args =
      if ltb args.term rf.current_term
      then some (rf, record { term = rf.current_term; vote_grabted = false })
      else (let rf' = adopt_term gob rf args in
          let refused : RequestVoteReply = record {
            term = rf'.current_term;
            vote_grabted = false;
          } in
          if voted_for_other rf'.voted_for args.candidate_id then some (rf', refused) else do
            last_log ← get_last_log rf'
            if ltb args.last_log_term last_log.term
                  || (args.last_log_term == last_log.term && ltb args.last_log_index last_log.index)
                then some (rf', refused)
                else some (
                  reset_timer clock
                      (persist gob (record rf' { voted_for = some args.candidate_id })),
                  record { term = rf'.current_term; vote_grabted = true },
                ))

  -- The first critical section of `AttemptElection`; the arguments go to every other peer.
  unfoldable pub attempt_election : Gob C → Clock → Raft C → Option (Raft C × RequestVoteArgs)
  unfolding persist reset_timer
  attempt_election gob clock rf =
      let rf' = record rf {
        state = candidate;
        current_term = rf.current_term + 1;
        voted_for = some rf.me;
      } in
      do
        last_log ← get_last_log rf'
        some (
          persist gob (reset_timer clock rf'),
          record {
            term = rf'.current_term;
            candidate_id = rf.me;
            last_log_index = last_log.index;
            last_log_term = last_log.term;
          },
        )

  unfoldable pub become_leader : Raft C → Option (Raft C)
  become_leader rf = do
    last_log ← get_last_log rf
    next_index ← fill rf.peers (last_log.index + 1) rf.next_index
    match_index ← fill rf.peers 0 rf.match_index
    some (record rf { state = leader; next_index = next_index; match_index = match_index })

  -- What a goroutine of `AttemptElection` does with a reply that arrived. `vote_sum` is the counter
  -- that the goroutines of one election share; the last result says whether to broadcast.
  unfoldable pub handle_vote_reply :
      Gob C → Raft C → ℕ → RequestVoteArgs → RequestVoteReply → Option (Raft C × ℕ × Bool)
  unfolding persist
  handle_vote_reply gob rf vote_sum args reply =
      if not (is_candidate rf.state) || not (rf.current_term == args.term)
      then some (rf, vote_sum, false)
      else if ltb rf.current_term reply.term
      then some
          (persist gob (record rf { state = follower; current_term = reply.term }), vote_sum, false)
      else if reply.vote_grabted
      then (if leb rf.majority (vote_sum + 1) && is_candidate rf.state
          then (do rf' ← become_leader rf; some (rf', vote_sum + 1, true))
          else some (rf, vote_sum + 1, false))
      else some (rf, vote_sum, false)
