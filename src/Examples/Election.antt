-- ===== src/Examples/Election.antt =====
-- `RequestVote` and the steps of a peer of raft1/raft.go at concrete requests.
use my.Prelude.{ℕ, ◌≡◌, refl, inl, true, some, Returns}
use my.Raft.State.{Raft, encode_raft_state, persist, reset_timer}
use my.Raft.Log.{get_last_log}
use my.Raft.Vote.{RequestVoteArgs, RequestVoteReply, request_vote, adopt_term}
use my.Raft.Peer.{vote, restart, here, next}
use my.Raft.Peer.Votes.{IsDurable, IsLaterStored, stored, votes_once, Step-IsDurable}
use my.Raft.Startup.{make, read_persist, fresh}
use my.Raft.Startup.Recovery.{IsRestarted, make-persist}
use my.Examples.Codec.{encode_log, decode_log, gob, gob-IsRoundTrip}
use my.Examples.Peers.{clock, follower_peer}

abbrev request : RequestVoteArgs
request = record { term = 3; candidate_id = 2; last_log_index = 2; last_log_term = 2 }

-- The follower after its vote, and after a restart.
abbrev stored_peer : Raft ℕ
stored_peer = persist gob follower_peer

abbrev after_vote : Raft ℕ
after_vote =
    reset_timer clock (persist gob (record follower_peer { current_term = 3; voted_for = some 2 }))

abbrev granted : RequestVoteReply
granted = record { term = 3; vote_grabted = true }

voted : request_vote gob clock stored_peer request ≡ some (after_vote, granted)
unfolding request_vote adopt_term get_last_log persist reset_timer encode_raft_state
voted = refl

stored_peer-IsDurable : IsDurable gob stored_peer
unfolding stored persist encode_raft_state encode_log
stored_peer-IsDurable = inl (refl, refl)

Step-IsDurable_example : IsDurable gob after_vote × IsLaterStored gob stored_peer after_vote
Step-IsDurable_example =
    Step-IsDurable gob gob-IsRoundTrip (vote clock request granted voted) stored_peer-IsDurable

make-persist_example :
    Returns
      (make gob clock after_vote.peers after_vote.me (persist gob after_vote).persister)
      (IsRestarted after_vote)
make-persist_example = make-persist gob clock after_vote gob-IsRoundTrip

abbrev restarted_peer : Raft ℕ
restarted_peer = reset_timer clock (record (fresh 3 1 after_vote.persister) {
  current_term = 3;
  voted_for = some 2;
  log = follower_peer.log;
})

restarted : make gob clock after_vote.peers after_vote.me after_vote.persister ≡ some restarted_peer
unfolding make read_persist persist reset_timer encode_raft_state encode_log decode_log
restarted = refl

abbrev voted_again_peer : Raft ℕ
voted_again_peer = reset_timer clock (persist gob restarted_peer)

voted_again : request_vote gob clock restarted_peer request ≡ some (voted_again_peer, granted)
unfolding request_vote adopt_term get_last_log persist reset_timer encode_raft_state encode_log
voted_again = refl

votes_once_example : request.candidate_id ≡ request.candidate_id
votes_once_example =
    votes_once gob gob-IsRoundTrip stored_peer after_vote restarted_peer voted_again_peer clock
      clock request request granted granted stored_peer-IsDurable voted
      (next here (restart clock restarted)) voted_again refl refl refl
