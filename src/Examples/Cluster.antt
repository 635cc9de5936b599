-- ===== src/Examples/Cluster.antt =====
-- An election of raft1/raft.go among three peers.
use my.Prelude.{ℕ, ◌≡◌, refl, inl, true, some, [], ◌∷◌, arith, ◌==◌}
use my.Prelude.Maps.{empty, insert, nat_eq}
use my.Raft.State.{Raft, leader, candidate, make_persister, persist, reset_timer, encode_raft_state}
use my.Raft.Log.{get_last_log}
use my.Raft.Vote.{
  RequestVoteArgs, RequestVoteReply, fill, adopt_term, request_vote, attempt_election,
  become_leader, handle_vote_reply,
}
use my.Raft.Startup.{fresh, make, read_persist}
use my.Raft.Cluster.{
  Cluster, Election, update, vote_of, IsInitial, Reach, here, later, began, asked, answered,
}
use my.Raft.Cluster.Leaders.{leader_of_term}
use my.Examples.Codec.{encode_log, gob, gob-IsRoundTrip}
use my.Examples.Peers.{clock}

abbrev pub new_peer : ℕ → Raft ℕ
new_peer i = reset_timer clock (fresh 3 i make_persister)

abbrev pub start_cluster : Cluster ℕ
start_cluster = record { peers = new_peer; sent = []; elections = empty; votes = [] }

pub start_cluster-IsInitial : IsInitial gob 3 start_cluster
unfolding make read_persist make_persister reset_timer
start_cluster-IsInitial = record {
  made = λ i. (clock, refl);
  sent = refl;
  elections = λ k. refl;
  votes = refl;
}

abbrev pub args : RequestVoteArgs
args = record { term = 1; candidate_id = 0; last_log_index = 0; last_log_term = 0 }

abbrev pub granted : RequestVoteReply
granted = record { term = 1; vote_grabted = true }

abbrev pub candidate_peer : Raft ℕ
candidate_peer = persist gob (
    reset_timer clock
      (record (new_peer 0) { state = candidate; current_term = 1; voted_for = some 0 }))

pub begins : attempt_election gob clock (new_peer 0) ≡ some (candidate_peer, args)
unfolding attempt_election get_last_log persist reset_timer encode_raft_state encode_log
begins = refl

abbrev pub voter_peer : Raft ℕ
voter_peer = reset_timer clock (
    persist gob
      (record (persist gob (record (new_peer 1) { current_term = 1 })) { voted_for = some 0 }))

pub grants : request_vote gob clock (new_peer 1) args ≡ some (voter_peer, granted)
unfolding request_vote adopt_term get_last_log persist reset_timer encode_raft_state encode_log
grants = refl

abbrev pub leader_peer : Raft ℕ
leader_peer = record candidate_peer {
  state = leader;
  next_index = 1 ∷ 1 ∷ 1 ∷ [];
  match_index = 0 ∷ 0 ∷ 0 ∷ [];
}

pub wins : handle_vote_reply gob candidate_peer 1 args granted ≡ some (leader_peer, 2, true)
unfolding handle_vote_reply become_leader fill get_last_log persist reset_timer
wins = refl

abbrev pub election : Election
election = record { candidate = 0; args = args; vote_sum = 1; ended = λ j. 0 == j }

-- Peer 0 begins an election, peer 1 votes for it, and its reply makes peer 0 the leader.
abbrev pub won_cluster : Cluster ℕ
won_cluster = record {
  peers = update (update (update new_peer 0 candidate_peer) 1 voter_peer) 0 leader_peer;
  sent = record { voter = 1; args = args; reply = granted } ∷ [];
  elections =
      insert 0 (record election { vote_sum = 2; ended = update election.ended 1 true })
        (insert 0 election empty);
  votes = vote_of 1 args ∷ vote_of 0 args ∷ [];
}

elects : Reach gob 3 start_cluster won_cluster
elects =
    later
      (later (later here (began 0 0 clock args candidate_peer (omega arith) refl begins))
        (asked 1 clock args granted voter_peer (omega arith) grants))
      (answered 0 1 election granted leader_peer 2 true (omega arith) (omega arith) refl refl
        (inl refl) wins)

leader_of_term_example : ◌≡◌ {A = ℕ} 0 0
leader_of_term_example =
    leader_of_term gob 3 start_cluster won_cluster 0 0 gob-IsRoundTrip start_cluster-IsInitial
      elects (omega arith) (omega arith) refl refl refl
