-- ===== src/Examples/Matching.antt =====
-- A command that a leader of raft1/raft.go replicates to one of its two followers.
use my.Prelude.{ℕ, ◌≡◌, refl, inl, true, none, some, [], ◌∷◌, take, arith}
use my.Prelude.Maps.{insert, nat_eq}
use my.Raft.State.{Raft, LogEntry, zero_entry, follower, persist, reset_timer, encode_raft_state}
use my.Raft.Log.{get_last_log, get_log_entry, get_log_slices}
use my.Raft.Append.{
  AppendEntriesArgs, AppendEntriesReply, append_entries, accept_leader, append_checked,
  check_log_consistency, merge_entries, follow_commit,
}
use my.Raft.Replicate.{start, prepare, append}
use my.Raft.Peer.{Step}
use my.Raft.Peer
use my.Raft.Cluster.{update, began, asked, answered, apart}
use my.Raft.Matching.{Group, IsNew, Run, still, onward, turn, sent}
use my.Raft.Matching.Agreement.{logs_match, leader_has}
use my.Examples.Codec.{encode_log, gob, gob-IsRoundTrip}
use my.Examples.Peers.{clock}
use my.Examples.Cluster.{
  start_cluster, args, granted, candidate_peer, voter_peer, leader_peer, election, won_cluster,
  start_cluster-IsInitial, begins, grants, wins,
}

abbrev start_group : Group ℕ
start_group = record {
  cluster = start_cluster;
  calls = [];
  led = insert 0 (zero_entry ∷ []) (λ _. none);
}

start_group-IsNew : IsNew gob 3 start_group
start_group-IsNew = record { initial = start_cluster-IsInitial; calls = refl; led = refl }

abbrev entry : LogEntry ℕ
entry = record { command = some 7; term = 1; index = 1 }

abbrev writing_peer : Raft ℕ
writing_peer = persist gob (record leader_peer { log = zero_entry ∷ entry ∷ [] })

starts : start gob leader_peer 7 ≡ some (writing_peer, some (1, 1))
unfolding start get_last_log persist encode_raft_state encode_log reset_timer
starts = refl

abbrev call : AppendEntriesArgs ℕ
call = record {
  term = 1;
  leader_id = 0;
  prev_log_index = 0;
  prev_log_term = 0;
  entries = entry ∷ [];
  leader_commit = 0;
}

prepares : prepare writing_peer 1 ≡ some (append call)
unfolding prepare get_last_log get_log_entry get_log_slices persist reset_timer
prepares = refl

abbrev copying_peer : Raft ℕ
copying_peer = persist gob (record (reset_timer clock (record voter_peer { state = follower })) {
  log = zero_entry ∷ entry ∷ [];
})

abbrev accepted : AppendEntriesReply
accepted = record { term = 1; success = true; x_term = 0; x_index = 0; x_len = 0 }

copies : append_entries gob clock voter_peer call ≡ some (copying_peer, accepted)
unfolding append_entries accept_leader append_checked check_log_consistency merge_entries
    follow_commit get_last_log get_log_entry persist reset_timer encode_raft_state encode_log
copies = refl

-- Peer 0 wins its election, takes the command 7, and sends it to peer 1, which takes it over.
abbrev written : Group ℕ
written = record {
  cluster = record won_cluster {
    peers = update (update won_cluster.peers 0 writing_peer) 1 copying_peer;
  };
  calls = call ∷ [];
  led = insert 1 writing_peer.log (insert 1 leader_peer.log start_group.led);
}

replicates : Run gob 3 start_group written
unfolding persist reset_timer
replicates =
    onward
      (onward
        (onward
          (onward
            (onward
              (onward still
                (turn _ (began 0 0 clock args candidate_peer (omega arith) refl begins) tt))
              (turn _ (asked 1 clock args granted voter_peer (omega arith) grants) tt))
            (turn _
              (answered 0 1 election granted leader_peer 2 true (omega arith) (omega arith) refl
                refl (inl refl) wins)
              tt))
          (turn _ (apart 0 writing_peer (omega arith) (Peer.started 7 _ starts) tt) tt))
        (sent 0 1 call (omega arith) (λ e. absurd (omega arith)) prepares))
      (turn _ (apart 1 copying_peer (omega arith) (Peer.append clock call accepted copies) tt)
        (inl refl))

logs_match_example : take 2 (written.cluster.peers 0).log ≡ take 2 (written.cluster.peers 1).log
unfolding persist reset_timer
logs_match_example =
    logs_match gob 3 start_group written 0 1 1 gob-IsRoundTrip start_group-IsNew replicates
      (omega arith) (omega arith) (omega arith) (omega arith) refl

leader_has_example : take 2 (written.cluster.peers 1).log ≡ take 2 (written.cluster.peers 0).log
unfolding persist reset_timer
leader_has_example =
    leader_has gob 3 start_group written 1 0 1 gob-IsRoundTrip start_group-IsNew replicates
      (omega arith) (omega arith) refl (omega arith) refl
