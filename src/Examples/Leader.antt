-- ===== src/Examples/Leader.antt =====
-- What a leader of raft1/raft.go sends and how it takes the replies, at concrete peers.
use my.Prelude.{ℕ, ◌≡◌, refl, true, [], ◌∷◌, arith, Returns}
use my.Raft.Append.{AppendEntriesArgs, AppendEntriesReply, zero_reply}
use my.Raft.Commit.{update_commit_index}
use my.Raft.Commit.Majority.{IsLastCommittable, update_commit_index-IsLast}
use my.Raft.Replicate.{handle_append_reply}
use my.Raft.Replicate.Replies.{Progress, handle_append_reply-Progress}
use my.Examples.Codec.{gob}
use my.Examples.Peers.{entry, leader_peer, leader_peer-IsIndexed}

-- What the leader sends to peer 1.
abbrev broadcast : AppendEntriesArgs ℕ
broadcast = record {
  term = 3;
  leader_id = 0;
  prev_log_index = 1;
  prev_log_term = 1;
  entries = entry 1 2 ∷ entry 3 3 ∷ [];
  leader_commit = 0;
}

abbrev accepted : AppendEntriesReply
accepted = record zero_reply { term = 3; success = true }

update_commit_index-IsLast_example : Returns (update_commit_index leader_peer) λ rf'.
    IsLastCommittable leader_peer 1 4 0 rf'.commit_index
    × (rf'.log ≡ leader_peer.log)
    × (rf'.last_included_index ≡ 0)
    × (rf'.match_index ≡ leader_peer.match_index)
    × (rf'.next_index ≡ leader_peer.next_index)
update_commit_index-IsLast_example =
    update_commit_index-IsLast leader_peer leader_peer-IsIndexed (omega arith)

handle_append_reply-Progress_example :
    Returns
      (handle_append_reply gob leader_peer 1 broadcast accepted)
      λ rf'. Progress leader_peer 1 3 rf'
handle_append_reply-Progress_example =
    handle_append_reply-Progress gob leader_peer 1 broadcast accepted leader_peer-IsIndexed
      (omega arith) (omega arith) (omega arith) refl (omega arith) refl
