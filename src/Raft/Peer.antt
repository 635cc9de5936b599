-- ===== src/Raft/Peer.antt =====
-- The life of one peer: every handler, every critical section of its goroutines, and a restart from
-- what was persisted, as one step relation (raft1/raft.go).
pub mod Ballot
pub mod Votes
use my.Prelude.{ℕ, ◌≡◌, Bool, Option, some}
use my.Raft.State.{Raft, Bytes, Gob, Clock}
use my.Raft.Vote.{
  RequestVoteArgs, RequestVoteReply, request_vote, attempt_election, handle_vote_reply,
}
use my.Raft.Append.{AppendEntriesArgs, AppendEntriesReply, append_entries}
use my.Raft.Snapshots.{
  InstallSnapshotArgs, InstallSnapshotReply, snapshot_at, install_snap_shot, send_snap_shot_begin,
  send_snap_shot_end,
}
use my.Raft.Replicate.{Started, start, handle_append_reply}
use my.Raft.Applier.{Applying, applier_begin, applier_woken, applier_end, kill}
use my.Raft.Startup.{make}

module _ {C : Type 0} (gob : Gob C) where
  pub data Step (rf rf' : Raft C) : Type 0 where
    vote :
        (clock : Clock) (args : RequestVoteArgs) (reply : RequestVoteReply)
        → request_vote gob clock rf args ≡ some (rf', reply)
        → Step rf rf'
    elect :
        (clock : Clock) (args : RequestVoteArgs)
        → attempt_election gob clock rf ≡ some (rf', args)
        → Step rf rf'
    voted :
        (vote_sum : ℕ) (args : RequestVoteArgs) (reply : RequestVoteReply) (vote_sum' : ℕ)
        (won : Bool)
        → handle_vote_reply gob rf vote_sum args reply ≡ some (rf', vote_sum', won)
        → Step rf rf'
    append :
        (clock : Clock) (args : AppendEntriesArgs C) (reply : AppendEntriesReply)
        → append_entries gob clock rf args ≡ some (rf', reply)
        → Step rf rf'
    appended :
        (server : ℕ) (args : AppendEntriesArgs C) (reply : AppendEntriesReply)
        → handle_append_reply gob rf server args reply ≡ some rf'
        → Step rf rf'
    started : (command : C) (r : Started) → start gob rf command ≡ some (rf', r) → Step rf rf'
    snapshot : (index : ℕ) (bytes : Bytes) → snapshot_at gob rf index bytes ≡ rf' → Step rf rf'
    install :
        (clock : Clock) (args : InstallSnapshotArgs) (reply : InstallSnapshotReply)
        → install_snap_shot gob clock rf args ≡ (rf', reply)
        → Step rf rf'
    send_begin : (go : Bool) → send_snap_shot_begin rf ≡ (rf', go) → Step rf rf'
    send_end :
        (server : ℕ) (args : InstallSnapshotArgs) (reply : InstallSnapshotReply)
        → send_snap_shot_end gob rf server args reply ≡ some rf'
        → Step rf rf'
    apply_begin : (next : Applying C) → applier_begin rf ≡ some (rf', next) → Step rf rf'
    apply_woken : (next : Applying C) → applier_woken rf ≡ some (rf', next) → Step rf rf'
    apply_end : (applied : ℕ) → applier_end rf applied ≡ rf' → Step rf rf'
    killed : kill rf ≡ rf' → Step rf rf'
    restart : (clock : Clock) → make gob clock rf.peers rf.me rf.persister ≡ some rf' → Step rf rf'

  pub data Reach (rf : Raft C) : Raft C → Type 0 where
    here : Reach rf rf
    next : {rf' rf'' : Raft C} → Reach rf rf' → Step rf' rf'' → Reach rf rf''
