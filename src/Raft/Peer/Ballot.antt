-- ===== src/Raft/Peer/Ballot.antt =====
-- The term and the vote of a peer, in memory and in its persister, through every step.
use my.Prelude.{
  ℕ, zero, suc, ◌+◌, ◌-◌, ◌≤◌, ◌<◌, ◌≡◌, ◌⊎◌, inl, inr, Bool, Option, none, some, arith, length,
  Option-cases,
}
use my.Raft.State.{Raft, Bytes, Gob, Clock, encode_raft_state, persist}
use my.Raft.Log.{get_last_log}
use my.Raft.Vote.{
  RequestVoteArgs, RequestVoteReply, request_vote, attempt_election, handle_vote_reply,
  become_leader,
}
use my.Raft.Append.{
  AppendEntriesArgs, AppendEntriesReply, zero_reply, append_entries, accept_leader, append_checked,
}
use my.Raft.Commit.{commit_at, commit_loop, update_commit_index}
use my.Raft.Snapshots.{
  raise_to, InstallSnapshotArgs, InstallSnapshotReply, snapshot_at, install_snap_shot,
  send_snap_shot_begin, send_snap_shot_end,
}
use my.Raft.Replicate.{Started, start, handle_append_reply}
use my.Raft.Applier.{Applying, applier_begin, applier_woken, applier_end, kill}

-- A later ballot: of a newer term, or of the same term with the vote, once given, kept.
abbrev pub IsLater : ℕ → Option ℕ → ℕ → Option ℕ → Type 0
IsLater t v t' v' = (t < t') ⊎ ((t ≡ t') × ((v ≡ none) ⊎ (v' ≡ v)))

pub IsLater-trans :
    (t : ℕ) (v : Option ℕ) (t' : ℕ) (v' : Option ℕ) (t'' : ℕ) (v'' : Option ℕ)
    → IsLater t v t' v'
    → IsLater t' v' t'' v''
    → IsLater t v t'' v''
IsLater-trans t v t' v' t'' v'' h k = ground arith

module _ {C : Type 0} where
  -- What a step does to the ballot: it is later, and it was persisted, or the persister is as it
  -- was and the ballot is the same or empty and of a newer term.
  pub record Effect (gob : Gob C) (rf rf' : Raft C) : Type 0 where
    pub later : IsLater rf.current_term rf.voted_for rf'.current_term rf'.voted_for
    pub saved :
        (rf'.persister.raftstate ≡ encode_raft_state gob rf')
        ⊎ ((rf'.persister.raftstate ≡ rf.persister.raftstate)
            × (((rf'.current_term ≡ rf.current_term) × (rf'.voted_for ≡ rf.voted_for))
                ⊎ ((rf.current_term < rf'.current_term) × (rf'.voted_for ≡ none))))

  -- The steps that leave the ballot and the persister alone.
  abbrev pub IsQuiet : Raft C → Raft C → Type 0
  IsQuiet rf rf' =
      (rf'.current_term ≡ rf.current_term)
      × (rf'.voted_for ≡ rf.voted_for)
      × (rf'.persister ≡ rf.persister)

  commit_at-IsQuiet :
      (rf : Raft C) (n : ℕ) (rf' : Raft C) → commit_at rf n ≡ some rf' → IsQuiet rf rf'
  unfolding commit_at
  commit_at-IsQuiet rf n rf' h = ground arith

  commit_loop-IsQuiet :
      (rounds n : ℕ) (rf : Raft C) (rf' : Raft C)
      → commit_loop rounds n rf ≡ some rf'
      → IsQuiet rf rf'
  unfolding commit_loop
  commit_loop-IsQuiet zero n rf rf' h = ground arith
  commit_loop-IsQuiet (suc rounds) n rf rf' h = elim (Option-cases (commit_at rf n)) [
    | inl e ↦ ground (arith, e)
    | inr (rf₁, e) ↦
        ground (arith, e, commit_at-IsQuiet rf n rf₁ e, commit_loop-IsQuiet rounds (n + 1) rf₁ rf')
  ]

  update_commit_index-IsQuiet :
      (rf : Raft C) (rf' : Raft C) → update_commit_index rf ≡ some rf' → IsQuiet rf rf'
  unfolding update_commit_index
  update_commit_index-IsQuiet rf rf' h = elim (Option-cases (get_last_log rf)) [
    | inl e ↦ ground (arith, e)
    | inr (last, e) ↦ ground (
      arith,
      e,
      commit_loop-IsQuiet (last.index + 1 - (rf.commit_index + 1)) (rf.commit_index + 1) rf rf',
    )
  ]

  accept_leader-IsLater :
      (clock : Clock) (rf : Raft C) (args : AppendEntriesArgs C)
      → let rf' = accept_leader clock rf args in
        (rf'.persister ≡ rf.persister)
        × (rf.current_term ≤ args.term
            → IsLater rf.current_term rf.voted_for rf'.current_term rf'.voted_for)
  unfolding accept_leader
  accept_leader-IsLater clock rf args = ground arith

  append_checked-IsQuiet :
      (rf : Raft C) (args : AppendEntriesArgs C) (r : AppendEntriesReply) (rf' : Raft C)
      (r' : AppendEntriesReply)
      → append_checked rf args r ≡ some (rf', r')
      → IsQuiet rf rf'
  unfolding append_checked
  append_checked-IsQuiet rf args r rf' r' h = ground arith

  module _ (gob : Gob C) (rf : Raft C) {rf' : Raft C} where
    pub request_vote-Effect :
        (clock : Clock) (args : RequestVoteArgs) (reply : RequestVoteReply)
        → request_vote gob clock rf args ≡ some (rf', reply)
        → Effect gob rf rf'
    unfolding request_vote encode_raft_state
    request_vote-Effect clock args reply h = ground arith

    pub attempt_election-Effect :
        (clock : Clock) (args : RequestVoteArgs)
        → attempt_election gob clock rf ≡ some (rf', args)
        → Effect gob rf rf'
    unfolding attempt_election encode_raft_state
    attempt_election-Effect clock args h = ground arith

    pub handle_vote_reply-Effect :
        (vote_sum : ℕ) (args : RequestVoteArgs) (reply : RequestVoteReply) (vote_sum' : ℕ)
        (won : Bool)
        → handle_vote_reply gob rf vote_sum args reply ≡ some (rf', vote_sum', won)
        → Effect gob rf rf'
    unfolding handle_vote_reply become_leader encode_raft_state
    handle_vote_reply-Effect vote_sum args reply vote_sum' won h = ground arith

    pub append_entries-Effect :
        (clock : Clock) (args : AppendEntriesArgs C) (reply : AppendEntriesReply)
        → append_entries gob clock rf args ≡ some (rf', reply)
        → Effect gob rf rf'
    unfolding append_entries persist encode_raft_state
    append_entries-Effect clock args reply h =
        let rf₁ = accept_leader clock rf args in
        let r : AppendEntriesReply = record zero_reply { term = rf₁.current_term } in
        elim (Option-cases (append_checked rf₁ args r)) [
          | inl e ↦ ground (arith, e)
          | inr ((rf₂, r₂), e) ↦ ground (
            arith,
            e,
            accept_leader-IsLater clock rf args,
            append_checked-IsQuiet rf₁ args r rf₂ r₂,
          )
        ]

    pub handle_append_reply-Effect :
        (server : ℕ) (args : AppendEntriesArgs C) (reply : AppendEntriesReply)
        → handle_append_reply gob rf server args reply ≡ some rf'
        → Effect gob rf rf'
    unfolding handle_append_reply encode_raft_state
    handle_append_reply-Effect server args reply h =
        let v : ℕ = args.prev_log_index + length args.entries in
        elim (Option-cases (raise_to rf.next_index server (v + 1))) [
          | inl e ↦ ground (arith, e)
          | inr (a, e) ↦ elim (Option-cases (raise_to rf.match_index server v)) [
            | inl d ↦ ground (arith, e, d)
            | inr (b, d) ↦ ground (
              arith,
              e,
              d,
              update_commit_index-IsQuiet (record rf { next_index = a; match_index = b }) rf',
            )
          ]
        ]

    pub send_snap_shot_end-Effect :
        (server : ℕ) (args : InstallSnapshotArgs) (reply : InstallSnapshotReply)
        → send_snap_shot_end gob rf server args reply ≡ some rf'
        → Effect gob rf rf'
    unfolding send_snap_shot_end encode_raft_state
    send_snap_shot_end-Effect server args reply h =
        let v : ℕ = args.last_included_index in
        elim (Option-cases (raise_to rf.match_index server v)) [
          | inl e ↦ ground (arith, e)
          | inr (a, e) ↦ elim (Option-cases (raise_to rf.next_index server (v + 1))) [
            | inl d ↦ ground (arith, e, d)
            | inr (b, d) ↦ ground (
              arith,
              e,
              d,
              update_commit_index-IsQuiet (record rf { match_index = a; next_index = b }) rf',
            )
          ]
        ]

    pub start-Effect :
        (command : C) (r : Started) → start gob rf command ≡ some (rf', r) → Effect gob rf rf'
    unfolding start encode_raft_state
    start-Effect command r h = ground arith

    pub snapshot_at-Effect :
        (index : ℕ) (bytes : Bytes) → snapshot_at gob rf index bytes ≡ rf' → Effect gob rf rf'
    unfolding snapshot_at encode_raft_state
    snapshot_at-Effect index bytes h = ground arith

    pub install_snap_shot-Effect :
        (clock : Clock) (args : InstallSnapshotArgs) (reply : InstallSnapshotReply)
        → install_snap_shot gob clock rf args ≡ (rf', reply)
        → Effect gob rf rf'
    unfolding install_snap_shot encode_raft_state
    install_snap_shot-Effect clock args reply h = ground arith

    pub IsQuiet-Effect : IsQuiet rf rf' → Effect gob rf rf'
    IsQuiet-Effect q = ground arith

    pub send_snap_shot_begin-IsQuiet :
        (go : Bool) → send_snap_shot_begin rf ≡ (rf', go) → IsQuiet rf rf'
    unfolding send_snap_shot_begin
    send_snap_shot_begin-IsQuiet go h = ground arith

    pub applier_woken-IsQuiet :
        (next : Applying C) → applier_woken rf ≡ some (rf', next) → IsQuiet rf rf'
    unfolding applier_woken
    applier_woken-IsQuiet next h = ground arith

    pub applier_begin-IsQuiet :
        (next : Applying C) → applier_begin rf ≡ some (rf', next) → IsQuiet rf rf'
    unfolding applier_begin applier_woken
    applier_begin-IsQuiet next h = ground arith

    pub applier_end-IsQuiet : (applied : ℕ) → applier_end rf applied ≡ rf' → IsQuiet rf rf'
    unfolding applier_end
    applier_end-IsQuiet applied h = ground arith

    pub kill-IsQuiet : kill rf ≡ rf' → IsQuiet rf rf'
    unfolding kill
    kill-IsQuiet h = ground arith
