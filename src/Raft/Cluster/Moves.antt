-- ===== src/Raft/Cluster/Moves.antt =====
-- What each step of a peer leaves alone: its place in the group, and that it leads, if it does, by the
-- same election (raft1/raft.go).
use my.Prelude.{
  ℕ, zero, suc, ◌+◌, ◌-◌, ◌/◌, ◌≡◌, ◌⊎◌, inl, inr, Bool, false, some, arith, length, Option-cases,
}
use my.Raft.State.{Raft, is_leader, Bytes, Gob, Clock, persist}
use my.Raft.Log.{get_last_log}
use my.Raft.Vote.{RequestVoteArgs, RequestVoteReply, request_vote, attempt_election}
use my.Raft.Append.{
  AppendEntriesArgs, AppendEntriesReply, zero_reply, append_entries, accept_leader, append_checked,
}
use my.Raft.Commit.{commit_at, commit_loop, update_commit_index}
use my.Raft.Snapshots.{
  raise_to, InstallSnapshotArgs, InstallSnapshotReply, snapshot_at, install_snap_shot,
  send_snap_shot_begin, send_snap_shot_end,
}
use my.Raft.Replicate.{Started, start, handle_append_reply}
use my.Raft.Applier.{Applying, applier_begin, applier_woken, applier_end, kill}
use my.Raft.Startup.{make}
use my.Raft.Peer.{
  Step, vote, elect, voted, append, appended, started, snapshot, install, send_begin, send_end,
  apply_begin, apply_woken, apply_end, killed, restart,
}
use my.Raft.Cluster.{IsApart}

module _ {C : Type 0} where
  -- The peer follows or is a candidate afterwards, or it has its role and its term still.
  abbrev pub StillLeads : Raft C → Raft C → Type 0
  StillLeads rf rf' =
      (is_leader rf'.state ≡ false)
      ⊎ ((rf'.state ≡ rf.state) × (rf'.current_term ≡ rf.current_term))

  abbrev pub SamePlace : Raft C → Raft C → Type 0
  SamePlace rf rf' = (rf'.me ≡ rf.me) × (rf'.peers ≡ rf.peers) × (rf'.majority ≡ rf.majority)

  abbrev pub Keeps : Raft C → Raft C → Type 0
  Keeps rf rf' = SamePlace rf rf' × StillLeads rf rf'

  -- A step that does not touch the role at all.
  abbrev IsSteady : Raft C → Raft C → Type 0
  IsSteady rf rf' = SamePlace rf rf' × (rf'.state ≡ rf.state) × (rf'.current_term ≡ rf.current_term)

  commit_at-IsSteady :
      (rf : Raft C) (n : ℕ) (rf' : Raft C) → commit_at rf n ≡ some rf' → IsSteady rf rf'
  unfolding commit_at
  commit_at-IsSteady rf n rf' h = ground arith

  commit_loop-IsSteady :
      (rounds n : ℕ) (rf : Raft C) (rf' : Raft C)
      → commit_loop rounds n rf ≡ some rf'
      → IsSteady rf rf'
  unfolding commit_loop
  commit_loop-IsSteady zero n rf rf' h = ground arith
  commit_loop-IsSteady (suc rounds) n rf rf' h = elim (Option-cases (commit_at rf n)) [
    | inl e ↦ ground (arith, e)
    | inr (rf₁, e) ↦
        ground
          (arith, e, commit_at-IsSteady rf n rf₁ e, commit_loop-IsSteady rounds (n + 1) rf₁ rf')
  ]

  update_commit_index-IsSteady :
      (rf : Raft C) (rf' : Raft C) → update_commit_index rf ≡ some rf' → IsSteady rf rf'
  unfolding update_commit_index
  update_commit_index-IsSteady rf rf' h = elim (Option-cases (get_last_log rf)) [
    | inl e ↦ ground (arith, e)
    | inr (last, e) ↦ ground (
      arith,
      e,
      commit_loop-IsSteady (last.index + 1 - (rf.commit_index + 1)) (rf.commit_index + 1) rf rf',
    )
  ]

  accept_leader-follows :
      (clock : Clock) (rf : Raft C) (args : AppendEntriesArgs C)
      → let rf' = accept_leader clock rf args in SamePlace rf rf' × (is_leader rf'.state ≡ false)
  unfolding accept_leader
  accept_leader-follows clock rf args = ground arith

  append_checked-IsSteady :
      (rf : Raft C) (args : AppendEntriesArgs C) (r : AppendEntriesReply) (rf' : Raft C)
      (r' : AppendEntriesReply)
      → append_checked rf args r ≡ some (rf', r')
      → IsSteady rf rf'
  unfolding append_checked
  append_checked-IsSteady rf args r rf' r' h = ground arith

  module _ (gob : Gob C) (rf : Raft C) {rf' : Raft C} where
    pub request_vote-Keeps :
        (clock : Clock) (args : RequestVoteArgs) (reply : RequestVoteReply)
        → request_vote gob clock rf args ≡ some (rf', reply)
        → Keeps rf rf'
    unfolding request_vote
    request_vote-Keeps clock args reply h = ground arith

    pub attempt_election-Keeps :
        (clock : Clock) (args : RequestVoteArgs)
        → attempt_election gob clock rf ≡ some (rf', args)
        → Keeps rf rf'
    unfolding attempt_election
    attempt_election-Keeps clock args h = ground arith

    pub append_entries-Keeps :
        (clock : Clock) (args : AppendEntriesArgs C) (reply : AppendEntriesReply)
        → append_entries gob clock rf args ≡ some (rf', reply)
        → Keeps rf rf'
    unfolding append_entries persist
    append_entries-Keeps clock args reply h =
        let rf₁ = accept_leader clock rf args in
        let r : AppendEntriesReply = record zero_reply { term = rf₁.current_term } in
        elim (Option-cases (append_checked rf₁ args r)) [
          | inl e ↦ ground (arith, e)
          | inr ((rf₂, r₂), e) ↦ ground (
            arith,
            e,
            accept_leader-follows clock rf args,
            append_checked-IsSteady rf₁ args r rf₂ r₂ e,
          )
        ]

    handle_append_reply-Keeps :
        (server : ℕ) (args : AppendEntriesArgs C) (reply : AppendEntriesReply)
        → handle_append_reply gob rf server args reply ≡ some rf'
        → Keeps rf rf'
    unfolding handle_append_reply
    handle_append_reply-Keeps server args reply h =
        let v : ℕ = args.prev_log_index + length args.entries in
        elim (Option-cases (raise_to rf.next_index server (v + 1))) [
          | inl e ↦ ground (arith, e)
          | inr (a, e) ↦ elim (Option-cases (raise_to rf.match_index server v)) [
            | inl d ↦ ground (arith, e, d)
            | inr (b, d) ↦ ground (
              arith,
              e,
              d,
              update_commit_index-IsSteady (record rf { next_index = a; match_index = b }) rf',
            )
          ]
        ]

    send_snap_shot_end-Keeps :
        (server : ℕ) (args : InstallSnapshotArgs) (reply : InstallSnapshotReply)
        → send_snap_shot_end gob rf server args reply ≡ some rf'
        → Keeps rf rf'
    unfolding send_snap_shot_end
    send_snap_shot_end-Keeps server args reply h =
        let v : ℕ = args.last_included_index in
        elim (Option-cases (raise_to rf.match_index server v)) [
          | inl e ↦ ground (arith, e)
          | inr (a, e) ↦ elim (Option-cases (raise_to rf.next_index server (v + 1))) [
            | inl d ↦ ground (arith, e, d)
            | inr (b, d) ↦ ground (
              arith,
              e,
              d,
              update_commit_index-IsSteady (record rf { match_index = a; next_index = b }) rf',
            )
          ]
        ]

    start-Keeps : (command : C) (r : Started) → start gob rf command ≡ some (rf', r) → Keeps rf rf'
    unfolding start
    start-Keeps command r h = ground arith

    snapshot_at-Keeps :
        (index : ℕ) (bytes : Bytes) → snapshot_at gob rf index bytes ≡ rf' → Keeps rf rf'
    unfolding snapshot_at
    snapshot_at-Keeps index bytes h = ground arith

    install_snap_shot-Keeps :
        (clock : Clock) (args : InstallSnapshotArgs) (reply : InstallSnapshotReply)
        → install_snap_shot gob clock rf args ≡ (rf', reply)
        → Keeps rf rf'
    unfolding install_snap_shot
    install_snap_shot-Keeps clock args reply h = ground arith

    make-Keeps :
        (clock : Clock)
        → rf.majority ≡ rf.peers / 2 + 1
        → make gob clock rf.peers rf.me rf.persister ≡ some rf'
        → Keeps rf rf'
    unfolding make
    make-Keeps clock m h = ground arith

    apply_begin-Keeps : (next : Applying C) → applier_begin rf ≡ some (rf', next) → Keeps rf rf'
    unfolding applier_begin applier_woken
    apply_begin-Keeps next h = ground arith

    apply_woken-Keeps : (next : Applying C) → applier_woken rf ≡ some (rf', next) → Keeps rf rf'
    unfolding applier_woken
    apply_woken-Keeps next h = ground arith

    send_begin-Keeps : (go : Bool) → send_snap_shot_begin rf ≡ (rf', go) → Keeps rf rf'
    unfolding send_snap_shot_begin
    send_begin-Keeps go h = ground arith

    apply_end-Keeps : (applied : ℕ) → applier_end rf applied ≡ rf' → Keeps rf rf'
    unfolding applier_end
    apply_end-Keeps applied h = ground arith

    killed-Keeps : kill rf ≡ rf' → Keeps rf rf'
    unfolding kill
    killed-Keeps h = ground arith

  -- A step that is not part of an election keeps the peer's place, and makes no leader.
  pub Step-Keeps :
      (gob : Gob C) {rf rf' : Raft C} (s : Step gob rf rf')
      → IsApart gob s
      → rf.majority ≡ rf.peers / 2 + 1
      → Keeps rf rf'
  Step-Keeps gob (vote c a r h) p m = absurd p
  Step-Keeps gob (elect c a h) p m = absurd p
  Step-Keeps gob (voted v a r v' w h) p m = absurd p
  Step-Keeps gob {rf} (append c a r h) p m = append_entries-Keeps gob rf c a r h
  Step-Keeps gob {rf} (appended n a r h) p m = handle_append_reply-Keeps gob rf n a r h
  Step-Keeps gob {rf} (started c r h) p m = start-Keeps gob rf c r h
  Step-Keeps gob {rf} (snapshot i b h) p m = snapshot_at-Keeps gob rf i b h
  Step-Keeps gob {rf} (install c a r h) p m = install_snap_shot-Keeps gob rf c a r h
  Step-Keeps gob {rf} (send_begin g h) p m = send_begin-Keeps gob rf g h
  Step-Keeps gob {rf} (send_end n a r h) p m = send_snap_shot_end-Keeps gob rf n a r h
  Step-Keeps gob {rf} (apply_begin n h) p m = apply_begin-Keeps gob rf n h
  Step-Keeps gob {rf} (apply_woken n h) p m = apply_woken-Keeps gob rf n h
  Step-Keeps gob {rf} (apply_end n h) p m = apply_end-Keeps gob rf n h
  Step-Keeps gob {rf} (killed h) p m = killed-Keeps gob rf h
  Step-Keeps gob {rf} (restart c h) p m = make-Keeps gob rf c m h
