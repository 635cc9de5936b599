-- ===== src/Raft/Matching/Saved.antt =====
-- What each step of a peer leaves of its role, its log and its persister, in a group that takes no
-- snapshots (raft1/raft.go).
use my.Prelude.{
  ℕ, zero, suc, ◌+◌, ◌-◌, ◌≤◌, ◌<◌, ◌≡◌, ◌⊎◌, inl, inr, Bool, Option, some, [], ◌∷◌, arith, length,
  ltb, Option-cases, if◌then◌else◌,
}
use my.Raft.State.{
  Raft, leader, candidate, follower, Bytes, Gob, Clock, PersistentState, persistent, persist,
  encode_raft_state, not_voted, zero_entry,
}
use my.Raft.Log.{get_last_log}
use my.Raft.Vote.{
  RequestVoteArgs, RequestVoteReply, request_vote, attempt_election, handle_vote_reply,
  become_leader,
}
use my.Raft.Append.{
  AppendEntriesArgs, AppendEntriesReply, zero_reply, append_entries, accept_leader, append_checked,
}
use my.Raft.Commit.{commit_at, commit_loop, update_commit_index}
use my.Raft.Snapshots.{raise_to}
use my.Raft.Replicate.{Started, start, handle_append_reply}
use my.Raft.Applier.{Applying, applier_begin, applier_woken, applier_end, kill}
use my.Raft.Startup.{make}
use my.Raft.Peer.Votes.{IsRoundTrip}

module _ {C : Type 0} where
  -- What a peer holds that starts with nothing persisted.
  abbrev pub blank : PersistentState C
  blank = record {
    current_term = 0;
    voted_for = not_voted;
    log = zero_entry ∷ [];
    last_included_index = 0;
    last_included_term = 0;
  }

  -- What `readPersist` would restore.
  abbrev pub read_back : Gob C → Bytes → Option (PersistentState C)
  read_back gob bytes = if ltb (length bytes) 1 then some blank else gob.decode bytes

  abbrev pub IsSaved : Gob C → Raft C → Type 0
  IsSaved gob rf = read_back gob rf.persister.raftstate ≡ some (persistent rf)

  -- The role and the term: a new follower, a new candidate of a newer term, the same, or a candidate
  -- that has become the leader of its term.
  abbrev pub Turned : Raft C → Raft C → Type 0
  Turned rf rf' =
      ((rf'.state ≡ follower) × (rf.current_term ≤ rf'.current_term))
      ⊎ ((rf'.state ≡ candidate) × (rf.current_term < rf'.current_term))
      ⊎ ((rf'.state ≡ rf.state) × (rf'.current_term ≡ rf.current_term))
      ⊎ ((rf.state ≡ candidate) × (rf'.state ≡ leader) × (rf'.current_term ≡ rf.current_term))

  pub record Advances (gob : Gob C) (rf rf' : Raft C) : Type 0 where
    pub turned : Turned rf rf'
    pub saved :
        (rf'.persister.raftstate ≡ encode_raft_state gob rf')
        ⊎ ((rf'.persister.raftstate ≡ rf.persister.raftstate) × (persistent rf' ≡ persistent rf))

  abbrev pub SameLog : Raft C → Raft C → Type 0
  SameLog rf rf' = (rf'.log ≡ rf.log) × (rf'.last_included_index ≡ rf.last_included_index)

  abbrev IsSteady : Raft C → Raft C → Type 0
  IsSteady rf rf' =
      (rf'.state ≡ rf.state) × (persistent rf' ≡ persistent rf) × (rf'.persister ≡ rf.persister)

  commit_at-IsSteady :
      (rf : Raft C) (n : ℕ) (rf' : Raft C) → commit_at rf n ≡ some rf' → IsSteady rf rf'
  unfolding commit_at
  commit_at-IsSteady rf n rf' h = ground arith

  commit_loop-IsSteady :
      (rounds n : ℕ) (rf : Raft C) (rf' : Raft C)
      → commit_loop rounds n rf ≡ some rf'
      → IsSteady rf rf'
  unfolding commit_loop
  commit_loop-IsSteady zero n rf rf' h = ground arith
  commit_loop-IsSteady (suc rounds) n rf rf' h = elim (Option-cases (commit_at rf n)) [
    | inl e ↦ ground (arith, e)
    | inr (rf₁, e) ↦
        ground
          (arith, e, commit_at-IsSteady rf n rf₁ e, commit_loop-IsSteady rounds (n + 1) rf₁ rf')
  ]

  update_commit_index-IsSteady :
      (rf : Raft C) (rf' : Raft C) → update_commit_index rf ≡ some rf' → IsSteady rf rf'
  unfolding update_commit_index
  update_commit_index-IsSteady rf rf' h = elim (Option-cases (get_last_log rf)) [
    | inl e ↦ ground (arith, e)
    | inr (last, e) ↦ ground (
      arith,
      e,
      commit_loop-IsSteady (last.index + 1 - (rf.commit_index + 1)) (rf.commit_index + 1) rf rf',
    )
  ]

  accept_leader-follows :
      (clock : Clock) (rf : Raft C) (args : AppendEntriesArgs C)
      → rf.current_term ≤ args.term
      → let rf' = accept_leader clock rf args in
        (rf'.state ≡ follower) × (rf.current_term ≤ rf'.current_term)
  unfolding accept_leader
  accept_leader-follows clock rf args h = ground arith

  append_checked-steady :
      (rf : Raft C) (args : AppendEntriesArgs C) (r : AppendEntriesReply) (rf' : Raft C)
      (r' : AppendEntriesReply)
      → append_checked rf args r ≡ some (rf', r')
      → (rf'.state ≡ rf.state) × (rf'.current_term ≡ rf.current_term)
  unfolding append_checked
  append_checked-steady rf args r rf' r' h = ground arith

  module _ (gob : Gob C) (rf : Raft C) {rf' : Raft C} where
    pub request_vote-Advances :
        (clock : Clock) (args : RequestVoteArgs) (reply : RequestVoteReply)
        → request_vote gob clock rf args ≡ some (rf', reply)
        → Advances gob rf rf' × SameLog rf rf'
    unfolding request_vote encode_raft_state
    request_vote-Advances clock args reply h = ground arith

    pub attempt_election-Advances :
        (clock : Clock) (args : RequestVoteArgs)
        → attempt_election gob clock rf ≡ some (rf', args)
        → Advances gob rf rf' × SameLog rf rf'
    unfolding attempt_election encode_raft_state
    attempt_election-Advances clock args h = ground arith

    pub handle_vote_reply-Advances :
        (vote_sum : ℕ) (args : RequestVoteArgs) (reply : RequestVoteReply) (vote_sum' : ℕ)
        (won : Bool)
        → handle_vote_reply gob rf vote_sum args reply ≡ some (rf', vote_sum', won)
        → Advances gob rf rf' × SameLog rf rf'
    unfolding handle_vote_reply become_leader encode_raft_state
    handle_vote_reply-Advances vote_sum args reply vote_sum' won h = ground arith

    pub append_entries-Advances :
        (clock : Clock) (args : AppendEntriesArgs C) (reply : AppendEntriesReply)
        → append_entries gob clock rf args ≡ some (rf', reply)
        → Advances gob rf rf'
    unfolding append_entries persist encode_raft_state
    append_entries-Advances clock args reply h =
        let rf₁ = accept_leader clock rf args in
        let r : AppendEntriesReply = record zero_reply { term = rf₁.current_term } in
        elim (Option-cases (append_checked rf₁ args r)) [
          | inl e ↦ ground (arith, e)
          | inr ((rf₂, r₂), e) ↦ ground (
            arith,
            e,
            accept_leader-follows clock rf args,
            append_checked-steady rf₁ args r rf₂ r₂ e,
          )
        ]

    pub handle_append_reply-Advances :
        (server : ℕ) (args : AppendEntriesArgs C) (reply : AppendEntriesReply)
        → handle_append_reply gob rf server args reply ≡ some rf'
        → Advances gob rf rf' × SameLog rf rf'
    unfolding handle_append_reply encode_raft_state
    handle_append_reply-Advances server args reply h =
        let v : ℕ = args.prev_log_index + length args.entries in
        elim (Option-cases (raise_to rf.next_index server (v + 1))) [
          | inl e ↦ ground (arith, e)
          | inr (a, e) ↦ elim (Option-cases (raise_to rf.match_index server v)) [
            | inl d ↦ ground (arith, e, d)
            | inr (b, d) ↦ ground (
              arith,
              e,
              d,
              update_commit_index-IsSteady (record rf { next_index = a; match_index = b }) rf',
            )
          ]
        ]

    pub start-Advances :
        (command : C) (r : Started) → start gob rf command ≡ some (rf', r) → Advances gob rf rf'
    unfolding start encode_raft_state
    start-Advances command r h = ground arith

    -- A restart restores what was saved.
    pub make-Advances :
        (clock : Clock)
        → IsSaved gob rf
        → make gob clock rf.peers rf.me rf.persister ≡ some rf'
        → Advances gob rf rf' × SameLog rf rf'
    unfolding make
    make-Advances clock s h = ground arith

    pub applier_begin-Advances :
        (next : Applying C)
        → applier_begin rf ≡ some (rf', next)
        → Advances gob rf rf' × SameLog rf rf'
    unfolding applier_begin applier_woken
    applier_begin-Advances next h = ground arith

    pub applier_woken-Advances :
        (next : Applying C)
        → applier_woken rf ≡ some (rf', next)
        → Advances gob rf rf' × SameLog rf rf'
    unfolding applier_woken
    applier_woken-Advances next h = ground arith

    pub applier_end-Advances :
        (applied : ℕ) → applier_end rf applied ≡ rf' → Advances gob rf rf' × SameLog rf rf'
    unfolding applier_end
    applier_end-Advances applied h = ground arith

    pub kill-Advances : kill rf ≡ rf' → Advances gob rf rf' × SameLog rf rf'
    unfolding kill
    kill-Advances h = ground arith

    -- What was saved before a step is saved after it.
    pub Advances-IsSaved : IsRoundTrip gob → Advances gob rf rf' → IsSaved gob rf → IsSaved gob rf'
    unfolding encode_raft_state
    Advances-IsSaved trip a s =
        ground (arith, a.saved, trip.decodes (persistent rf'), trip.nonempty (persistent rf'))
