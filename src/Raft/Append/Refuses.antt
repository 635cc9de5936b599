-- ===== src/Raft/Append/Refuses.antt =====
-- `AppendEntries` when it refuses, and the hint that it gives the leader.
use my.Prelude.{
  ℕ, ◌+◌, ◌-◌, ◌≤◌, ◌<◌, ◌≡◌, ◌≢◌, ◌⊎◌, inl, inr, refl, subst, false, some, List, arith,
  get_elem?-eq_some, length, Returns, lt→ltb, le→ltb, get_or,
}
use native.Mathlib.Decide.{dec_le, dec_lt}
use my.Raft.State.{Raft, LogEntry, Gob, Clock, encode_raft_state, persist, zero_entry}
use my.Raft.Log.{get_log_entry}
use my.Raft.Log.Indexed.{IsIndexed, index-get_elem?, index-get_last_log, get_last_log-total}
use my.Raft.Append.Runs.{term_at, IsRunStart, first_index_of_term-IsRunStart}
use my.Raft.Append.Handler.{
  accept_leader-log, accept_leader-base, accept_leader-commit, accept_leader-IsIndexed,
}
use my.Raft.Append.{
  accept_leader, append_checked, zero_reply, AppendEntriesArgs, AppendEntriesReply, append_entries,
  first_index_of_term, check_log_consistency,
}

module _ {C : Type 0} where
  -- The log has the previous entry of the call, with its term.
  abbrev pub HasPrevious : Raft C → AppendEntriesArgs C → Type 0
  HasPrevious rf args =
      (rf.last_included_index ≤ args.prev_log_index)
      × (args.prev_log_index < rf.last_included_index + length rf.log)
      × (term_at rf.last_included_index rf.log args.prev_log_index ≡ args.prev_log_term)

  -- What a refusal tells the leader: the log begins later, or ends earlier, or it has another term
  -- at the previous index, whose run of entries begins at `x_index`.
  abbrev pub Hint : ℕ → List (LogEntry C) → ℕ → AppendEntriesReply → Type 0
  Hint base log prev reply =
      ((prev < base) × (reply.x_term ≡ 0) × (reply.x_len ≡ base + 1))
      ⊎ (((base + length log ≤ prev) × (reply.x_term ≡ 0) × (reply.x_len ≡ base + length log))
          ⊎ ((reply.x_term ≡ term_at base log prev)
              × IsRunStart base log reply.x_term prev reply.x_index))

  Hint-cong :
      {base base' : ℕ} {log log' : List (LogEntry C)} (prev : ℕ) (reply : AppendEntriesReply)
      → base' ≡ base
      → log' ≡ log
      → Hint base' log' prev reply
      → Hint base log prev reply
  Hint-cong {base = base} {log' = log'} prev reply p q h =
      subst (λ l. Hint base l prev reply) q (subst (λ b. Hint b log' prev reply) p h)

  index-get_log_entry :
      (rf : Raft C) (i : ℕ)
      → IsIndexed rf
      → rf.last_included_index ≤ i
      → i < rf.last_included_index + length rf.log
      → (get_or rf.log (i - rf.last_included_index) zero_entry).index ≡ i
  index-get_log_entry rf i ix h k = omega (
    arith,
    index-get_elem? rf.last_included_index (i - rf.last_included_index) rf.log ix.indexed
        (get_elem?-eq_some rf.log (i - rf.last_included_index) zero_entry (omega arith)),
  )

  module _ (rf : Raft C) (args : AppendEntriesArgs C) (reply : AppendEntriesReply) where
    -- What the consistency check returns when it fails.
    abbrev Fails : Type 0
    Fails =
        (reply' : AppendEntriesReply) × (check_log_consistency rf args reply ≡ some (false, reply'))
        × (reply'.success ≡ false)
        × Hint rf.last_included_index rf.log args.prev_log_index reply'

    fails_old : args.prev_log_index < rf.last_included_index → reply.x_term ≡ 0 → Fails
    unfolding check_log_consistency
    fails_old h z = (
      record reply { success = false; term = rf.current_term; x_len = rf.last_included_index + 1 },
      ground arith,
      refl,
      inl (h, z, refl),
    )

    fails_short :
        IsIndexed rf → rf.last_included_index + length rf.log ≤ args.prev_log_index → Fails
    unfolding check_log_consistency get_log_entry
    fails_short ix h =
        let (last, e) = get_last_log-total rf ix.nonempty in
        (
          record reply { success = false; x_index = 0; x_term = 0; x_len = last.index + 1 },
          ground arith,
          refl,
          inr (inl (h, refl, index-get_last_log rf ix e)),
        )

    fails_conflict :
        IsIndexed rf
        → rf.last_included_index ≤ args.prev_log_index
        → args.prev_log_index < rf.last_included_index + length rf.log
        → term_at rf.last_included_index rf.log args.prev_log_index ≢ args.prev_log_term
        → Fails
    unfolding check_log_consistency get_log_entry
    fails_conflict ix h k d =
        let (last, e) = get_last_log-total rf ix.nonempty in
        let t = term_at rf.last_included_index rf.log args.prev_log_index in
        (
          record reply {
            success = false;
            x_term = t;
            x_index = first_index_of_term rf t args.prev_log_index;
          },
          ground (arith, index-get_log_entry rf args.prev_log_index ix h k),
          refl,
          inr (inr (refl, first_index_of_term-IsRunStart rf t args.prev_log_index h k refl)),
        )

    check_log_consistency-fails : IsIndexed rf → ¬ HasPrevious rf args → reply.x_term ≡ 0 → Fails
    check_log_consistency-fails ix n z = elim (dec_lt args.prev_log_index rf.last_included_index) [
      | yes p ↦ fails_old p z
      | no p ↦ elim (dec_le (rf.last_included_index + length rf.log) args.prev_log_index) [
        | yes q ↦ fails_short ix q
        | no q ↦
            fails_conflict ix (omega arith) (omega arith) (λ e. n (omega arith, omega arith, e))
      ]
    ]

  -- The outcome of a call that was refused.
  pub record Refused (gob : Gob C) (rf : Raft C) (args : AppendEntriesArgs C) (rf' : Raft C)
      (reply : AppendEntriesReply) : Type 0 where
    pub refused : reply.success ≡ false
    pub log : rf'.log ≡ rf.log
    pub base : rf'.last_included_index ≡ rf.last_included_index
    pub commit : rf'.commit_index ≡ rf.commit_index
    pub durable : rf'.persister.raftstate ≡ encode_raft_state gob rf'
    pub hint :
        (args.term < rf.current_term × (reply.term ≡ rf.current_term))
        ⊎ ((rf.current_term ≤ args.term)
            × Hint rf.last_included_index rf.log args.prev_log_index reply)

  refuses_stale :
      (gob : Gob C) (clock : Clock) (rf : Raft C) (args : AppendEntriesArgs C)
      → args.term < rf.current_term
      → Returns (append_entries gob clock rf args) λ out. Refused gob rf args out.0 out.1
  unfolding append_entries persist encode_raft_state
  refuses_stale gob clock rf args h = rw (lt→ltb _ _ h) (ground arith)

  refuses_mismatch :
      (gob : Gob C) (clock : Clock) (rf : Raft C) (args : AppendEntriesArgs C)
      → IsIndexed rf
      → rf.current_term ≤ args.term
      → ¬ HasPrevious rf args
      → Returns (append_entries gob clock rf args) λ out. Refused gob rf args out.0 out.1
  unfolding append_entries append_checked persist encode_raft_state
  refuses_mismatch gob clock rf args ix h n =
      let rf' = accept_leader clock rf args in
      let n' : ¬ HasPrevious rf' args =
        rw (accept_leader-log clock rf args, accept_leader-base clock rf args) n in
      let (reply', e, z, hint) =
        check_log_consistency-fails rf' args (record zero_reply { term = rf'.current_term })
          (accept_leader-IsIndexed clock rf args ix) n' refl in
      rw (le→ltb args.term rf.current_term h) (
        rw e (record {
          refused = z;
          log = accept_leader-log clock rf args;
          base = accept_leader-base clock rf args;
          commit = accept_leader-commit clock rf args;
          durable = refl;
          hint = inr (
            h,
            Hint-cong args.prev_log_index reply' (accept_leader-base clock rf args)
                (accept_leader-log clock rf args) hint,
          );
        }))

  -- A call to a numbered log that is of a stale term, or whose previous entry the log has not,
  -- does not panic and is refused: the log and the commit index are unchanged, the state is
  -- persisted, and the reply carries the newer term, or the length of the log or the run of
  -- entries that the leader has to go back to.
  pub append_entries-refuses :
      (gob : Gob C) (clock : Clock) (rf : Raft C) (args : AppendEntriesArgs C)
      → IsIndexed rf
      → (args.term < rf.current_term) ⊎ (¬ HasPrevious rf args)
      → Returns (append_entries gob clock rf args) λ out. Refused gob rf args out.0 out.1
  append_entries-refuses gob clock rf args ix h = elim (dec_lt args.term rf.current_term) [
    | yes p ↦ refuses_stale gob clock rf args p
    | no p ↦
        refuses_mismatch gob clock rf args ix (omega arith)
          (λ hp. elim h [ inl q ↦ p q | inr n ↦ n hp ])
  ]
