-- ===== src/Raft/Replicate/Prepare.antt =====
-- What `BroadcastEntries` sends: the suffix of the log from the peer's next index on, or the snapshot.
use my.Prelude.{
  ℕ, ◌+◌, ◌-◌, ◌≤◌, ◌<◌, ◌≡◌, refl, true, false, some, arith, length, get_elem?, drop, length-drop,
  take-length-le,
}
use my.Raft.State.{Raft, leader}
use my.Raft.Log.{get_log_entry, get_log_slices}
use my.Raft.Log.Indexed.{
  IsIndexed, IndexedFrom, IndexedFrom-drop, index-get_last_log, get_last_log-total,
}
use my.Raft.Append.{AppendEntriesArgs}
use my.Raft.Append.Accepts.{AreNumbered}
use my.Raft.Append.Runs.{term_at}
use my.Raft.Snapshots.{InstallSnapshotArgs}
use my.Raft.Replicate.{append, install, prepare}

module _ {C : Type 0} where
  -- The call carries the log of `rf` from the index `next` on.
  pub record Sends (rf : Raft C) (next : ℕ) (args : AppendEntriesArgs C) : Type 0 where
    pub term : args.term ≡ rf.current_term
    pub prev : args.prev_log_index + 1 ≡ next
    pub prev_term : args.prev_log_term ≡ term_at rf.last_included_index rf.log args.prev_log_index
    pub entries : args.entries ≡ drop (next - rf.last_included_index) rf.log
    pub numbered : AreNumbered args
    pub to_end :
        args.prev_log_index + length args.entries + 1 ≡ rf.last_included_index + length rf.log
    pub commit : args.leader_commit ≡ rf.commit_index

  module _ (rf : Raft C) (server next : ℕ) (i : IsIndexed rf) (is_leader : rf.state ≡ leader)
      (alive : rf.dead ≡ false) (at : get_elem? rf.next_index server ≡ some next) where
    slices :
        (last : ℕ)
        → rf.last_included_index < next
        → next ≤ last + 1
        → last + 1 ≡ rf.last_included_index + length rf.log
        → get_log_slices rf next (last + 1)
          ≡ some (drop (next - rf.last_included_index) rf.log, true)
    unfolding get_log_slices
    slices last h k e = ground (
      arith,
      length-drop (next - rf.last_included_index) rf.log,
      take-length-le (last + 1 - rf.last_included_index - (next - rf.last_included_index))
          (drop (next - rf.last_included_index) rf.log),
    )

    prev_term_lem :
        rf.last_included_index < next
        → next ≤ rf.last_included_index + length rf.log
        → (get_log_entry rf (next - 1)).0.term ≡ term_at rf.last_included_index rf.log (next - 1)
    unfolding get_log_entry
    prev_term_lem h k = ground arith

    -- To a peer whose next index is past the snapshot and not past the end, a live leader with a
    -- numbered log sends the suffix of its log from the next index on, with the index and the term
    -- of the entry before it and its commit index.
    pub prepare-Sends :
        rf.last_included_index < next
        → next ≤ rf.last_included_index + length rf.log
        → (args : AppendEntriesArgs C) × (prepare rf server ≡ some (append args))
          × Sends rf next args
    unfolding prepare
    prepare-Sends h k =
        let (last, e) = get_last_log-total rf i.nonempty in
        let l : last.index + 1 ≡ rf.last_included_index + length rf.log =
          index-get_last_log rf i e in
        (
          record {
            term = rf.current_term;
            leader_id = rf.me;
            prev_log_index = next - 1;
            prev_log_term = (get_log_entry rf (next - 1)).0.term;
            entries = drop (next - rf.last_included_index) rf.log;
            leader_commit = rf.commit_index;
          },
          ground (arith, slices last.index h (omega arith) l),
          record {
            term = refl;
            prev = omega arith;
            prev_term = prev_term_lem h k;
            entries = refl;
            numbered = numbered_lem;
            to_end = omega (arith, length-drop (next - rf.last_included_index) rf.log);
            commit = refl;
          },
        )
      where
        numbered_lem : IndexedFrom (next - 1 + 1) (drop (next - rf.last_included_index) rf.log)
        numbered_lem =
            let p : next - 1 + 1 ≡ rf.last_included_index + (next - rf.last_included_index) =
              omega arith in
            rw p (
              IndexedFrom-drop rf.last_included_index (next - rf.last_included_index) rf.log
                (omega arith) i.indexed)

    -- To a peer whose next index the snapshot covers, it sends the snapshot.
    pub prepare-install :
        next ≤ rf.last_included_index
        → (args : InstallSnapshotArgs) × (prepare rf server ≡ some (install args))
          × (args.term ≡ rf.current_term)
          × (args.last_included_index ≡ rf.last_included_index)
          × (args.last_included_term ≡ rf.last_included_term)
          × (args.bytes ≡ rf.persister.snapshot)
    unfolding prepare
    prepare-install h =
        let (last, e) = get_last_log-total rf i.nonempty in
        (
          record {
            term = rf.current_term;
            leader_id = rf.me;
            last_included_index = rf.last_included_index;
            last_included_term = rf.last_included_term;
            bytes = rf.persister.snapshot;
          },
          ground arith,
          refl,
          refl,
          refl,
          refl,
        )
