-- ===== src/Raft/Append/Accepts.antt =====
-- What `AppendEntries` does when the log has the previous entry, and when it refuses.
use my.Prelude.{
  ℕ, ◌+◌, ◌-◌, ◌≡◌, sym, subst, ◌∙◌, true, some, List, [], ◌∷◌, ◌++◌, arith, ltb, if◌then◌else◌,
  length, min, length-append,
}
use mathlib.Core.List.{append_assoc}
use my.Raft.State.{Raft, LogEntry}
use my.Raft.Log.{get_last_log}
use my.Raft.Log.Indexed.{
  IndexedFrom, IndexedFrom-append, IndexedFrom-left, IndexedFrom-right, IsIndexed,
  index-get_last_log, get_last_log-total, get_log_entry-split,
}
use my.Raft.Append.{
  AppendEntriesArgs, AppendEntriesReply, check_log_consistency, merge_entries, append_checked,
  follow_commit,
}
use my.Raft.Append.Overlay.{overlay, IndexedFrom-overlay, merge_entries-eq-overlay}

module _ {C : Type 0} where
  -- The new entries are numbered from the one after the previous entry.
  abbrev pub AreNumbered : AppendEntriesArgs C → Type 0
  AreNumbered args = IndexedFrom (args.prev_log_index + 1) args.entries

  -- The log has the previous entry, `c`, after the entries `pre` and before the entries `local`.
  pub record Matches (rf : Raft C) (args : AppendEntriesArgs C) (pre : List (LogEntry C))
      (c : LogEntry C) (local : List (LogEntry C)) : Type 0 where
    pub split : rf.log ≡ pre ++ c ∷ local
    pub place : args.prev_log_index ≡ rf.last_included_index + length pre
    pub agree : c.term ≡ args.prev_log_term

  -- The commit index that follows a log.
  abbrev pub next_commit : Raft C → ℕ → List (LogEntry C) → ℕ
  next_commit rf leader_commit log =
      if ltb rf.commit_index leader_commit
      then min leader_commit (rf.last_included_index + length log - 1)
      else rf.commit_index

  module _ (rf : Raft C) (args : AppendEntriesArgs C) (pre : List (LogEntry C)) (c : LogEntry C)
      (local : List (LogEntry C)) (m : Matches rf args pre c local) where
    check_log_consistency-Matches :
        (reply : AppendEntriesReply) {last : LogEntry C}
        → get_last_log rf ≡ some last
        → check_log_consistency rf args reply ≡ some (true, reply)
    unfolding check_log_consistency
    check_log_consistency-Matches reply e =
        ground (arith, get_log_entry-split rf args.prev_log_index pre c local m.split m.place)

    -- The log after the entries are taken over.
    abbrev pub new_log : List (LogEntry C)
    new_log = pre ++ c ∷ overlay local args.entries

    split' : rf.log ≡ (pre ++ c ∷ []) ++ local
    split' = m.split ∙ sym (append_assoc pre (c ∷ []) local)

    end : rf.last_included_index + length (pre ++ c ∷ []) ≡ args.prev_log_index + 1
    end = omega (arith, m.place, length-append pre (c ∷ []))

    module _ (i : IsIndexed rf) (n : AreNumbered args) where
      indexed' : IndexedFrom rf.last_included_index ((pre ++ c ∷ []) ++ local)
      indexed' = subst (λ l. IndexedFrom rf.last_included_index l) split' i.indexed

      merged :
          {last : LogEntry C}
          → get_last_log rf ≡ some last
          → merge_entries rf last.index args.entries ≡ new_log
      merged e =
          merge_entries-eq-overlay rf _ (pre ++ c ∷ []) local args.entries split'
            (IndexedFrom-right rf.last_included_index (pre ++ c ∷ []) local indexed')
            (index-get_last_log rf i e) (rw end n)
          ∙ append_assoc pre (c ∷ []) (overlay local args.entries)

      new_log-IndexedFrom : IndexedFrom rf.last_included_index new_log
      new_log-IndexedFrom =
          subst (λ l. IndexedFrom rf.last_included_index l)
            (append_assoc pre (c ∷ []) (overlay local args.entries))
            (IndexedFrom-append rf.last_included_index (pre ++ c ∷ []) _
              (IndexedFrom-left rf.last_included_index (pre ++ c ∷ []) local indexed')
              (IndexedFrom-overlay _ local args.entries
                (IndexedFrom-right rf.last_included_index (pre ++ c ∷ []) local indexed')
                (rw end n)))

      pub IsIndexed-new_log : IsIndexed (record rf { log = new_log })
      IsIndexed-new_log = record {
        nonempty = omega (arith, length-append pre (c ∷ overlay local args.entries));
        indexed = new_log-IndexedFrom;
      }

      pub append_checked-Matches :
          (reply : AppendEntriesReply)
          → append_checked rf args reply
            ≡ some (
              follow_commit
                  (record rf { log = new_log })
                  args.leader_commit
                  (rf.last_included_index + length new_log - 1),
              record reply { success = true },
            )
      unfolding append_checked
      append_checked-Matches reply =
          let (last, e) = get_last_log-total rf i.nonempty in
          let (last', e') =
            get_last_log-total (record rf { log = new_log }) IsIndexed-new_log.nonempty in
          let l : last'.index ≡ rf.last_included_index + length new_log - 1 =
            omega (arith, index-get_last_log (record rf { log = new_log }) IsIndexed-new_log e') in
          rw (check_log_consistency-Matches reply e, e, merged e, e', l)
