-- ===== src/Raft/Replicate/Round.antt =====
-- One round of replication: what the leader sends, handled by a follower that has the previous entry.
use my.Prelude.{
  ℕ, suc, ◌+◌, ◌-◌, ◌≤◌, ◌<◌, ◌≡◌, ◌∙◌, ap, true, arith, length, get_or, Returns, Returns-map,
  get_or-drop,
}
use my.Raft.State.{Raft, LogEntry, Gob, Clock, zero_entry}
use my.Raft.Log.Indexed.{IsIndexed}
use my.Raft.Append.{AppendEntriesArgs, AppendEntriesReply, append_entries}
use my.Raft.Append.Runs.{term_at}
use my.Raft.Append.Handler.{Accepted}
use my.Raft.Append.Refuses.{HasPrevious}
use my.Raft.Append.Splice.{spliced, append_entries-splices}
use my.Raft.Append.Safety.{spliced-Covers}
use my.Raft.Replicate.Prepare.{Sends}

module _ {C : Type 0} where
  -- The follower has the leader's terms from `next` to the end of the leader's log.
  abbrev pub Replicates : Raft C → ℕ → Raft C → Type 0
  Replicates l next f =
      (j : ℕ)
      → next ≤ j
      → j < l.last_included_index + length l.log
      → term_at f.last_included_index f.log j ≡ term_at l.last_included_index l.log j

  module _ (gob : Gob C) (clock : Clock) (l f : Raft C) (next : ℕ) (args : AppendEntriesArgs C)
      (s : Sends l next args) (above : l.last_included_index < next) (i : IsIndexed f)
      (current : f.current_term ≤ l.current_term) (h : HasPrevious f args) where
    sent :
        (j : ℕ)
        → next ≤ j
        → (get_or args.entries (j - next) zero_entry).term ≡ term_at l.last_included_index l.log j
    sent j a =
        ap (λ es. (get_or es (j - next) zero_entry).term) s.entries
        ∙ ap (λ (e : LogEntry C). e.term)
            (get_or-drop (next - l.last_included_index) (j - next) l.log zero_entry)
        ∙ ap (λ (k : ℕ). (get_or l.log k zero_entry).term)
            (let p : next - l.last_included_index + (j - next) ≡ j - l.last_included_index =
                omega arith in
              p)

    replicated :
        (out : Raft C × AppendEntriesReply)
        → Accepted gob f args (spliced f args) out.0 out.1
        → (out.1.success ≡ true) × Replicates l next out.0
    replicated out a = (
      a.success,
      λ j lo hi.
          (rw (a.log, a.base)
            (ap (λ (k : ℕ). term_at f.last_included_index (spliced f args) k) (p j lo)
              ∙ spliced-Covers gob clock f args h (j - next) (omega (arith, s.to_end, s.prev))
              ∙ sent j lo)),
    )
      where
        p : (j : ℕ) → next ≤ j → j ≡ args.prev_log_index + suc (j - next)
        p j lo = omega (arith, s.prev)

    -- A follower of no newer term, with a numbered log that has the previous entry of what a
    -- leader sends it, accepts the call and then has the leader's terms from the next index to the
    -- end of the leader's log.
    pub append_entries-Replicates :
        Returns
          (append_entries gob clock f args)
          λ out. (out.1.success ≡ true) × Replicates l next out.0
    append_entries-Replicates =
        Returns-map {Q = λ out. (out.1.success ≡ true) × Replicates l next out.0} _ replicated
          (append_entries-splices gob clock f args (rw s.term current) h i s.numbered)
