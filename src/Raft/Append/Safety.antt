-- ===== src/Raft/Append/Safety.antt =====
-- What every call of `AppendEntries` keeps, and what an accepted one establishes.
use my.Prelude.{
  ℕ, zero, suc, ◌+◌, ◌-◌, ◌≤◌, ◌<◌, ◌≡◌, ◌⊎◌, inl, inr, refl, sym, ap, true, false, List, [], ◌∷◌,
  ◌++◌, arith, length, get_or, take, drop, Returns, Returns-map, length-take, ◌∙◌,
}
use my.Raft.State.{Raft, LogEntry, Gob, Clock, zero_entry}
use my.Raft.Log.Indexed.{IsIndexed}
use my.Raft.Append.{AppendEntriesArgs, AppendEntriesReply, append_entries}
use my.Raft.Append.Overlay.{overlay}
use my.Raft.Append.Accepts.{AreNumbered, IsIndexed-new_log}
use my.Raft.Append.Runs.{term_at}
use my.Raft.Append.Refuses.{HasPrevious}
use my.Raft.Append.Splice.{place, spliced, Matches-place, Outcome, append_entries-Outcome}

module _ {C : Type 0} where
  -- The new entries stand in the overlay, up to commands that have the same index and term.
  term-overlay :
      (local es : List (LogEntry C)) (k : ℕ)
      → k < length es
      → (get_or (overlay local es) k zero_entry).term ≡ (get_or es k zero_entry).term
  term-overlay local [] k h = elim h [ ]
  term-overlay [] (e ∷ es) k h = refl
  term-overlay (c ∷ local) (e ∷ es) zero h = ground arith
  term-overlay (c ∷ local) (e ∷ es) (suc k) h = ground (arith, term-overlay local es k)

  -- Each new entry has the term of the local entry at its place.
  abbrev pub Agree : List (LogEntry C) → List (LogEntry C) → Type 0
  Agree local [] = Unit
  Agree [] (e ∷ es) = ⊥
  Agree (c ∷ local) (e ∷ es) = (c.term ≡ e.term) × Agree local es

  overlay-Agree : (local es : List (LogEntry C)) → Agree local es → overlay local es ≡ local
  overlay-Agree local [] h = refl
  overlay-Agree [] (e ∷ es) h = absurd h
  overlay-Agree (c ∷ local) (e ∷ es) h = ground (arith, overlay-Agree local es h.1)

  get_or-append_right :
      (xs : List (LogEntry C)) (y : LogEntry C) (ys : List (LogEntry C)) (k : ℕ)
      → get_or (xs ++ y ∷ ys) (length xs + suc k) zero_entry ≡ get_or ys k zero_entry
  get_or-append_right [] y ys k = let e : 0 + suc k ≡ suc k = omega arith in rw e
  get_or-append_right (x ∷ xs) y ys k =
      let e : suc (length xs) + suc k ≡ suc (length xs + suc k) = omega arith in
      rw e (get_or-append_right xs y ys k)

  module _ (gob : Gob C) (clock : Clock) (rf : Raft C) (args : AppendEntriesArgs C) where
    IsIndexed-spliced :
        HasPrevious rf args
        → IsIndexed rf
        → AreNumbered args
        → IsIndexed (record rf { log = spliced rf args })
    IsIndexed-spliced h i n = IsIndexed-new_log rf args _ _ _ (Matches-place rf args h) i n

    IsIndexed-moved :
        (rf' : Raft C) {log : List (LogEntry C)}
        → IsIndexed (record rf { log = log })
        → rf'.log ≡ log
        → rf'.last_included_index ≡ rf.last_included_index
        → IsIndexed rf'
    IsIndexed-moved rf' i p q = record { nonempty = rw p i.nonempty; indexed = rw (p, q) i.indexed }

    Outcome-IsIndexed :
        IsIndexed rf
        → AreNumbered args
        → (out : Raft C × AppendEntriesReply) → Outcome gob clock rf args out
        → IsIndexed out.0
    Outcome-IsIndexed i n out (inl (t, h, a)) =
        IsIndexed-moved out.0 (IsIndexed-spliced h i n) a.log a.base
    Outcome-IsIndexed i n out (inr (h, r)) = IsIndexed-moved out.0 {log = rf.log} i r.log r.base

    -- Every call with numbered entries to a numbered log, accepted or not, returns and leaves a
    -- log that is numbered from its snapshot on.
    pub append_entries-IsIndexed :
        IsIndexed rf
        → AreNumbered args
        → Returns (append_entries gob clock rf args) λ out. IsIndexed out.0
    append_entries-IsIndexed i n =
        Returns-map _ (Outcome-IsIndexed i n) (append_entries-Outcome gob clock rf args i n)

    -- After a call that answers with success the log has each entry of the call, by index and term.
    abbrev pub Covers : List (LogEntry C) → Type 0
    Covers log =
        (k : ℕ)
        → k < length args.entries
        → term_at rf.last_included_index log (args.prev_log_index + suc k)
          ≡ (get_or args.entries k zero_entry).term

    pub spliced-Covers : HasPrevious rf args → Covers (spliced rf args)
    spliced-Covers h k l =
        let p : args.prev_log_index + suc k - rf.last_included_index
            ≡ length (take (place rf args) rf.log) + suc k =
          omega (arith, length-take (place rf args) rf.log) in
        ap (λ (j : ℕ). (get_or (spliced rf args) j zero_entry).term) p
        ∙ ap (λ (e : LogEntry C). e.term) (get_or-append_right (take (place rf args) rf.log) _ _ k)
        ∙ term-overlay _ args.entries k l

    -- What is committed afterwards was committed before, or is covered by the call.
    abbrev pub CommitsCovered : Raft C → Type 0
    CommitsCovered rf' =
        (rf'.commit_index ≡ rf.commit_index)
        ⊎ ((rf.commit_index < args.leader_commit)
            × (rf'.commit_index ≤ args.leader_commit)
            × (rf'.commit_index ≤ args.prev_log_index + length args.entries))

    Outcome-commit :
        args.leader_commit ≤ args.prev_log_index + length args.entries
        → (out : Raft C × AppendEntriesReply) → Outcome gob clock rf args out
        → CommitsCovered out.0
          × (((out.1.success ≡ true) × Covers out.0.log) ⊎ (out.1.success ≡ false))
    Outcome-commit b out (inl (t, h, a)) =
        (ground (arith, a.commit), inl (a.success, rw a.log (spliced-Covers h)))
    Outcome-commit b out (inr (h, r)) = (inl r.commit, inr r.refused)

    -- A call with numbered entries, to a numbered log, whose commit index its entries reach, does
    -- not panic. Either it succeeds and the log has each of its entries, by index and term, or it
    -- is refused. The commit index stays, or moves to an index that the call covers.
    pub append_entries-Covers :
        IsIndexed rf
        → AreNumbered args
        → args.leader_commit ≤ args.prev_log_index + length args.entries
        → Returns (append_entries gob clock rf args) λ out.
          CommitsCovered out.0
          × (((out.1.success ≡ true) × Covers out.0.log) ⊎ (out.1.success ≡ false))
    append_entries-Covers i n b =
        Returns-map _ (Outcome-commit b) (append_entries-Outcome gob clock rf args i n)

    -- A call with numbered entries, to a numbered log that already agrees with them in its terms,
    -- leaves the log as it was: a late or a repeated call cuts off no entries.
    pub append_entries-Agree :
        IsIndexed rf
        → AreNumbered args
        → Agree (drop (suc (place rf args)) rf.log) args.entries
        → Returns (append_entries gob clock rf args) λ out. out.0.log ≡ rf.log
    append_entries-Agree i n g =
        Returns-map _ unchanged (append_entries-Outcome gob clock rf args i n)
      where
        unchanged :
            (out : Raft C × AppendEntriesReply) → Outcome gob clock rf args out → out.0.log ≡ rf.log
        unchanged out (inl (t, h, a)) =
            a.log
            ∙ ap (λ l. take (place rf args) rf.log ++ get_or rf.log (place rf args) zero_entry ∷ l)
                (overlay-Agree _ _ g)
            ∙ sym (Matches-place rf args h).split
        unchanged out (inr (h, r)) = r.log
