-- ===== src/Raft/Append/Overlay.antt =====
-- The loop of `AppendEntries` over the new entries, and what it computes: from the first entry after
-- the previous one on, the local entries as far as their terms agree with the new ones, and the new
-- ones from the first that differs.
use mathlib.Core.List.{append_assoc, append-nil}
use my.Prelude.{
  ℕ, ◌+◌, ◌≤◌, ◌≡◌, refl, sym, ap, ◌∙◌, Bool, true, false, List, [], ◌∷◌, ◌++◌, arith, ◌==◌,
  if◌then◌else◌, length, length-append, take-append_self,
}
use my.Raft.State.{Raft, LogEntry}
use my.Raft.Log.Indexed.{IndexedFrom, get_log_entry-split, convert_to_physic_idx-split}
use my.Raft.Append.{merge_entries}

module _ {C : Type 0} where
  abbrev pub overlay : List (LogEntry C) → List (LogEntry C) → List (LogEntry C)
  overlay local [] = local
  overlay [] (e ∷ es) = e ∷ es
  overlay (c ∷ local) (e ∷ es) =
      let rest = overlay local es in if c.term == e.term then c ∷ rest else e ∷ es

  pub IndexedFrom-overlay :
      (base : ℕ) (local es : List (LogEntry C))
      → IndexedFrom base local
      → IndexedFrom base es
      → IndexedFrom base (overlay local es)
  IndexedFrom-overlay base local [] hl he = hl
  IndexedFrom-overlay base [] (e ∷ es) hl he = he
  IndexedFrom-overlay base (c ∷ local) (e ∷ es) hl he =
      ground (arith, IndexedFrom-overlay (base + 1) local es hl.1 he.1)

  -- A test passes through an append.
  if-append :
      (b : Bool) (pre x y : List (LogEntry C)) {m : List (LogEntry C)}
      → m ≡ pre ++ x
      → (if b then m else pre ++ y) ≡ pre ++ (if b then x else y)
  if-append true pre x y h = h
  if-append false pre x y h = refl

  module _ (rf : Raft C) where
    -- One round of the loop at an entry that the log has.
    merge_entries-cons :
        (last : ℕ) (pre : List (LogEntry C)) (c : LogEntry C) (local : List (LogEntry C))
        (e : LogEntry C) (es : List (LogEntry C))
        → rf.log ≡ pre ++ c ∷ local
        → e.index ≡ rf.last_included_index + length pre
        → c.index ≡ e.index
        → e.index ≤ last
        → merge_entries rf last (e ∷ es)
          ≡ (if c.term == e.term then merge_entries rf last es else pre ++ e ∷ es)
    unfolding merge_entries
    merge_entries-cons last pre c local e es p he hc hl = ground (
      arith,
      get_log_entry-split rf e.index pre c local p he,
      convert_to_physic_idx-split rf c.index pre c local p (hc ∙ he),
      take-append_self pre (c ∷ local),
    )

    -- On a numbered log, the loop over numbered new entries that begin after the entries `pre`
    -- computes the overlay: the local entries are kept while the terms agree, and from the first
    -- conflict on, or past their end, the new entries stand alone.
    pub merge_entries-eq-overlay :
        (last : ℕ) (pre local es : List (LogEntry C))
        → rf.log ≡ pre ++ local
        → IndexedFrom (rf.last_included_index + length pre) local
        → last + 1 ≡ rf.last_included_index + length rf.log
        → IndexedFrom (rf.last_included_index + length pre) es
        → merge_entries rf last es ≡ pre ++ overlay local es
    unfolding merge_entries
    merge_entries-eq-overlay last pre local [] p hl hn he = p
    merge_entries-eq-overlay last pre [] (e ∷ es) p hl hn he =
        ground (arith, p ∙ append-nil pre, ap length (p ∙ append-nil pre))
    merge_entries-eq-overlay last pre (c ∷ local) (e ∷ es) p hl hn he =
        merge_entries-cons last pre c local e es p he.0 (hl.0 ∙ sym he.0)
          (omega (arith, ap length p, length-append pre (c ∷ local)))
        ∙ if-append (c.term == e.term) pre (c ∷ overlay local es) (e ∷ es) (
            merge_entries-eq-overlay last (pre ++ c ∷ []) local es
              (p ∙ sym (append_assoc pre (c ∷ []) local)) (rw next hl.1) hn (rw next he.1)
            ∙ append_assoc pre (c ∷ []) (overlay local es))
      where
        next :
            rf.last_included_index + length (pre ++ c ∷ [])
            ≡ rf.last_included_index + length pre + 1
        next = omega (arith, length-append pre (c ∷ []))
