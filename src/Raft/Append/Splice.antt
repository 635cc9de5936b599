-- ===== src/Raft/Append/Splice.antt =====
-- `AppendEntries` of raft1/raft.go on every branch, as one operation on the log.
use native.Mathlib.Decide.{dec_le, dec_lt, ℕ_discrete}
use my.Prelude.{
  ℕ, zero, suc, ◌+◌, ◌-◌, ◌≤◌, ◌<◌, ◌≡◌, ◌⊎◌, inl, inr, refl, ap, List, [], ◌∷◌, ◌++◌, arith,
  length, get_or, take, drop, Returns, Returns-map, length-take,
}
use my.Raft.State.{Raft, LogEntry, Gob, Clock, zero_entry}
use my.Raft.Log.Indexed.{IsIndexed}
use my.Raft.Append.{AppendEntriesArgs, AppendEntriesReply, append_entries}
use my.Raft.Append.Overlay.{overlay}
use my.Raft.Append.Accepts.{AreNumbered, Matches}
use my.Raft.Append.Runs.{term_at}
use my.Raft.Append.Handler.{Accepted, append_entries-accepts}
use my.Raft.Append.Refuses.{HasPrevious, Refused, append_entries-refuses}

module _ {C : Type 0} where
  pub take-get_or-drop :
      (k : ℕ) (xs : List (LogEntry C))
      → k < length xs
      → xs ≡ take k xs ++ get_or xs k zero_entry ∷ drop (suc k) xs
  take-get_or-drop k [] h = elim h [ ]
  take-get_or-drop zero (x ∷ xs) h = refl
  take-get_or-drop (suc k) (x ∷ xs) h = ap (λ l. x ∷ l) (take-get_or-drop k xs (omega arith))

  -- The physical place of the previous entry.
  abbrev pub place : Raft C → AppendEntriesArgs C → ℕ
  place rf args = args.prev_log_index - rf.last_included_index

  -- The log up to and with the previous entry, and then the new entries over what was there.
  abbrev pub spliced : Raft C → AppendEntriesArgs C → List (LogEntry C)
  spliced rf args =
      take (place rf args) rf.log
      ++ get_or rf.log (place rf args) zero_entry
        ∷ overlay (drop (suc (place rf args)) rf.log) args.entries

  pub Matches-place :
      (rf : Raft C) (args : AppendEntriesArgs C)
      → HasPrevious rf args
      → Matches rf args
          (take (place rf args) rf.log)
          (get_or rf.log (place rf args) zero_entry)
          (drop (suc (place rf args)) rf.log)
  Matches-place rf args h = record {
    split = take-get_or-drop (place rf args) rf.log (omega arith);
    place = omega (arith, length-take (place rf args) rf.log);
    agree = h.2;
  }

  dec_HasPrevious : (rf : Raft C) (args : AppendEntriesArgs C) → Dec (HasPrevious rf args)
  dec_HasPrevious rf args = elim (dec_le rf.last_included_index args.prev_log_index) [
    | no p ↦ no (λ h. p h.0)
    | yes p ↦ elim (dec_lt args.prev_log_index (rf.last_included_index + length rf.log)) [
      | no q ↦ no (λ h. q h.1)
      | yes q ↦
          elim (ℕ_discrete (term_at rf.last_included_index rf.log args.prev_log_index)
            args.prev_log_term) [ no r ↦ no (λ h. r h.2) | yes r ↦ yes (p, q, r) ]
    ]
  ]

  module _ (gob : Gob C) (clock : Clock) (rf : Raft C) (args : AppendEntriesArgs C) where
    -- A call of a term that is not stale, with numbered entries, to a numbered log that has the
    -- previous entry, does not panic and is accepted: the log keeps what it has up to the previous
    -- entry and takes the new entries over the rest, cutting it only at a conflict; the commit
    -- index follows the leader's; and the result is persisted.
    pub append_entries-splices :
        rf.current_term ≤ args.term
        → HasPrevious rf args
        → IsIndexed rf
        → AreNumbered args
        → Returns
            (append_entries gob clock rf args)
            λ out. Accepted gob rf args (spliced rf args) out.0 out.1
    append_entries-splices current h i n =
        append_entries-accepts gob clock rf args _ _ _ current (Matches-place rf args h) i n

    -- Either outcome, by whether the call is current and the log has the previous entry.
    abbrev pub Outcome : Raft C × AppendEntriesReply → Type 0
    Outcome out =
        ((rf.current_term ≤ args.term)
          × HasPrevious rf args
          × Accepted gob rf args (spliced rf args) out.0 out.1)
        ⊎ (((args.term < rf.current_term) ⊎ (¬ HasPrevious rf args))
            × Refused gob rf args out.0 out.1)

    -- The handler never panics on a numbered log, and it accepts exactly the calls of a current term
    -- whose previous entry the log has.
    pub append_entries-Outcome :
        IsIndexed rf → AreNumbered args → Returns (append_entries gob clock rf args) Outcome
    append_entries-Outcome i n = elim (dec_lt args.term rf.current_term) [
      | yes p ↦
          Returns-map _ (λ out r. inr (inl p, r))
            (append_entries-refuses gob clock rf args i (inl p))
      | no p ↦ elim (dec_HasPrevious rf args) [
        | no q ↦
            Returns-map _ (λ out r. inr (inr q, r))
              (append_entries-refuses gob clock rf args i (inr q))
        | yes q ↦
            Returns-map _ (λ out a. inl (omega arith, q, a))
              (append_entries-splices (omega arith) q i n)
      ]
    ]
