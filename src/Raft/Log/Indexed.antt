-- ===== src/Raft/Log/Indexed.antt =====
-- Logs whose entries are numbered one by one from the index of the snapshot.
use my.Prelude.{
  ℕ, zero, suc, ◌+◌, ◌-◌, ◌≤◌, ◌<◌, ◌≡◌, true, some, List, [], ◌∷◌, ◌++◌, arith, length, get_elem?,
  get_or, drop, length-append, get_or-append_self, get_elem?-eq_some,
}
use my.Raft.State.{Raft, LogEntry, zero_entry}
use my.Raft.Log.{get_last_log, get_log_entry, convert_to_physic_idx}

module _ {C : Type 0} where
  abbrev pub IndexedFrom : ℕ → List (LogEntry C) → Type 0
  IndexedFrom base [] = Unit
  IndexedFrom base (e ∷ es) = (e.index ≡ base) × IndexedFrom (base + 1) es

  -- The log has an entry for the snapshot, and its entries are numbered from there.
  pub record IsIndexed (rf : Raft C) : Type 0 where
    pub nonempty : 0 < length rf.log
    pub indexed : IndexedFrom rf.last_included_index rf.log

  pub IndexedFrom-append :
      (base : ℕ) (xs ys : List (LogEntry C))
      → IndexedFrom base xs
      → IndexedFrom (base + length xs) ys
      → IndexedFrom base (xs ++ ys)
  IndexedFrom-append base [] ys hx hy = let e : base + 0 ≡ base = omega arith in rw (e) at hy
  IndexedFrom-append base (x ∷ xs) ys hx hy =
      let e : base + suc (length xs) ≡ base + 1 + length xs = omega arith in
      (hx.0, IndexedFrom-append (base + 1) xs ys hx.1 (rw e at hy))

  pub IndexedFrom-left :
      (base : ℕ) (xs ys : List (LogEntry C)) → IndexedFrom base (xs ++ ys) → IndexedFrom base xs
  IndexedFrom-left base [] ys h = tt
  IndexedFrom-left base (x ∷ xs) ys h = (h.0, IndexedFrom-left (base + 1) xs ys h.1)

  pub IndexedFrom-right :
      (base : ℕ) (xs ys : List (LogEntry C))
      → IndexedFrom base (xs ++ ys)
      → IndexedFrom (base + length xs) ys
  IndexedFrom-right base [] ys h = let e : base + 0 ≡ base = omega arith in rw e h
  IndexedFrom-right base (x ∷ xs) ys h =
      let e : base + suc (length xs) ≡ base + 1 + length xs = omega arith in
      rw e (IndexedFrom-right (base + 1) xs ys h.1)

  pub IndexedFrom-drop :
      (base k : ℕ) (xs : List (LogEntry C))
      → k ≤ length xs
      → IndexedFrom base xs
      → IndexedFrom (base + k) (drop k xs)
  IndexedFrom-drop base zero xs h i = let e : base + 0 ≡ base = omega arith in rw e i
  IndexedFrom-drop base (suc k) [] h i = tt
  IndexedFrom-drop base (suc k) (x ∷ xs) h i =
      let e : base + suc k ≡ base + 1 + k = omega arith in
      rw e (IndexedFrom-drop (base + 1) k xs (omega arith) i.1)

  -- The index of an entry is its place in the log.
  pub index-get_elem? :
      (base i : ℕ) (xs : List (LogEntry C)) {e : LogEntry C}
      → IndexedFrom base xs
      → get_elem? xs i ≡ some e
      → e.index ≡ base + i
  index-get_elem? base i [] h p = cc
  index-get_elem? base zero (x ∷ xs) h p = ground arith
  index-get_elem? base (suc i) (x ∷ xs) h p = omega (arith, index-get_elem? (base + 1) i xs h.1 p)

  pub index-get_last_log :
      (rf : Raft C) {last : LogEntry C}
      → IsIndexed rf
      → get_last_log rf ≡ some last
      → last.index + 1 ≡ rf.last_included_index + length rf.log
  unfolding get_last_log
  index-get_last_log rf h p =
      omega (arith, index-get_elem? rf.last_included_index (length rf.log - 1) rf.log h.indexed p)

  pub get_last_log-total :
      (rf : Raft C) → 0 < length rf.log → (e : LogEntry C) × (get_last_log rf ≡ some e)
  unfolding get_last_log
  get_last_log-total rf h = (
    get_or rf.log (length rf.log - 1) zero_entry,
    get_elem?-eq_some rf.log (length rf.log - 1) zero_entry (omega arith),
  )

  pub get_log_entry-split :
      (rf : Raft C) (i : ℕ) (pre : List (LogEntry C)) (c : LogEntry C) (suf : List (LogEntry C))
      → rf.log ≡ pre ++ c ∷ suf
      → i ≡ rf.last_included_index + length pre
      → get_log_entry rf i ≡ (c, true)
  unfolding get_log_entry
  get_log_entry-split rf i pre c suf e p =
      ground (arith, length-append pre (c ∷ suf), get_or-append_self pre c suf zero_entry)

  pub convert_to_physic_idx-split :
      (rf : Raft C) (i : ℕ) (pre : List (LogEntry C)) (c : LogEntry C) (suf : List (LogEntry C))
      → rf.log ≡ pre ++ c ∷ suf
      → i ≡ rf.last_included_index + length pre
      → convert_to_physic_idx rf i ≡ (length pre, true)
  unfolding convert_to_physic_idx
  convert_to_physic_idx-split rf i pre c suf e p = ground (arith, length-append pre (c ∷ suf))
