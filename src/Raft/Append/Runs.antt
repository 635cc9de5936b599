-- ===== src/Raft/Append/Runs.antt =====
-- Where the run of entries of one term begins, which `checkLogConsistency` looks for.
use my.Prelude.{
  ℕ, zero, suc, ◌+◌, ◌-◌, ◌≤◌, ◌<◌, ◌≡◌, ◌≢◌, ◌⊎◌, inl, inr, refl, ==→≡, false, List, arith, length,
  Bool-cases, get_or, ◌==◌, if◌then◌else◌,
}
use native.Mathlib.Decide.{dec_le}
use my.Raft.State.{Raft, LogEntry, zero_entry}
use my.Raft.Log.{get_log_entry}
use my.Raft.Append.{first_index_of_term}

module _ {C : Type 0} where
  -- The term that a log from the index `base` on has at a logical index.
  abbrev pub term_at : ℕ → List (LogEntry C) → ℕ → ℕ
  term_at base log i = (get_or log (i - base) zero_entry).term

  -- `first` is where the run of entries of the term that ends at `n` begins.
  pub record IsRunStart (base : ℕ) (log : List (LogEntry C)) (t n first : ℕ) : Type 0 where
    pub lower : base ≤ first
    pub upper : first ≤ n
    pub run : (j : ℕ) → first ≤ j → j ≤ n → term_at base log j ≡ t
    pub start : (first ≡ base) ⊎ (term_at base log (first - 1) ≢ t)

  first_index-step :
      (rf : Raft C) (t n : ℕ)
      → rf.last_included_index ≤ n
      → n < rf.last_included_index + length rf.log
      → first_index_of_term rf t (suc n) ≡ (
          if term_at rf.last_included_index rf.log n == t
          then first_index_of_term rf t n
          else suc n)
  unfolding first_index_of_term get_log_entry
  first_index-step rf t n h k = ground arith

  first_index-zero : (rf : Raft C) (t : ℕ) → first_index_of_term rf t zero ≡ zero
  unfolding first_index_of_term
  first_index-zero rf t = refl

  first_index-base :
      (rf : Raft C) (t n : ℕ)
      → n < rf.last_included_index
      → first_index_of_term rf t (suc n) ≡ suc n
  unfolding first_index_of_term get_log_entry
  first_index-base rf t n h = ground arith

  before :
      (rf : Raft C) (t n : ℕ)
      → (term_at rf.last_included_index rf.log n == t) ≡ false
      → term_at rf.last_included_index rf.log (suc n - 1) ≢ t
  before rf t n h = let e : suc n - 1 ≡ n = omega arith in rw e (λ p. ground arith)

  IsRunStart-here :
      (rf : Raft C) (t n : ℕ)
      → rf.last_included_index ≤ n
      → term_at rf.last_included_index rf.log n ≡ t
      → (n ≡ rf.last_included_index) ⊎ (term_at rf.last_included_index rf.log (n - 1) ≢ t)
      → IsRunStart rf.last_included_index rf.log t n n
  IsRunStart-here rf t n h e s = record {
    lower = h;
    upper = omega arith;
    run = λ j a b. let e' : j ≡ n = omega arith in rw e' e;
    start = s;
  }

  IsRunStart-suc :
      (rf : Raft C) (t n first : ℕ)
      → IsRunStart rf.last_included_index rf.log t n first
      → term_at rf.last_included_index rf.log (suc n) ≡ t
      → IsRunStart rf.last_included_index rf.log t (suc n) first
  IsRunStart-suc rf t n first r e = record {
    lower = r.lower;
    upper = omega (arith, r.upper);
    run = λ j a b. elim (dec_le j n) [
      | yes q ↦ r.run j a q
      | no q ↦ let e' : j ≡ suc n = omega arith in rw e' e
    ];
    start = r.start;
  }

  -- From an entry of the conflicting term in the log, the loop of checkLogConsistency ends at the
  -- entry where the run of that term begins.
  pub first_index_of_term-IsRunStart :
      (rf : Raft C) (t n : ℕ)
      → rf.last_included_index ≤ n
      → n < rf.last_included_index + length rf.log
      → term_at rf.last_included_index rf.log n ≡ t
      → IsRunStart rf.last_included_index rf.log t n (first_index_of_term rf t n)
  first_index_of_term-IsRunStart rf t zero h k e =
      rw first_index-zero (IsRunStart-here rf t zero h e (inl (omega arith)))
  first_index_of_term-IsRunStart rf t (suc n) h k e = elim (dec_le rf.last_included_index n) [
    | no q ↦
        rw (first_index-base rf t n (omega arith))
          (IsRunStart-here rf t (suc n) h e (inl (omega arith)))
    | yes q ↦
        rw (first_index-step rf t n q (omega arith))
          (elim (Bool-cases (term_at rf.last_included_index rf.log n == t)) [
            | inl same ↦ rw same (
                IsRunStart-suc rf t n _
                  (first_index_of_term-IsRunStart rf t n q (omega arith) (==→≡ _ _ same)) e)
            | inr differs ↦
                rw differs (IsRunStart-here rf t (suc n) h e (inr (before rf t n differs)))
          ])
  ]
