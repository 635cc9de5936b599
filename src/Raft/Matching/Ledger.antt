-- ===== src/Raft/Matching/Ledger.antt =====
-- The logs of the peers against the logs of the leaders of each term (raft1/raft.go).
use my.Prelude.{ℕ, ◌≤◌, ◌<◌, ◌≡◌, ◌⊎◌, true, false, some, List, [], ◌∷◌, ◌++◌}
use my.Prelude.Maps.{Map, nat_eq}
use my.Raft.State.{Raft, LogEntry, leader, follower, Gob, is_leader, is_candidate}
use my.Raft.Log.Indexed.{IsIndexed}
use my.Raft.Cluster.{Vote}
use my.Raft.Cluster.Ballots.{Elected}
use my.Raft.Matching.Fits.{Log, Fits}
use my.Raft.Matching.Saved.{IsSaved}

module _ {C : Type 0} where
  pub record IsSound (gob : Gob C) (rf : Raft C) : Type 0 where
    pub base : rf.last_included_index ≡ 0
    pub indexed : IsIndexed rf
    pub saved : IsSaved gob rf
    pub role : (rf.state ≡ follower) ⊎ (0 < rf.current_term)

  -- A leader of the term, which is no candidate in it any more.
  pub record HasLed (n : ℕ) (peers : ℕ → Raft C) (votes : List Vote) (t : ℕ) : Type 0 where
    pub peer : ℕ
    pub below : peer < n
    pub elected : Elected n votes peer t
    pub past : t ≤ (peers peer).current_term
    pub over : (peers peer).current_term ≡ t → is_candidate (peers peer).state ≡ false

  pub record Ledger (gob : Gob C) (n : ℕ) (peers : ℕ → Raft C) (votes : List Vote)
      (led : Map ℕ (Log C)) : Type 0 where
    pub sound : (i : ℕ) → i < n → IsSound gob (peers i)
    pub fits : (i : ℕ) → i < n → Fits led (peers i).log
    pub ledgers : (t : ℕ) (log : Log C) → led t ≡ some log → Fits led log
    pub leaders :
        (i : ℕ)
        → i < n
        → is_leader (peers i).state ≡ true
        → led (peers i).current_term ≡ some (peers i).log
    pub history : (t : ℕ) (log : Log C) → led t ≡ some log → (t ≡ 0) ⊎ HasLed n peers votes t

  -- A leader's log with one more entry, of its term.
  pub record Extends (rf rf' : Raft C) : Type 0 where
    pub entry : LogEntry C
    pub log : rf'.log ≡ rf.log ++ entry ∷ []
    pub term : entry.term ≡ rf'.current_term
    pub state : rf'.state ≡ leader

  -- How a step changes the log.
  pub record Changed (led : Map ℕ (Log C)) (rf rf' : Raft C) : Type 0 where
    pub indexed : IsIndexed rf'
    pub base : rf'.last_included_index ≡ 0
    pub how : (rf'.log ≡ rf.log) ⊎ ((rf'.state ≡ follower) × Fits led rf'.log) ⊎ Extends rf rf'
