-- ===== src/Raft/Startup.antt =====
-- `Make` and `readPersist` (raft1/raft.go): a peer that starts, for the first time or after a crash.
pub mod Recovery
use my.Prelude.{
  ℕ, ◌+◌, ◌/◌, Bool, true, false, Option, none, some, List, [], ◌∷◌, ltb, if◌then◌else◌, ◌>>=◌,
  length, replicate,
}
use my.Raft.State.{
  Raft, Gob, Clock, Persister, PersistentState, State, follower, not_voted, zero_entry, reset_timer,
}

module _ {C : Type 0} where
  abbrev restore : Raft C → PersistentState C → Raft C
  restore rf p = record rf {
    current_term = p.current_term;
    voted_for = p.voted_for;
    log = p.log;
    last_included_index = p.last_included_index;
    last_included_term = p.last_included_term;
  }

  -- `none` is the `log.Fatal` for bytes that do not decode.
  unfoldable pub read_persist : Gob C → Raft C → Option (Raft C)
  read_persist gob rf =
      if ltb (length rf.persister.raftstate) 1
      then some rf
      else do p ← gob.decode rf.persister.raftstate; some (restore rf p)

  -- The fields before `readPersist`.
  abbrev pub fresh : ℕ → ℕ → Persister → Raft C
  fresh peers me persister = record {
    peers = peers;
    me = me;
    dead = false;
    mu = false;
    persister = persister;
    current_term = 0;
    voted_for = not_voted;
    log = zero_entry ∷ [];
    state = follower;
    majority = peers / 2 + 1;
    commit_index = 0;
    last_applied = 0;
    last_contect = 0;
    election_timeout = 0;
    next_index = replicate peers 0;
    match_index = replicate peers 0;
    apply_cond = false;
    last_included_index = 0;
    last_included_term = 0;
  }

  unfoldable pub make : Gob C → Clock → ℕ → ℕ → Persister → Option (Raft C)
  unfolding read_persist reset_timer
  make gob clock peers me persister =
      read_persist gob (reset_timer clock (fresh peers me persister))
