-- ===== src/Examples/Peers.antt =====
-- Concrete peers of raft1/raft.go.
use my.Prelude.{ℕ, false, none, some, [], ◌∷◌, refl, arith}
use my.Raft.State.{Raft, LogEntry, Clock, leader, follower, zero_entry}
use my.Raft.Log.Indexed.{IsIndexed}

abbrev pub entry : ℕ → ℕ → LogEntry ℕ
entry term index = record { command = some index; term = term; index = index }

abbrev pub clock : Clock
clock = record { now = 1_000; random = 77 }

-- A follower in term 2 with two entries, of the terms 1 and 2.
abbrev pub follower_peer : Raft ℕ
follower_peer = record {
  peers = 3;
  me = 1;
  dead = false;
  mu = false;
  persister = record { raftstate = []; snapshot = [] };
  current_term = 2;
  voted_for = none;
  log = zero_entry ∷ entry 1 1 ∷ entry 2 2 ∷ [];
  state = follower;
  majority = 2;
  commit_index = 0;
  last_applied = 0;
  last_contect = 0;
  election_timeout = 0;
  next_index = 1 ∷ 1 ∷ 1 ∷ [];
  match_index = 0 ∷ 0 ∷ 0 ∷ [];
  apply_cond = false;
  last_included_index = 0;
  last_included_term = 0;
}

pub follower_peer-IsIndexed : IsIndexed follower_peer
follower_peer-IsIndexed = record { nonempty = omega arith; indexed = (refl, (refl, (refl, tt))) }

-- The leader of term 3, with three entries.
abbrev pub leader_peer : Raft ℕ
leader_peer = record follower_peer {
  me = 0;
  current_term = 3;
  voted_for = some 0;
  state = leader;
  log = zero_entry ∷ entry 1 1 ∷ entry 1 2 ∷ entry 3 3 ∷ [];
  next_index = 4 ∷ 2 ∷ 4 ∷ [];
  match_index = 3 ∷ 0 ∷ 3 ∷ [];
}

pub leader_peer-IsIndexed : IsIndexed leader_peer
leader_peer-IsIndexed = record {
  nonempty = omega arith;
  indexed = (refl, (refl, (refl, (refl, tt))));
}
