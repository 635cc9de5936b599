-- ===== src/Raft/State.antt =====
-- The state of one peer (`type Raft struct` of raft1/raft.go, `Persister` of tester1/persister.go)
-- and the helpers that every handler calls: `resetTimer`, `EncodeRaftState`, `persist`.
use my.Prelude.{ℕ, ◌+◌, ◌*◌, ◌%◌, Bool, true, false, Option, none, List, []}

-- `const ( Leader = iota; Candidate; Follower )`
pub data State : Type 0 where
  leader candidate follower : State

abbrev pub election_timeout_lower_bound : ℕ
election_timeout_lower_bound = 300

abbrev pub election_timeout_range : ℕ
election_timeout_range = 200

-- A `time.Duration` counts nanoseconds.
abbrev pub millisecond : ℕ
millisecond = 1_000_000

abbrev pub heart_beat_interval : ℕ
heart_beat_interval = 50 * millisecond

-- A peer that has voted for nobody (`NotVoted = -1`); a vote is a peer's index.
abbrev pub not_voted : Option ℕ
not_voted = none

-- A `[]byte`.
abbrev pub Bytes : Type 0
Bytes = List ℕ

-- A command is an `interface{}`: a value of the service's type, or nil.
pub record LogEntry (C : Type 0) : Type 0 where
  pub command : Option C
  pub term : ℕ
  pub index : ℕ

-- The five values that `EncodeRaftState` encodes, in its order.
pub record PersistentState (C : Type 0) : Type 0 where
  pub current_term : ℕ
  pub voted_for : Option ℕ
  pub log : List (LogEntry C)
  pub last_included_index : ℕ
  pub last_included_term : ℕ

-- The encoder and the decoder of `encoding/gob`, behind labgob.
pub record Gob (C : Type 0) : Type 0 where
  pub encode : PersistentState C → Bytes
  pub decode : Bytes → Option (PersistentState C)

pub record Persister : Type 0 where
  pub raftstate : Bytes
  pub snapshot : Bytes

unfoldable pub make_persister : Persister
make_persister = record { raftstate = []; snapshot = [] }

-- `Save` replaces both byte strings at once.
abbrev pub save : Persister → Bytes → Bytes → Persister
save ps raftstate snapshot = record ps { raftstate = raftstate; snapshot = snapshot }

pub record Raft (C : Type 0) : Type 0 where
  pub peers : ℕ  -- len(rf.peers)
  pub me : ℕ
  pub dead : Bool
  pub mu : Bool  -- whether a critical section that has ended left the mutex locked
  pub persister : Persister
  pub current_term : ℕ
  pub voted_for : Option ℕ
  pub log : List (LogEntry C)
  pub state : State
  pub majority : ℕ
  pub commit_index : ℕ
  pub last_applied : ℕ
  pub last_contect : ℕ
  pub election_timeout : ℕ
  pub next_index : List ℕ
  pub match_index : List ℕ
  pub apply_cond : Bool  -- whether the applier sleeps in `applyCond.Wait()`
  pub last_included_index : ℕ
  pub last_included_term : ℕ

-- What `resetTimer` reads: `time.Now()` and `rand.Int63()`.
pub record Clock : Type 0 where
  pub now : ℕ
  pub random : ℕ

abbrev pub is_leader : State → Bool
is_leader leader = true
is_leader _ = false

abbrev pub is_candidate : State → Bool
is_candidate candidate = true
is_candidate _ = false

module _ {C : Type 0} where
  abbrev pub zero_entry : LogEntry C
  zero_entry = record { command = none; term = 0; index = 0 }

  unfoldable pub get_state : Raft C → ℕ × Bool
  get_state rf = (rf.current_term, is_leader rf.state)

  unfoldable pub reset_timer : Clock → Raft C → Raft C
  reset_timer clock rf =
      let ms = election_timeout_lower_bound + clock.random % election_timeout_range in
      record rf { last_contect = clock.now; election_timeout = ms * millisecond }

  -- `applyCond.Signal()` and `Broadcast()`: the applier is the only one that waits.
  abbrev pub signal : Raft C → Raft C
  signal rf = record rf { apply_cond = false }

  abbrev pub persistent : Raft C → PersistentState C
  persistent rf = record {
    current_term = rf.current_term;
    voted_for = rf.voted_for;
    log = rf.log;
    last_included_index = rf.last_included_index;
    last_included_term = rf.last_included_term;
  }

  unfoldable pub encode_raft_state : Gob C → Raft C → Bytes
  encode_raft_state gob rf = gob.encode (persistent rf)

  unfoldable pub persist : Gob C → Raft C → Raft C
  unfolding encode_raft_state
  persist gob rf = record rf {
    persister = save rf.persister (encode_raft_state gob rf) rf.persister.snapshot;
  }
