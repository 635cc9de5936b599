-- ===== src/Kv/Rsm/Calls.antt =====
-- The calls of `Submit` of one server and its reader, in any order of their critical sections
-- (kvraft1/rsm/rsm.go).
pub mod Clean
pub mod Kept
pub mod Read
pub mod Answers
use my.Prelude.{
  ℕ, ◌+◌, ◌<◌, ◌≤◌, ◌≡◌, Bool, true, false, Option, none, some, List, [], ◌∷◌, if◌then◌else◌,
}
use my.Prelude.Maps.{Map, empty, insert, remove, nat_eq}
use my.Raft.Applier.{ApplyMsg, command_msg, snapshot_msg}
use my.Kv.Rpc.{Err}
use my.Kv.Rsm.{
  Op, OpResult, RaftApi, StateMachine, Rsm, submit_begin, submit_start, submit_receive, submit_tick,
  submit_timeout, op_of, reader_step, kill,
}

-- A call of `Submit` that has its operation and its channel; `term` is none until `Start` has
-- returned.
pub record Call (R : Type 0) : Type 0 where
  pub op : Op R
  pub ch : ℕ
  pub term : Option ℕ

-- An operation that `DoOp` was given, and the state machine before it.
pub record Applied (S R : Type 0) : Type 0 where
  pub op : Op R
  pub before : S

-- The server, its calls that have not returned, and the history of its state machine, which no step
-- reads.
pub record Server (F S R V : Type 0) : Type 0 where
  pub rsm : Rsm F S V
  pub calls : Map ℕ (Call R)
  pub applied : List (Applied S R)

module _ {F S R V : Type 0} where
  abbrev pub after_begin : Server F S R V → ℕ → Rsm F S V × Option (Op R × ℕ) → Server F S R V
  after_begin s k (rsm, none) = record s { rsm = rsm }
  after_begin s k (rsm, some (op, ch)) = record s {
    rsm = rsm;
    calls = insert k (record { op = op; ch = ch; term = none }) s.calls;
  }

  abbrev pub after_start : Server F S R V → ℕ → Call R → Rsm F S V × Option ℕ → Server F S R V
  after_start s k call (rsm, none) = record s { rsm = rsm; calls = remove k s.calls }
  after_start s k call (rsm, some term) = record s {
    rsm = rsm;
    calls = insert k (record call { term = some term }) s.calls;
  }

  -- The call `k` returns.
  abbrev pub returned : Server F S R V → ℕ → Rsm F S V → Server F S R V
  returned s k rsm = record s { rsm = rsm; calls = remove k s.calls }

abbrev pub record_msg :
    {S R V : Type 0}
    → StateMachine S R V
    → List (Applied S R)
    → S
    → ApplyMsg (Op R)
    → List (Applied S R)
record_msg machine applied sm (command_msg command term index) =
    record { op = op_of machine command; before = sm } ∷ applied
record_msg machine applied sm (snapshot_msg snapshot term index) = applied

module _ {F S R V : Type 0} (api : RaftApi F (Op R)) (machine : StateMachine S R V) where
  pub data Turn (s : Server F S R V) : Server F S R V → Type 0 where
    begun :
        (k now : ℕ) (req : R)
        → s.calls k ≡ none
        → Turn s (after_begin s k (submit_begin now s.rsm req))
    started :
        (k : ℕ) (call : Call R) (out : Rsm F S V × Option ℕ)
        → s.calls k ≡ some call
        → call.term ≡ none
        → submit_start api s.rsm call.op ≡ some out
        → Turn s (after_start s k call out)
    received :
        (k term : ℕ) (call : Call R) (rsm : Rsm F S V) (out : Err × Option V)
        → s.calls k ≡ some call
        → call.term ≡ some term
        → submit_receive s.rsm call.op call.ch ≡ some (rsm, out)
        → Turn s (returned s k rsm)
    ticked :
        (k term : ℕ) (call : Call R) (rsm : Rsm F S V) (out : Err × Option V)
        → s.calls k ≡ some call
        → call.term ≡ some term
        → submit_tick api s.rsm call.op term ≡ some (rsm, out)
        → Turn s (returned s k rsm)
    timed_out :
        (k term : ℕ) (call : Call R)
        → s.calls k ≡ some call
        → call.term ≡ some term
        → Turn s (returned s k (submit_timeout s.rsm call.op).0)
    read :
        (msg : ApplyMsg (Op R)) (rsm : Rsm F S V)
        → reader_step api machine s.rsm msg ≡ some rsm
        → Turn s (record s { rsm = rsm; applied = record_msg machine s.applied s.rsm.sm msg })
    raft_moved : (rf : F) → Turn s (record s { rsm = record s.rsm { rf = rf } })
    stopped : Turn s (record s { rsm = kill api s.rsm })

  pub data Reach (s : Server F S R V) : Server F S R V → Type 0 where
    here : Reach s s
    later : {s' s'' : Server F S R V} → Reach s s' → Turn s' s'' → Reach s s''

-- A server as `MakeRSM` leaves it.
pub record IsInitial {F S R V : Type 0} (s : Server F S R V) : Type 0 where
  pub notify_ch : (id : ℕ) → s.rsm.notify_ch id ≡ none
  pub chans : (ch : ℕ) → s.rsm.chans ch ≡ []
  pub calls : (k : ℕ) → s.calls k ≡ none
