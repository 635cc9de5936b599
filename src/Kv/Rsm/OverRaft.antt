-- ===== src/Kv/Rsm/OverRaft.antt =====
-- What kvraft1/rsm/rsm.go is put together with: the peer of raft1/raft.go as its `raftapi.Raft`, and
-- the server of kvraft1/server.go as its state machine.
use my.Prelude.{ℕ, length}
use my.Raft.State.{Raft, Gob, get_state}
use my.Raft.Replicate.{start}
use my.Raft.Snapshots.{snapshot_at}
use my.Raft.Applier.{kill}
use my.Kv.Replicated.{KvServer, Req, Reply, unknown, do_op, snapshot, restore}
use my.Kv.Replicated.{Gob as KvGob}
use my.Kv.Rsm.{RaftApi, StateMachine}

-- `rf.persister.RaftStateSize()`
unfoldable pub persist_bytes : {C : Type 0} → Raft C → ℕ
persist_bytes rf = length rf.persister.raftstate

unfoldable pub raft_api : {C : Type 0} → Gob C → RaftApi (Raft C) C
raft_api gob = record {
  start = start gob;
  get_state = get_state;
  snapshot = snapshot_at gob;
  persist_bytes = persist_bytes;
  kill = kill;
}

-- A request of type nil is of no known type.
unfoldable pub kv_machine : KvGob → StateMachine KvServer Req Reply
kv_machine gob = record {
  zero_req = unknown;
  do_op = do_op;
  snapshot = snapshot gob;
  restore = λ kv bytes. restore gob bytes;
}
