-- ===== src/Lib.antt =====
-- The program is a set of distributed services in Go: Raft consensus (src/raft1/raft.go), a
-- key/value server with versions, its clerk and a lock on top of it (src/kvsrv1), a key/value
-- service that replicates its requests by Raft (src/kvraft1), the configurations of a sharded
-- one (src/shardkv1/shardcfg), and MapReduce with its coordinator and worker (src/mr), a
-- sequential version (src/main/mrsequential.go) and an application (src/mrapps/wc.go). Peers
-- and clients talk by RPC over a simulated network (src/labrpc) that loses, delays and reorders
-- calls, on which the tester (src/tester1) starts, connects and partitions groups of servers.
-- Raft hands committed commands to the service over a channel, and the service hands snapshots
-- to Raft.
--
-- The files and the code that they model:
--
-- - Raft/State: the struct `Raft`, `persist`, `EncodeRaftState`, `resetTimer` of
--   src/raft1/raft.go, and `Persister` of src/tester1/persister.go. Raft/Log:
--   `ConvertToPhysicIdx`, `ConvertToLogicIdx`, `GetLastLog`, `GetLogEntry`, `GetLogSlices`;
--   Raft/Log/Indexed has the invariant on the numbering of logs.
-- - Raft/Vote: `RequestVote`, `AttemptElection` with the goroutine that takes a reply
--   (`handle_vote_reply`), `BecomeLeader`.
-- - Raft/Append: `AppendEntries` and `checkLogConsistency`. Its children hold the proofs for
--   one part each: Overlay (the loop over the entries), Accepts and Handler (a call that is
--   accepted), Runs (the loop for the conflicting term), Refuses, Splice (every call) and
--   Safety.
-- - Raft/Replicate: `Start` and the goroutine of `BroadcastEntries`, cut at its RPC into
--   `prepare` and `handle_append_reply`. Raft/Commit: `updateCommitIndex`.
-- - Raft/Snapshots: `Snapshot`, `InstallSnapShot`, and `sendSnapShot` cut at its RPC.
-- - Raft/Applier: `Applier` cut where it gives up the mutex, `ticker` (one round), `Kill`.
--   Raft/Startup: `readPersist` and `Make`.
-- - Raft/Peer: all of these as the steps of one peer, a restart from the persister included.
-- - Raft/Cluster: a group of peers in an election. Its steps are those of Raft/Peer at any
--   peer, the replies that were sent, and the variables that the goroutines of one
--   `AttemptElection` share. Its children: Quorum counts members, Moves says what a step of a
--   peer leaves, Ballots and Tallies what the votes and their counts keep, Invariant joins
--   them, Leaders is about the leaders of a term.
-- - Raft/Matching: the same group as it replicates, in runs without snapshots: the calls that
--   `BroadcastEntries` prepared, which arrive in any order, more than once or never, and as
--   history the last log of each term's leader. Its children: Fits compares a log with that
--   history, Saved and Calls say what the steps and the calls leave, Ledger relates the peers
--   to the history, Onward and Steps move it on, Invariant joins them over a run, Agreement
--   compares the logs of two peers.
-- - Kv/Rpc, Kv/Server, Kv/Clerk, Kv/Lock: src/kvsrv1/rpc/rpc.go, server.go, client.go,
--   lock/lock.go. Kv/Register is the register that a key is meant to be. Kv/Lock/Holding has
--   the lock over a network that loses nothing, Unsure over one that loses replies, Own what
--   other clients leave of a register while one client's call runs, and Contended a round of
--   `Acquire` among other clients over a network that loses calls.
-- - Kv/Model: `KvModel.Step` of src/models1/kv.go. Kv/Replicated: src/kvraft1/server.go (`DoOp`
--   with its table of requests) and client.go; Kv/Replicated/Dedup is about the table, Once
--   about the clerk's `Put` against it, Reads has the clerk's `Get`.
-- - Kv/Rsm: src/kvraft1/rsm/rsm.go, `Submit` cut at its critical sections and at the cases of
--   its select, `Reader`, `generateOpId`, `Kill`, `MakeRSM`. Kv/Rsm/Calls has the calls that
--   wait at the same time and the reader as steps in any order; its children Clean, Kept and
--   Read are about the channels, and Answers about what the calls get. Kv/Rsm/Replicas is about
--   the state machines, Kv/Rsm/OverRaft fills the two interfaces with the peer and the server,
--   Kv/Rsm/Ends, Ids and Stopping are about the parts of `Submit`, the numbers and `Kill`.
-- - MapReduce/Coordinator: src/mr/coordinator.go and the messages of src/mr/rpc.go.
-- - MapReduce/Worker: the partition of a map task and the loops of a reduce task in
--   src/mr/worker.go. MapReduce/Files: the loop of `Worker` and what its tasks do to the files,
--   over a disk that is a parameter; Files/Laws says what the packages os and encoding/json do
--   when their calls succeed, Maps, Reduces and Jobs follow a job from the map tasks to the
--   lines, Reports is about what the coordinator is told.
-- - MapReduce/Sequential: `main` of src/main/mrsequential.go, over reading a file and the sort
--   as parameters; its children are about the order of values and compare it with the reduce
--   tasks. MapReduce/Apps: `Map` and `Reduce` of src/mrapps/wc.go; Apps/Count is about a job of
--   src/mr/worker.go with them.
-- - Net/Rpc: the network of src/labrpc/labrpc.go: its tables of ends and servers, `processReq`
--   with the random numbers, the timers and the handler's return as arguments, `dispatch`, and
--   `Call` around its channels; Net/Rpc/Delivery is about what a request comes to.
-- - Net/Groups: the groups of src/tester1/group.go and srv.go with `Copy` of persister.go;
--   Parts is about `MakePartition`, Links and Connections about single ends and servers,
--   Partitions and Isolation about `Partition`.
-- - Shards/Config: `ShardConfig`, `analyze` and `Rebalance` of
--   src/shardkv1/shardcfg/shardcfg.go; Config/Counts is about `analyze`, Moving about one shard
--   that moves, Balance about the loops. Shards/Check: `CheckConfig` and the lookups;
--   Shards/Membership: `Join`, `Leave` and the two calls that rebalance.
-- - Prelude: lists, tests, panics and maps that the others share. Examples: the theorems at
--   concrete states.
--
-- A function that locks the mutex is one step on the state, and one that unlocks it around an
-- RPC, a channel or a wait is one step for each critical section. So any interleaving of
-- goroutines and of messages is a sequence of steps. The arguments of a handler and the replies
-- that arrive are arbitrary; a lost call is a step that does not happen. The field `mu` tells
-- only whether a critical section ended with the mutex locked.
--
-- An `Option` is code that can panic: `none` is an index out of range, or the end of the
-- process by log.Fatal. Terms and indexes are natural numbers, since no operation makes one
-- negative, and `VotedFor = -1` is `none`; the sums of terms and indexes do not reach 2^63. A
-- `Tversion` is a uint64 and wraps around. What reads the clock or draws a random number takes
-- it as an argument. The encoder of encoding/gob is a parameter: a theorem that needs it
-- assumes that what was encoded decodes to itself and is not empty, which Examples/Codec shows
-- for one encoder.
--
-- Loops are structural: over the entries, over the peers, down from an index, over the values
-- of N. The retry loops of the clerks run over a list of what the network and the servers do
-- with each call, and an empty list is a loop that still runs; the loops of the lock run on
-- fuel, where `none` is a loop that still runs, and what is stated of their return names the
-- round in which they return. The loop of Rebalance runs on fuel too: each round takes away at
-- least one of the pairs of shards that share a group, of which 12 shards have 66 at most.
--
-- A Go map whose order matters (`Groups`) is the list of its entries in ascending order, and
-- the map that joins is a list in the order in which the loop takes it. A buffered channel is a
-- number in a store of lists, so that the table of calls and the waiting call share it. The
-- select of `Submit` is one step for each of its cases, in any order and at any time.
--
-- Not modelled: the hash sums, the sort and the names of files of src/mr/worker.go are
-- parameters, as is the disk; `String` and `FromString` of shardcfg, which are encoding/json,
-- and `Copy`, the identity on values; the other services of src/shardkv1, which are stubs;
-- labgob, a wrapper of encoding/gob, and what labrpc finds by reflection (the methods of a
-- service are a table of functions on bytes) or does with channels and delays; the rest of
-- tester1, kvtest1 and the test.go files, which start clients and check histories; the other
-- programs of main and the other applications of mrapps, which read and write files or crash on
-- purpose. The models of Raft and of the services take from the network only which calls
-- arrive: they do not use Net. The launch of goroutines, sleeping and logging have no
-- counterpart.
pub mod Prelude
pub mod Raft
pub mod Kv
pub mod MapReduce
pub mod Shards
pub mod Net
pub mod Examples
