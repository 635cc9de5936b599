-- ===== src/Examples/Rsm.antt =====
-- `Submit` and the reader of kvraft1/rsm/rsm.go over a peer of raft1/raft.go, with a sum as the state
-- machine.
use my.Prelude.{
  ◌==◌, if◌then◌else◌, ℕ, ◌+◌, ◌^◌, ◌<◌, ◌≡◌, ◌≢◌, refl, Option, none, some, List, [], ◌∷◌, ◌++◌,
  arith,
}
use my.Prelude.Maps.{empty, insert, remove, nat_eq}
use my.Raft.State.{Raft, Gob, Bytes, leader, persist, make_persister}
use my.Raft.Log.{get_last_log}
use my.Raft.Replicate.{start}
use my.Raft.Startup.{fresh}
use my.Raft.Applier.{ApplyMsg, command_msg, snapshot_msg}
use my.Kv.Rpc.{Err, ok}
use my.Kv.Rsm.{
  Op, OpResult, RaftApi, StateMachine, Rsm, op_id, killed, generate_op_id, submit_begin, submit_end,
  submit_start, submit_receive, notify, reader_step, reader, make_rsm,
}
use my.Kv.Rsm.OverRaft.{raft_api}
use my.Kv.Rsm.Ids.{begins, submit_begin-distinct}
use my.Kv.Rsm.Replicas.{replicas_agree}
use my.Kv.Rsm.Calls.{
  after_begin, Call, Server, Turn, Reach, here, later, begun, started, read, IsInitial,
}
use my.Kv.Rsm.Calls.Clean.{IsValueOf}
use my.Kv.Rsm.Calls.Answers.{submit-answers, reader-unblocked}

abbrev C : Type 0
C = Op ℕ

-- An encoder that stores nothing.
abbrev no_gob : Gob C
no_gob = record { encode = λ p. []; decode = λ bytes. none }

abbrev restore_sum : Bytes → Option ℕ
restore_sum [] = none
restore_sum (n ∷ rest) = some n

-- Every operation adds its request and returns the sum.
abbrev sum_machine : StateMachine ℕ ℕ ℕ
sum_machine = record {
  zero_req = 0;
  do_op = λ sum n. (sum + n, sum + n);
  snapshot = λ sum. sum ∷ [];
  restore = λ sum bytes. restore_sum bytes;
}

abbrev api : RaftApi (Raft C) C
api = raft_api no_gob

abbrev rf : Raft C
rf = record (fresh 1 0 make_persister) { state = leader; current_term = 4 }

abbrev new_rsm : Rsm (Raft C) ℕ ℕ
new_rsm = record {
  me = 0;
  rf = rf;
  maxraftstate = none;
  sm = 0;
  notify_ch = empty;
  chans = λ c. [];
  next_chan = 0;
  dead = 0;
  seqid = 0;
}

made : make_rsm sum_machine rf 0 [] none 0 ≡ some new_rsm
unfolding make_rsm
made = refl

abbrev new_server : Server (Raft C) ℕ ℕ ℕ
new_server = record { rsm = new_rsm; calls = empty; applied = [] }

new_server-IsInitial : IsInitial new_server
new_server-IsInitial = record { notify_ch = λ id. refl; chans = λ ch. refl; calls = λ k. refl }

abbrev op : Op ℕ
op = record { id = op_id 5 1; me = 0; req = 7 }

abbrev begun_rsm : Rsm (Raft C) ℕ ℕ
begun_rsm = record new_rsm { seqid = 1; notify_ch = insert (op_id 5 1) 0 empty; next_chan = 1 }

begins_first : submit_begin 5 new_rsm 7 ≡ (begun_rsm, some (op, 0))
unfolding submit_begin killed generate_op_id op_id
begins_first = refl

abbrev begun_server : Server (Raft C) ℕ ℕ ℕ
begun_server = record {
  rsm = begun_rsm;
  calls = insert 0 (record { op = op; ch = 0; term = none }) empty;
  applied = [];
}

first_begun : Turn api sum_machine new_server begun_server
unfolding submit_begin killed generate_op_id op_id
first_begun = begun 0 5 7 refl

abbrev started_rf : Raft C
started_rf =
    persist no_gob
      (record rf { log = rf.log ++ record { command = some op; term = 4; index = 1 } ∷ [] })

abbrev started_rsm : Rsm (Raft C) ℕ ℕ
started_rsm = record begun_rsm { rf = started_rf }

starts : submit_start api begun_rsm op ≡ some (started_rsm, some 4)
unfolding submit_start raft_api start get_last_log persist
starts = refl

abbrev call : Call ℕ
call = record { op = op; ch = 0; term = some 4 }

abbrev started_server : Server (Raft C) ℕ ℕ ℕ
started_server = record begun_server { rsm = started_rsm; calls = insert 0 call begun_server.calls }

abbrev result : OpResult ℕ
result = record { value = 7; term = 4; op_id = op_id 5 1 }

abbrev read_rsm : Rsm (Raft C) ℕ ℕ
read_rsm = record started_rsm {
  sm = 7;
  chans = λ c. if◌then◌else◌ (0 == c) (result ∷ []) [];
  notify_ch = remove (op_id 5 1) started_rsm.notify_ch;
}

reads : reader_step api sum_machine started_rsm (command_msg (some op) 4 1) ≡ some read_rsm
unfolding reader_step notify op_id
reads = refl

abbrev read_server : Server (Raft C) ℕ ℕ ℕ
read_server = record started_server {
  rsm = read_rsm;
  applied = record { op = op; before = 0 } ∷ [];
}

runs : Reach api sum_machine new_server read_server
runs =
    later
      (later (later here first_begun) (
        started 0 (record { op = op; ch = 0; term = none }) (started_rsm, some 4) refl refl starts))
      (read (command_msg (some op) 4 1) read_rsm reads)

abbrev received_rsm : Rsm (Raft C) ℕ ℕ
received_rsm =
    submit_end (record read_rsm { chans = λ c. if◌then◌else◌ (0 == c) [] (read_rsm.chans c) }) op

receives : submit_receive read_rsm op 0 ≡ some (received_rsm, (ok, some 7))
unfolding submit_receive
receives = ground arith

submit-answers_example :
    (v : ℕ) × ◌≡◌ {A = Err × Option ℕ} (ok, some 7) (ok, some v)
    × IsValueOf sum_machine op.id v read_server.applied
submit-answers_example =
    submit-answers api sum_machine new_server read_server 0 call received_rsm (ok, some 7)
      new_server-IsInitial runs refl receives

reader-unblocked_example :
    (rsm : Rsm (Raft C) ℕ ℕ) × (reader_step api sum_machine read_rsm (command_msg (some op) 4 2)
      ≡ some rsm)
reader-unblocked_example =
    reader-unblocked api sum_machine new_server read_server (some op) 4 2 new_server-IsInitial runs

-- The call goes on, and then another one begins.
goes_on : Reach api sum_machine (after_begin new_server 0 (submit_begin 5 new_rsm 7)) read_server
unfolding submit_begin killed generate_op_id op_id
goes_on =
    later
      (later here (
        started 0 (record { op = op; ch = 0; term = none }) (started_rsm, some 4) refl refl starts))
      (read (command_msg (some op) 4 1) read_rsm reads)

abbrev next_op : Op ℕ
next_op = record { id = op_id 3 2; me = 0; req = 8 }

abbrev next_rsm : Rsm (Raft C) ℕ ℕ
next_rsm = record read_rsm {
  seqid = 2;
  notify_ch = insert (op_id 3 2) 1 read_rsm.notify_ch;
  next_chan = 2;
}

begins_next : submit_begin 3 read_rsm 8 ≡ (next_rsm, some (next_op, 1))
unfolding submit_begin killed generate_op_id op_id
begins_next = refl

few_begin : begins api sum_machine goes_on + 1 < 2 ^ 20
unfolding goes_on
few_begin = omega arith

submit_begin-distinct_example : op_id 5 1 ≢ op_id 3 2
submit_begin-distinct_example =
    submit_begin-distinct api sum_machine new_server read_server 0 5 3 7 8 op next_op 0 1 begun_rsm
      next_rsm begins_first goes_on few_begin begins_next

abbrev msgs : List (ApplyMsg (Op ℕ))
msgs = command_msg (some op) 4 1 ∷ []

replicas_agree_example :
    (ra rb : Rsm (Raft C) ℕ ℕ) × (reader api sum_machine read_rsm (msgs ++ msgs) ≡ some ra)
    × (reader api sum_machine new_rsm (snapshot_msg (sum_machine.snapshot 14) 4 1 ∷ msgs) ≡ some rb)
    × (ra.sm ≡ 21)
    × (rb.sm ≡ 21)
replicas_agree_example =
    replicas_agree api api sum_machine new_server read_server new_server new_server msgs msgs 14 21
      4 1 (λ old. refl) new_server-IsInitial runs new_server-IsInitial here refl refl
