-- ===== src/Kv/Rsm.antt =====
-- kvraft1/rsm/rsm.go: operations go through Raft to the state machine of every server, and their
-- results come back to the calls of `Submit` that wait for them.
pub mod Ids
pub mod OverRaft
pub mod Stopping
pub mod Replicas
pub mod Ends
pub mod Calls
use my.Prelude.{
  ℕ, suc, ◌+◌, ◌*◌, ◌%◌, ◌^◌, Bool, true, false, not, ◌&&◌, ◌||◌, Option, none, some, List, [], ◌∷◌,
  ◌++◌, ltb, leb, ◌==◌, if◌then◌else◌, ◌>>=◌, length,
}
use my.Prelude.Maps.{Map, empty, insert, remove, nat_eq}
use my.Raft.State.{Bytes}
use my.Raft.Replicate.{Started}
use my.Raft.Applier.{ApplyMsg, command_msg, snapshot_msg}
use my.Kv.Rpc.{Err, ok, err_wrong_leader, err_time_out}

pub record Op (R : Type 0) : Type 0 where
  pub id : ℕ
  pub me : ℕ
  pub req : R

pub record OpResult (V : Type 0) : Type 0 where
  pub value : V
  pub term : ℕ
  pub op_id : ℕ

-- The interface of raftapi/raftapi.go. `none` is a run-time panic; what `Start` returns is none for
-- a peer that is not the leader.
pub record RaftApi (F C : Type 0) : Type 0 where
  pub start : F → C → Option (F × Started)
  pub get_state : F → ℕ × Bool
  pub snapshot : F → ℕ → Bytes → F
  pub persist_bytes : F → ℕ
  pub kill : F → F

-- The interface that the server implements. `zero_req` is the request of the zero value of `Op`, and
-- `none` is a `Restore` that ends the program.
pub record StateMachine (S R V : Type 0) : Type 0 where
  pub zero_req : R
  pub do_op : S → R → S × V
  pub snapshot : S → Bytes
  pub restore : S → Bytes → Option S

-- A channel is a number, which `notify_ch` and the waiting call share; `chans` is what is in it.
-- `none` for `maxraftstate` is -1.
pub record Rsm (F S V : Type 0) : Type 0 where
  pub me : ℕ
  pub rf : F
  pub maxraftstate : Option ℕ
  pub sm : S
  pub notify_ch : Map ℕ ℕ
  pub chans : ℕ → List (OpResult V)
  pub next_chan : ℕ  -- the channels from here on are not made yet
  pub dead : ℕ
  pub seqid : ℕ

-- The capacity of a channel of `Submit`.
abbrev pub chan_size : ℕ
chan_size = 1

-- `(now << 20) | (seqId & 0xFFFFF)` in 64 bits: the low 20 bits of the first are zero.
unfoldable pub op_id : ℕ → ℕ → ℕ
op_id now seqid = (now * 2 ^ 20) % 2 ^ 64 + seqid % 2 ^ 20

abbrev pub is_large : Option ℕ → ℕ → Bool
is_large none bytes = false
is_large (some maxraftstate) bytes = leb maxraftstate bytes

-- `case result := <-ch`, which is ready when something is in the channel: the answer of the call.
abbrev pub submit_result : {R V : Type 0} → Op R → OpResult V → Err × Option V
submit_result op result =
    if result.op_id == op.id then (ok, some result.value) else (err_wrong_leader, none)

module _ {F S V : Type 0} where
  unfoldable pub killed : Rsm F S V → Bool
  killed rsm = rsm.dead == 1

  unfoldable pub generate_op_id : ℕ → Rsm F S V → Rsm F S V × ℕ
  unfolding op_id
  generate_op_id now rsm =
      let seqid = (rsm.seqid + 1) % 2 ^ 64 in (record rsm { seqid = seqid }, op_id now seqid)

  -- `Submit` up to the call of `Start`: the new operation and its channel, or none if it refuses.
  unfoldable pub submit_begin : {R : Type 0} → ℕ → Rsm F S V → R → Rsm F S V × Option (Op R × ℕ)
  unfolding killed generate_op_id
  submit_begin now rsm req =
      if killed rsm
      then (rsm, none)
      else (let (rsm', id) = generate_op_id now rsm in
          let op : Op _ = record { id = id; me = rsm.me; req = req } in
          let ch = rsm.next_chan in
          (
            record rsm' { notify_ch = insert id ch rsm'.notify_ch; next_chan = suc ch },
            some (op, ch),
          ))

  -- The deferred function.
  unfoldable pub submit_end : {R : Type 0} → Rsm F S V → Op R → Rsm F S V
  submit_end rsm op = record rsm { notify_ch = remove op.id rsm.notify_ch }

  unfoldable pub submit_receive :
      {R : Type 0} → Rsm F S V → Op R → ℕ → Option (Rsm F S V × (Err × Option V))
  unfolding submit_end
  submit_receive rsm op ch = elim (rsm.chans ch) [
    | [] ↦ none
    | result ∷ rest ↦
        let rsm' = record rsm { chans = λ c. if ch == c then rest else rsm.chans c } in
        some (submit_end rsm' op, submit_result op result)
  ]

  -- `case <-time.After(2 * time.Second)`
  unfoldable pub submit_timeout : {R : Type 0} → Rsm F S V → Op R → Rsm F S V × (Err × Option V)
  unfolding submit_end
  submit_timeout rsm op = (submit_end rsm op, (err_time_out, none))

  -- The result for the call that waits under the id, if there is one; `none` is a channel that is
  -- full, at which the reader blocks with the mutex held.
  unfoldable pub notify : Rsm F S V → OpResult V → Option (Rsm F S V)
  notify rsm result = elim (rsm.notify_ch result.op_id) [
    | none ↦ some rsm
    | some ch ↦
        (if ltb (length (rsm.chans ch)) chan_size
          then some (record rsm {
            chans = λ c. if ch == c then rsm.chans ch ++ result ∷ [] else rsm.chans c;
            notify_ch = remove result.op_id rsm.notify_ch;
          })
          else none)
  ]

module _ {F S R V : Type 0} (api : RaftApi F (Op R)) where
  -- `dead` is an int32.
  unfoldable pub kill : Rsm F S V → Rsm F S V
  kill rsm = record rsm { dead = (rsm.dead + 1) % 2 ^ 32; rf = api.kill rsm.rf }

  -- The call of `Start`: the term that the operation waits in, or none for `ErrWrongLeader`.
  unfoldable pub submit_start : Rsm F S V → Op R → Option (Rsm F S V × Option ℕ)
  unfolding submit_end
  submit_start rsm op = do
    (rf, started) ← api.start rsm.rf op
    let rsm' = record rsm { rf = rf }
    some (elim started [
      | none ↦ (submit_end rsm' op, none)
      | some (index, term) ↦ (rsm', some term)
    ])

  -- `case <-ticker.C`: `ErrWrongLeader`, or none to wait on.
  unfoldable pub submit_tick : Rsm F S V → Op R → ℕ → Option (Rsm F S V × (Err × Option V))
  unfolding submit_end killed
  submit_tick rsm op term =
      let (current_term, is_leader) = api.get_state rsm.rf in
      if not is_leader || not (current_term == term)
      then some (submit_end rsm op, (err_wrong_leader, none))
      else if killed rsm
      then some (submit_end rsm op, (err_wrong_leader, none))
      else none

-- A command that is not an `Op` leaves the zero value.
abbrev pub op_of : {S R V : Type 0} → StateMachine S R V → Option (Op R) → Op R
op_of machine none = record { id = 0; me = 0; req = machine.zero_req }
op_of machine (some op) = op

module _ {F S R V : Type 0} (api : RaftApi F (Op R)) (machine : StateMachine S R V) where
  -- The snapshot, if Raft's state is large.
  abbrev pub snapshot_if_large : Rsm F S V → ℕ → Rsm F S V
  snapshot_if_large rsm index =
      if is_large rsm.maxraftstate (api.persist_bytes rsm.rf)
      then record rsm { rf = api.snapshot rsm.rf index (machine.snapshot rsm.sm) }
      else rsm

  -- One message of `Reader`; `none` is a reader that blocks, or a `Restore` that ends the program.
  unfoldable pub reader_step : Rsm F S V → ApplyMsg (Op R) → Option (Rsm F S V)
  unfolding notify
  reader_step rsm (command_msg command term index) =
      let op = op_of machine command in
      let (sm, val) = machine.do_op rsm.sm op.req in
      notify (snapshot_if_large (record rsm { sm = sm }) index)
        (record { value = val; term = term; op_id = op.id })
  reader_step rsm (snapshot_msg snapshot term index) = do
    sm ← machine.restore rsm.sm snapshot
    some (record rsm { sm = sm })

  -- The messages up to the end of the channel.
  unfoldable pub reader : Rsm F S V → List (ApplyMsg (Op R)) → Option (Rsm F S V)
  unfolding reader_step kill
  reader rsm [] = some (kill api rsm)
  reader rsm (msg ∷ rest) = do rsm' ← reader_step rsm msg; reader rsm' rest

-- `MakeRSM`, given the peer that `raft.Make` made, the snapshot that was persisted and the state
-- machine of the server.
unfoldable pub make_rsm :
    {F S R V : Type 0} → StateMachine S R V → F → ℕ → Bytes → Option ℕ → S → Option (Rsm F S V)
make_rsm machine rf me snapshot maxraftstate sm = do
  sm' ← (if ltb 0 (length snapshot) then machine.restore sm snapshot else some sm)
  some (record {
    me = me;
    rf = rf;
    maxraftstate = maxraftstate;
    sm = sm';
    notify_ch = empty;
    chans = λ c. [];
    next_chan = 0;
    dead = 0;
    seqid = 0;
  })
