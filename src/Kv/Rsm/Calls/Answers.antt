-- ===== src/Kv/Rsm/Calls/Answers.antt =====
-- What a call of `Submit` gets from its channel, and the reader at the channels
-- (kvraft1/rsm/rsm.go).
use my.Prelude.{ℕ, ◌≡◌, inl, refl, sym, ◌∙◌, subst, true, Option, some, arith, ◌==◌}
use my.Raft.Applier.{ApplyMsg, command_msg, snapshot_msg}
use my.Raft.Cluster.{In}
use my.Kv.Rpc.{Err, ok}
use my.Kv.Rsm.{Op, RaftApi, StateMachine, Rsm, submit_receive, submit_timeout, reader_step, kill}
use my.Kv.Rsm.Ends.{submit_receive_lem}
use my.Kv.Rsm.Calls.{
  Call, Server, Turn, begun, started, received, ticked, timed_out, read, raft_moved, stopped, Reach,
  here, later, IsInitial,
}
use my.Kv.Rsm.Calls.Clean.{IsValueOf, IsClean, IsInitial-IsClean, shifted-IsClean}
use my.Kv.Rsm.Calls.Kept.{begin-IsClean, start-IsClean, receive-IsClean, tick-IsClean, end-IsClean}
use my.Kv.Rsm.Calls.Read.{after, read-IsClean, restore-IsClean}

module _ {F S R V : Type 0} (api : RaftApi F (Op R)) (machine : StateMachine S R V) where
  read_any-IsClean :
      (s : Server F S R V) (msg : ApplyMsg (Op R)) (rsm : Rsm F S V)
      → IsClean machine s
      → reader_step api machine s.rsm msg ≡ some rsm
      → IsClean machine (after machine s msg rsm)
  read_any-IsClean s (command_msg command term index) rsm c h =
      let (rsm', e, c') = read-IsClean api machine s command term index c in
      subst (λ x. IsClean machine (after machine s (command_msg command term index) x)) (cc (e, h))
        c'
  read_any-IsClean s (snapshot_msg snapshot term index) rsm c h =
      restore-IsClean api machine s snapshot term index rsm c h

  Turn-IsClean :
      {s s' : Server F S R V} → Turn api machine s s' → IsClean machine s → IsClean machine s'
  unfolding submit_timeout kill
  Turn-IsClean {s = s} (begun k now req e) c = begin-IsClean machine s c k now req
  Turn-IsClean {s = s} (started k call out e n h) c = start-IsClean machine s c api k call out e h
  Turn-IsClean {s = s} (received k term call rsm out e n h) c =
      receive-IsClean machine s c k call rsm out h
  Turn-IsClean {s = s} (ticked k term call rsm out e n h) c =
      tick-IsClean machine s c api k call term rsm out h
  Turn-IsClean {s = s} (timed_out k term call e n) c = end-IsClean machine s c k s.rsm.rf call.op
  Turn-IsClean {s = s} (read msg rsm h) c = read_any-IsClean s msg rsm c h
  Turn-IsClean {s = s} (raft_moved rf) c =
      shifted-IsClean machine s rf s.rsm.sm s.rsm.dead s.applied (λ a i. i) c
  Turn-IsClean {s = s} stopped c = shifted-IsClean machine s _ s.rsm.sm _ s.applied (λ a i. i) c

  pub Reach-IsClean :
      {s s' : Server F S R V} → IsInitial s → Reach api machine s s' → IsClean machine s'
  Reach-IsClean {s = s} z here = IsInitial-IsClean machine s z
  Reach-IsClean z (later r t) = Turn-IsClean t (Reach-IsClean z r)

-- However the calls of Submit, the reader, Raft and Kill interleave from a server that was just
-- made: a waiting call that takes a result from its channel returns OK, and the value is what DoOp
-- returned for an applied operation with the number of the call.
pub submit-answers :
    {F S R V : Type 0} (api : RaftApi F (Op R)) (machine : StateMachine S R V)
    (s s' : Server F S R V) (k : ℕ) (call : Call R) (rsm : Rsm F S V) (out : Err × Option V)
    → IsInitial s
    → Reach api machine s s'
    → s'.calls k ≡ some call
    → submit_receive s'.rsm call.op call.ch ≡ some (rsm, out)
    → (v : V) × (out ≡ (ok, some v)) × IsValueOf machine call.op.id v s'.applied
submit-answers api machine s s' k call rsm out z r e h =
    let (result, rest, full, p, q) = submit_receive_lem s'.rsm call.op call.ch rsm out h in
    let c = Reach-IsClean api machine z r in
    let (m, v) = c.results k call result e (subst (In result) (sym full) (inl refl)) in
    let t : (result.op_id == call.op.id) ≡ true = ground arith in (result.value, q ∙ rw t refl, v)

-- In whatever is reached from a server that was just made, the reader comes through the next
-- command without waiting at a channel that is full.
pub reader-unblocked :
    {F S R V : Type 0} (api : RaftApi F (Op R)) (machine : StateMachine S R V)
    (s s' : Server F S R V) (command : Option (Op R)) (term index : ℕ)
    → IsInitial s
    → Reach api machine s s'
    → (rsm : Rsm F S V) × (reader_step api machine s'.rsm (command_msg command term index)
        ≡ some rsm)
reader-unblocked api machine s s' command term index z r =
    let (rsm, e, c) =
      read-IsClean api machine s' command term index (Reach-IsClean api machine z r) in
    (rsm, e)
