-- ===== src/Kv/Rsm/Ids.antt =====
-- The numbers that the calls of `Submit` of one server give their operations (`generateOpId` of
-- kvraft1/rsm/rsm.go).
use my.Prelude.{
  ℕ, suc, ◌+◌, ◌%◌, ◌^◌, ◌<◌, ◌≤◌, ◌≡◌, ◌≢◌, ◌∙◌, refl, sym, ap, Option, some, arith, Bool-cases,
  Option-cases, inl, inr,
}
use my.Raft.Applier.{ApplyMsg, command_msg, snapshot_msg}
use my.Kv.Rsm.{
  Op, RaftApi, StateMachine, Rsm, op_id, killed, generate_op_id, submit_begin, submit_start,
  submit_timeout, submit_end, reader_step, kill, op_of, snapshot_if_large,
}
use my.Kv.Rsm.Ends.{submit_receive_lem, submit_start_lem, submit_tick_lem, notify_lem}
use my.Kv.Rsm.Calls.Read.{snapshot_if_large_lem}
use my.Kv.Rsm.Calls.{
  Call, Server, begun, started, received, ticked, timed_out, read, raft_moved, stopped, Reach, here,
  later, after_begin, after_start,
}

op_id-distinct :
    (now now' seqid seqid' : ℕ)
    → seqid < seqid'
    → seqid' < seqid + 2 ^ 20
    → op_id now seqid ≢ op_id now' seqid'
unfolding op_id
op_id-distinct now now' seqid seqid' h k e = omega arith

-- The clock and the count wrap around: 2^44 nanoseconds and 2^20 operations later the number is
-- the same.
pub op_id-wraps : (now seqid : ℕ) → op_id (now + 2 ^ 44) (seqid + 2 ^ 20) ≡ op_id now seqid
unfolding op_id
op_id-wraps now seqid = omega arith

-- A call of `Submit` that is not refused takes the next number.
submit_begin-id :
    {F S V R : Type 0} (now : ℕ) (rsm rsm' : Rsm F S V) (req : R) (op : Op R) (ch : ℕ)
    → submit_begin now rsm req ≡ (rsm', some (op, ch))
    → (op.id ≡ op_id now ((rsm.seqid + 1) % 2 ^ 64)) × (rsm'.seqid ≡ (rsm.seqid + 1) % 2 ^ 64)
unfolding submit_begin generate_op_id
submit_begin-id now rsm rsm' req op ch h = ground arith

module _ {F S R V : Type 0} (api : RaftApi F (Op R)) (machine : StateMachine S R V) where
  -- How many calls of `Submit` begin.
  abbrev pub begins : {s s' : Server F S R V} → Reach api machine s s' → ℕ
  begins here = 0
  begins (later r (begun k now req e)) = suc (begins r)
  begins (later r (started k call out e n h)) = begins r
  begins (later r (received k term call rsm out e n h)) = begins r
  begins (later r (ticked k term call rsm out e n h)) = begins r
  begins (later r (timed_out k term call e n)) = begins r
  begins (later r (read msg rsm h)) = begins r
  begins (later r (raft_moved rf)) = begins r
  begins (later r stopped) = begins r

  -- The count of a server has moved on by no more than `n`, in its low 20 bits.
  record Counts (n : ℕ) (s s' : Server F S R V) : Type 0 where
    moves : ℕ
    few : moves ≤ n
    seqid : s'.rsm.seqid % 2 ^ 20 ≡ (s.rsm.seqid + moves) % 2 ^ 20

  begin-Counts :
      (s : Server F S R V) (k now : ℕ) (req : R)
      → Counts 1 s (after_begin s k (submit_begin now s.rsm req))
  unfolding submit_begin generate_op_id
  begin-Counts s k now req = elim (Bool-cases (killed s.rsm)) [
    | inl dead ↦ rw dead (record { moves = 0; few = omega arith; seqid = omega arith })
    | inr alive ↦ rw alive (record { moves = 1; few = omega arith; seqid = omega arith })
  ]

  start-seqid :
      (s : Server F S R V) (k : ℕ) (call : Call R) (out : Rsm F S V × Option ℕ)
      → submit_start api s.rsm call.op ≡ some out
      → (after_start s k call out).rsm.seqid ≡ s.rsm.seqid
  unfolding submit_end
  start-seqid s k call out h =
      let (rf, cases) = submit_start_lem s.rsm call.op api out h in
      elim cases [ inl e ↦ rw e refl | inr (term, e) ↦ rw e refl ]

  read-seqid :
      (rsm rsm' : Rsm F S V) (msg : ApplyMsg (Op R))
      → reader_step api machine rsm msg ≡ some rsm'
      → rsm'.seqid ≡ rsm.seqid
  unfolding reader_step
  read-seqid rsm rsm' (command_msg command term index) h =
      let op = op_of machine command in
      let out = machine.do_op rsm.sm op.req in
      let rsm1 = record rsm { sm = out.0 } in
      ap (λ (x : Rsm F S V). x.seqid)
        (notify_lem (snapshot_if_large api machine rsm1 index) rsm'
          (record { value = out.1; term = term; op_id = op.id }) h)
      ∙ ap (λ (x : Rsm F S V). x.seqid) (snapshot_if_large_lem api machine rsm1 index).1
  read-seqid rsm rsm' (snapshot_msg snapshot term index) h =
      elim (Option-cases (machine.restore rsm.sm snapshot)) [
        | inl e ↦ absurd (ground arith)
        | inr (sm, e) ↦ ground arith
      ]

  same-Counts :
      {n : ℕ} {s s' s'' : Server F S R V}
      → s''.rsm.seqid ≡ s'.rsm.seqid
      → Counts n s s'
      → Counts n s s''
  same-Counts e c = record {
    moves = c.moves;
    few = c.few;
    seqid = ap (λ (m : ℕ). m % 2 ^ 20) e ∙ c.seqid;
  }

  Reach-Counts : {s s' : Server F S R V} (r : Reach api machine s s') → Counts (begins r) s s'
  unfolding submit_end submit_timeout kill
  Reach-Counts here = record { moves = 0; few = omega arith; seqid = omega arith }
  Reach-Counts (later {s' = s'} r (begun k now req e)) =
      let c = Reach-Counts r in
      let d = begin-Counts s' k now req in
      record {
        moves = c.moves + d.moves;
        few = omega (arith, c.few, d.few);
        seqid = omega (arith, c.seqid, d.seqid);
      }
  Reach-Counts (later r (started k call out e n h)) =
      same-Counts (start-seqid _ k call out h) (Reach-Counts r)
  Reach-Counts (later {s' = s'} r (received k term call rsm out e n h)) =
      let (result, rest, f, same, g) = submit_receive_lem s'.rsm call.op call.ch rsm out h in
      same-Counts (ap (λ (x : Rsm F S V). x.seqid) same) (Reach-Counts r)
  Reach-Counts (later {s' = s'} r (ticked k term call rsm out e n h)) =
      same-Counts
        (ap (λ (x : Rsm F S V). x.seqid) (submit_tick_lem s'.rsm call.op api term rsm out h))
        (Reach-Counts r)
  Reach-Counts (later r (timed_out k term call e n)) = same-Counts refl (Reach-Counts r)
  Reach-Counts (later {s' = s'} r (read msg rsm h)) =
      same-Counts (read-seqid s'.rsm rsm msg h) (Reach-Counts r)
  Reach-Counts (later r (raft_moved rf)) = same-Counts refl (Reach-Counts r)
  Reach-Counts (later r stopped) = same-Counts refl (Reach-Counts r)

  -- However the calls of Submit, the reader, Raft and Kill interleave after a call of Submit has
  -- begun: a later call of the same server, with fewer than 2^20 calls from the one to the other,
  -- gives its operation a different number, whatever the clock said.
  pub submit_begin-distinct :
      (s s' : Server F S R V) (k now now' : ℕ) (req req' : R) (op op' : Op R) (ch ch' : ℕ)
      (rsm rsm' : Rsm F S V)
      → submit_begin now s.rsm req ≡ (rsm, some (op, ch))
      → (r : Reach api machine (after_begin s k (submit_begin now s.rsm req)) s')
      → begins r + 1 < 2 ^ 20
      → submit_begin now' s'.rsm req' ≡ (rsm', some (op', ch'))
      → op.id ≢ op'.id
  submit_begin-distinct s s' k now now' req req' op op' ch ch' rsm rsm' h r few h' e =
      let (i, n) = submit_begin-id now s.rsm rsm req op ch h in
      let (i', n') = submit_begin-id now' s'.rsm rsm' req' op' ch' h' in
      let c = Reach-Counts r in
      let first : (after_begin s k (submit_begin now s.rsm req)).rsm.seqid
          ≡ (s.rsm.seqid + 1) % 2 ^ 64 =
        rw h n in
      unfold op_id in omega (arith, sym i ∙ e ∙ i', c.seqid, c.few, first, few)
