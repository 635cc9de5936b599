-- ===== src/Kv/Rsm/Stopping.antt =====
-- `Kill` of kvraft1/rsm/rsm.go, from outside and at the end of the reader.
use my.Prelude.{
  ℕ, ◌+◌, ◌%◌, ◌^◌, ◌≡◌, sym, ap, ◌∙◌, true, false, some, List, [], ◌∷◌, arith, Option-cases, inl,
  inr,
}
use my.Raft.Applier.{ApplyMsg, command_msg, snapshot_msg}
use my.Kv.Rsm.{
  Op, RaftApi, StateMachine, Rsm, op_of, killed, reader_step, reader, kill, snapshot_if_large,
}
use my.Kv.Rsm.Ends.{notify_lem}
use my.Kv.Rsm.Calls.Read.{snapshot_if_large_lem}

module _ {F S R V : Type 0} (api : RaftApi F (Op R)) (machine : StateMachine S R V) where
  reader_step-dead :
      (rsm rsm' : Rsm F S V) (msg : ApplyMsg (Op R))
      → reader_step api machine rsm msg ≡ some rsm'
      → rsm'.dead ≡ rsm.dead
  unfolding reader_step
  reader_step-dead rsm rsm' (command_msg command term index) h =
      let op = op_of machine command in
      let out = machine.do_op rsm.sm op.req in
      let rsm1 = record rsm { sm = out.0 } in
      let (rf, e) = snapshot_if_large_lem api machine rsm1 index in
      ap (λ (x : Rsm F S V). x.dead)
        (notify_lem (snapshot_if_large api machine rsm1 index) rsm'
          (record { value = out.1; term = term; op_id = op.id }) h)
      ∙ ap (λ (x : Rsm F S V). x.dead) e
  reader_step-dead rsm rsm' (snapshot_msg snapshot term index) h =
      elim (Option-cases (machine.restore rsm.sm snapshot)) [
        | inl e ↦ absurd (ground arith)
        | inr (sm, e) ↦ ground arith
      ]

  reader-dead :
      (rsm rsm' : Rsm F S V) (msgs : List (ApplyMsg (Op R)))
      → reader api machine rsm msgs ≡ some rsm'
      → rsm'.dead ≡ (rsm.dead + 1) % 2 ^ 32
  unfolding reader kill
  reader-dead rsm rsm' [] h =
      let e : kill api rsm ≡ rsm' = cc h in ap (λ (x : Rsm F S V). x.dead) (sym e)
  reader-dead rsm rsm' (msg ∷ rest) h = elim (Option-cases (reader_step api machine rsm msg)) [
    | inl e ↦ absurd (ground arith)
    | inr (rsm1, e) ↦
        let k : reader api machine rsm1 rest ≡ some rsm' = ground arith in
        reader-dead rsm1 rsm' rest k
        ∙ ap (λ (d : ℕ). (d + 1) % 2 ^ 32) (reader_step-dead rsm rsm1 msg e)
  ]

  -- A server that was killed counts as killed; once its reader has ended, which kills it again, it
  -- does not.
  pub reader-revives :
      (rsm rsm' : Rsm F S V) (msgs : List (ApplyMsg (Op R)))
      → rsm.dead ≡ 0
      → reader api machine (kill api rsm) msgs ≡ some rsm'
      → (killed (kill api rsm) ≡ true) × (killed rsm' ≡ false)
  unfolding killed kill
  reader-revives rsm rsm' msgs z h =
      let d = reader-dead (kill api rsm) rsm' msgs h in (ground arith, ground arith)
