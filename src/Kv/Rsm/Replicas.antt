-- ===== src/Kv/Rsm/Replicas.antt =====
-- What the readers of kvraft1/rsm/rsm.go make of the messages, on different servers and after a
-- snapshot.
use my.Prelude.{
  ℕ, ◌≡◌, refl, ap, ◌∙◌, Option, some, List, [], ◌∷◌, ◌++◌, arith, ◌>>=◌, Option-cases, inl, inr,
}
use my.Raft.Applier.{ApplyMsg, command_msg, snapshot_msg}
use my.Kv.Rsm.{Op, RaftApi, StateMachine, Rsm, op_of, reader_step, reader, kill, snapshot_if_large}
use my.Kv.Rsm.Ends.{notify_lem}
use my.Kv.Rsm.Calls.Read.{after, snapshot_if_large_lem, read-IsClean, restore-IsClean}
use my.Kv.Rsm.Calls.Clean.{IsClean}
use my.Kv.Rsm.Calls.{Server, Reach, IsInitial}
use my.Kv.Rsm.Calls.Answers.{Reach-IsClean}

-- The state machine after the messages, without anything that waits for results.
abbrev pub replay : {S R V : Type 0} → StateMachine S R V → S → List (ApplyMsg (Op R)) → Option S
replay machine sm [] = some sm
replay machine sm (command_msg command term index ∷ rest) =
    replay machine (machine.do_op sm (op_of machine command).req).0 rest
replay machine sm (snapshot_msg snapshot term index ∷ rest) = do
  sm' ← machine.restore sm snapshot
  replay machine sm' rest

replay-append :
    {S R V : Type 0} (machine : StateMachine S R V) (sm mid : S) (xs ys : List (ApplyMsg (Op R)))
    → replay machine sm xs ≡ some mid
    → replay machine sm (xs ++ ys) ≡ replay machine mid ys
replay-append machine sm mid [] ys h = ap (λ x. replay machine x ys) (cc h)
replay-append machine sm mid (command_msg command term index ∷ xs) ys h =
    replay-append machine _ mid xs ys h
replay-append machine sm mid (snapshot_msg snapshot term index ∷ xs) ys h =
    elim (Option-cases (machine.restore sm snapshot)) [
      | inl e ↦ absurd (ground arith)
      | inr (sm', e) ↦
          let k : replay machine sm' xs ≡ some mid = ground arith in
          rw e (replay-append machine sm' mid xs ys k)
    ]

module _ {F S R V : Type 0} (api : RaftApi F (Op R)) (machine : StateMachine S R V) where
  -- The state machine that a command leaves.
  abbrev next_sm : S → Option (Op R) → S
  next_sm sm command = (machine.do_op sm (op_of machine command).req).0

  reader_step-sm :
      (rsm rsm' : Rsm F S V) (command : Option (Op R)) (term index : ℕ)
      → reader_step api machine rsm (command_msg command term index) ≡ some rsm'
      → rsm'.sm ≡ next_sm rsm.sm command
  unfolding reader_step
  reader_step-sm rsm rsm' command term index h =
      let op = op_of machine command in
      let out = machine.do_op rsm.sm op.req in
      let rsm1 = record rsm { sm = out.0 } in
      let (rf, e) = snapshot_if_large_lem api machine rsm1 index in
      ap (λ (x : Rsm F S V). x.sm)
        (notify_lem (snapshot_if_large api machine rsm1 index) rsm'
          (record { value = out.1; term = term; op_id = op.id }) h)
      ∙ ap (λ (x : Rsm F S V). x.sm) e

  -- The reader comes through the messages, whatever waits for results, and the state machine is
  -- what the messages alone make of it.
  pub reader-replay :
      (s : Server F S R V) (msgs : List (ApplyMsg (Op R))) (sm : S)
      → IsClean machine s
      → replay machine s.rsm.sm msgs ≡ some sm
      → (rsm : Rsm F S V) × (reader api machine s.rsm msgs ≡ some rsm) × (rsm.sm ≡ sm)
  unfolding reader kill
  reader-replay s [] sm c h = (kill api s.rsm, refl, cc h)
  reader-replay s (command_msg command term index ∷ rest) sm c h =
      let msg : ApplyMsg (Op R) = command_msg command term index in
      let (rsm1, e, c1) = read-IsClean api machine s command term index c in
      let same = reader_step-sm s.rsm rsm1 command term index e in
      rw e (
        reader-replay (after machine s msg rsm1) rest sm c1
          (ap (λ x. replay machine x rest) same ∙ h))
  reader-replay s (snapshot_msg snapshot term index ∷ rest) sm c h =
      elim (Option-cases (machine.restore s.rsm.sm snapshot)) [
        | inl e ↦ absurd (ground arith)
        | inr (sm1, e) ↦
            let msg : ApplyMsg (Op R) = snapshot_msg snapshot term index in
            let rsm1 = record s.rsm { sm = sm1 } in
            let k : reader_step api machine s.rsm msg ≡ some rsm1 = rw e refl in
            rw k (
              reader-replay (after machine s msg rsm1) rest sm
                (restore-IsClean api machine s snapshot term index rsm1 c k) (ground arith))
      ]

-- Two servers that were reached from servers just made, whatever waits on them: the reader of one
-- comes through the messages `xs` and `ys`, that of the other through a snapshot of the state
-- machine after `xs` and then `ys`, and both end with the same state machine, the one that the
-- messages alone make. The snapshot restores the state that it was taken of, and the restores
-- among the messages succeed.
pub replicas_agree :
    {F G S R V : Type 0} (api : RaftApi F (Op R)) (api' : RaftApi G (Op R))
    (machine : StateMachine S R V) (a a₁ : Server F S R V) (b b₁ : Server G S R V)
    (xs ys : List (ApplyMsg (Op R))) (mid sm : S) (term index : ℕ)
    → ((old : S) → machine.restore old (machine.snapshot mid) ≡ some mid)
    → IsInitial a
    → Reach api machine a a₁
    → IsInitial b
    → Reach api' machine b b₁
    → replay machine a₁.rsm.sm xs ≡ some mid
    → replay machine mid ys ≡ some sm
    → (ra : Rsm F S V) × (rb : Rsm G S V) × (reader api machine a₁.rsm (xs ++ ys) ≡ some ra)
      × (reader api' machine b₁.rsm (snapshot_msg (machine.snapshot mid) term index ∷ ys) ≡ some rb)
      × (ra.sm ≡ sm)
      × (rb.sm ≡ sm)
replicas_agree api api' machine a a₁ b b₁ xs ys mid sm term index t za ra zb rb hx hy =
    let msg = snapshot_msg (machine.snapshot mid) term index in
    let (x, p, q) =
      reader-replay api machine a₁ (xs ++ ys) sm (Reach-IsClean api machine za ra)
        (replay-append machine a₁.rsm.sm mid xs ys hx ∙ hy) in
    let (y, p', q') =
      reader-replay api' machine b₁ (msg ∷ ys) sm (Reach-IsClean api' machine zb rb)
        (rw (t b₁.rsm.sm) hy) in
    (x, y, p, p', q, q')
