-- ===== src/Kv/Rsm/Calls/Read.antt =====
-- The channels over the messages of `Reader` (kvraft1/rsm/rsm.go).
use my.Prelude.{
  ℕ, ◌≡◌, ◌≢◌, ◌⊎◌, inl, inr, refl, ap, ◌∙◌, subst, false, Option, none, some, [], ◌∷◌, ◌++◌, arith,
  if◌then◌else◌, Bool-cases, Option-cases, ◌==◌, ==→≡,
}
use my.Prelude.Maps.{remove, nat_eq, remove_cases}
use my.Raft.Applier.{ApplyMsg, command_msg, snapshot_msg}
use my.Raft.Cluster.{In}
use my.Raft.State.{Bytes}
use my.Kv.Rsm.{
  Op, OpResult, RaftApi, StateMachine, Rsm, op_of, is_large, notify, reader_step, snapshot_if_large,
}
use my.Kv.Rsm.Calls.{Applied, Server, record_msg}
use my.Kv.Rsm.Calls.Clean.{IsValueOf, IsClean, shifted, shifted-IsClean}

module _ {F S R V : Type 0} (machine : StateMachine S R V) (s : Server F S R V)
    (c : IsClean machine s) where
  abbrev delivered : ℕ → OpResult V → Server F S R V
  delivered ch r = record s {
    rsm = record s.rsm {
      chans = λ j. if ch == j then s.rsm.chans ch ++ r ∷ [] else s.rsm.chans j;
      notify_ch = remove r.op_id s.rsm.notify_ch;
    };
  }

  module _ (ch : ℕ) (r : OpResult V) (h : s.rsm.notify_ch r.op_id ≡ some ch) where
    delivered_other : (j : ℕ) → ch ≢ j → (delivered ch r).rsm.chans j ≡ s.rsm.chans j
    delivered_other j d = let f : (ch == j) ≡ false = ground arith in rw f refl

    delivered-In :
        (j : ℕ) (r' : OpResult V)
        → In r' ((delivered ch r).rsm.chans j)
        → ((r' ≡ r) × (ch ≡ j)) ⊎ In r' (s.rsm.chans j)
    delivered-In j r' i = elim (Bool-cases (ch == j)) [
      | inr f ↦ inr (subst (λ b. In r' (if b then s.rsm.chans ch ++ r ∷ [] else s.rsm.chans j)) f i)
      | inl t ↦
          let i1 = subst (λ b. In r' (if b then s.rsm.chans ch ++ r ∷ [] else s.rsm.chans j)) t i in
          elim (subst (λ l. In r' (l ++ r ∷ [])) (c.free r.op_id ch h) i1) [
            | inl p ↦ inl (p, ==→≡ ch j t)
            | inr o ↦ absurd o
          ]
    ]

    delivered-IsClean :
        IsValueOf machine r.op_id r.value s.applied → IsClean machine (delivered ch r)
    delivered-IsClean v =
        let old = λ (id j : ℕ) (n : remove r.op_id s.rsm.notify_ch id ≡ some j).
          remove_cases r.op_id s.rsm.notify_ch id j n in
        record {
          made = λ id j n. c.made id j (old id j n).1;
          free = λ id j n.
              delivered_other j
                (λ p. (old id j n).0 (c.alone r.op_id id j (h ∙ ap some p) (old id j n).1))
              ∙ c.free id j (old id j n).1;
          alone = λ id id' j n n'. c.alone id id' j (old id j n).1 (old id' j n').1;
          unmade = λ j l.
              delivered_other j (λ p. omega (arith, p, l, c.made r.op_id ch h)) ∙ c.unmade j l;
          calls_made = c.calls_made;
          own = λ k id call e n. c.own k id call e (old id call.ch n).1;
          results = λ k call r' e i. elim (delivered-In call.ch r' i) [
            | inr o ↦ c.results k call r' e o
            | inl (p, q) ↦
                let same : r.op_id ≡ call.op.id = c.own k r.op_id call e (h ∙ ap some q) in
                let (a, b, d, f) = v in
                (
                  ap (λ (x : OpResult V). x.op_id) p ∙ same,
                  (a, b, d ∙ same, ap (λ (x : OpResult V). x.value) p ∙ f),
                )
          ];
        }

  notify_lem :
      (ch : ℕ) (r : OpResult V)
      → s.rsm.notify_ch r.op_id ≡ some ch
      → s.rsm.chans ch ≡ []
      → notify s.rsm r ≡ some (delivered ch r).rsm
  unfolding notify
  notify_lem ch r h e = ground arith

  notify-unknown : (r : OpResult V) → s.rsm.notify_ch r.op_id ≡ none → notify s.rsm r ≡ some s.rsm
  unfolding notify
  notify-unknown r h = ground arith

  -- The reader puts a result into a channel that is empty.
  pub notify-IsClean :
      (r : OpResult V)
      → IsValueOf machine r.op_id r.value s.applied
      → (rsm : Rsm F S V) × (notify s.rsm r ≡ some rsm) × IsClean machine (record s { rsm = rsm })
  notify-IsClean r v = elim (Option-cases (s.rsm.notify_ch r.op_id)) [
    | inl e ↦ (s.rsm, notify-unknown r e, c)
    | inr (ch, e) ↦
        ((delivered ch r).rsm, notify_lem ch r e (c.free r.op_id ch e), delivered-IsClean ch r e v)
  ]

abbrev pub after :
    {F S R V : Type 0}
    → StateMachine S R V
    → Server F S R V
    → ApplyMsg (Op R)
    → Rsm F S V
    → Server F S R V
after machine s msg rsm = record s {
  rsm = rsm;
  applied = record_msg machine s.applied s.rsm.sm msg;
}

module _ {F S R V : Type 0} (api : RaftApi F (Op R)) (machine : StateMachine S R V) where
  pub snapshot_if_large_lem :
      (rsm : Rsm F S V) (index : ℕ)
      → (rf : F) × (snapshot_if_large api machine rsm index ≡ record rsm { rf = rf })
  snapshot_if_large_lem rsm index =
      elim (Bool-cases (is_large rsm.maxraftstate (api.persist_bytes rsm.rf))) [
        | inl t ↦ (api.snapshot rsm.rf index (machine.snapshot rsm.sm), rw t refl)
        | inr f ↦ (rsm.rf, rw f refl)
      ]

  pub read-IsClean :
      (s : Server F S R V) (command : Option (Op R)) (term index : ℕ)
      → IsClean machine s
      → (rsm : Rsm F S V) × (reader_step api machine s.rsm (command_msg command term index)
          ≡ some rsm)
        × IsClean machine (after machine s (command_msg command term index) rsm)
  unfolding reader_step
  read-IsClean s command term index c =
      let op = op_of machine command in
      let out = machine.do_op s.rsm.sm op.req in
      let rsm1 = record s.rsm { sm = out.0 } in
      let (rf, e) = snapshot_if_large_lem rsm1 index in
      let a : Applied S R = record { op = op; before = s.rsm.sm } in
      let s1 = shifted machine s rf out.0 s.rsm.dead (a ∷ s.applied) in
      let c1 = shifted-IsClean machine s rf out.0 s.rsm.dead (a ∷ s.applied) (λ b i. inr i) c in
      rw e (
        notify-IsClean machine s1 c1 (record { value = out.1; term = term; op_id = op.id })
          (a, inl refl, refl, refl))

  pub restore-IsClean :
      (s : Server F S R V) (snapshot : Bytes) (term index : ℕ) (rsm : Rsm F S V)
      → IsClean machine s
      → reader_step api machine s.rsm (snapshot_msg snapshot term index) ≡ some rsm
      → IsClean machine (after machine s (snapshot_msg snapshot term index) rsm)
  unfolding reader_step
  restore-IsClean s snapshot term index rsm c h =
      elim (Option-cases (machine.restore s.rsm.sm snapshot)) [
        | inl e ↦ absurd (ground arith)
        | inr (sm, e) ↦
            let p : record s.rsm { sm = sm } ≡ rsm = ground arith in
            subst (λ x. IsClean machine (record s { rsm = x })) p
              (shifted-IsClean machine s s.rsm.rf sm s.rsm.dead s.applied (λ a i. i) c)
      ]
