-- ===== src/Kv/Rsm/Calls/Kept.antt =====
-- The channels over the critical sections of `Submit` (kvraft1/rsm/rsm.go).
use my.Prelude.{
  ℕ, suc, ◌<◌, ◌≡◌, inl, inr, refl, sym, ap, ◌∙◌, subst, Option, none, some, List, [], ◌∷◌, arith,
  if◌then◌else◌, Bool-cases, ◌==◌, ==→≡,
}
use my.Prelude.Maps.{insert, nat_eq, insert_cases, remove_cases}
use my.Raft.Cluster.{In}
use my.Kv.Rpc.{Err}
use my.Kv.Rsm.{
  Op, OpResult, RaftApi, StateMachine, Rsm, killed, generate_op_id, submit_begin, submit_end,
  submit_start, submit_receive, submit_tick,
}
use my.Kv.Rsm.Ends.{submit_tick_lem, submit_receive_lem, submit_start_lem, moved}
use my.Kv.Rsm.Calls.{Call, Server, after_begin, after_start, returned}
use my.Kv.Rsm.Calls.Clean.{IsClean, IsLess, IsLess-IsClean}

-- The channels after the first result of `ch` was taken.
module _ {V : Type 0} (chans : ℕ → List (OpResult V)) (ch : ℕ) (result : OpResult V)
    (rest : List (OpResult V)) (full : chans ch ≡ result ∷ rest) (j : ℕ) where
  taken-In : (r : OpResult V) → In r (if ch == j then rest else chans j) → In r (chans j)
  taken-In r i = elim (Bool-cases (ch == j)) [
    | inl t ↦
        subst (In r) (sym full ∙ ap chans (==→≡ ch j t))
          (inr (subst (λ b. In r (if b then rest else chans j)) t i))
    | inr f ↦ subst (λ b. In r (if b then rest else chans j)) f i
  ]

  taken_empty : chans j ≡ [] → (if ch == j then rest else chans j) ≡ []
  taken_empty e = elim (Bool-cases (ch == j)) [
    | inl t ↦ absurd (cc (full, e, ap chans (==→≡ ch j t)))
    | inr f ↦ rw f e
  ]

module _ {F S R V : Type 0} (machine : StateMachine S R V) (s : Server F S R V)
    (c : IsClean machine s) where
  abbrev registered : ℕ → ℕ → Op R → Server F S R V
  registered k seqid op = record s {
    rsm = record s.rsm {
      seqid = seqid;
      notify_ch = insert op.id s.rsm.next_chan s.rsm.notify_ch;
      next_chan = suc s.rsm.next_chan;
    };
    calls = insert k (record { op = op; ch = s.rsm.next_chan; term = none }) s.calls;
  }

  -- A channel that is made is not yet in use.
  registered-IsClean : (k seqid : ℕ) (op : Op R) → IsClean machine (registered k seqid op)
  registered-IsClean k seqid op =
      let n = s.rsm.next_chan in
      let m = s.rsm.notify_ch in
      let new : Call R = record { op = op; ch = n; term = none } in
      record {
        made = λ id ch h. elim (insert_cases op.id m id ch n h) [
          | inl (p, q) ↦ omega (arith, q)
          | inr o ↦ omega (arith, c.made id ch o)
        ];
        free = λ id ch h. elim (insert_cases op.id m id ch n h) [
          | inl (p, q) ↦ c.unmade ch (omega (arith, q))
          | inr o ↦ c.free id ch o
        ];
        alone = λ id id' ch h h'. elim (insert_cases op.id m id ch n h) [
          | inl (p, q) ↦ elim (insert_cases op.id m id' ch n h') [
            | inl (p', q') ↦ sym p ∙ p'
            | inr o' ↦ absurd (omega (arith, q, c.made id' ch o'))
          ]
          | inr o ↦ elim (insert_cases op.id m id' ch n h') [
            | inl (p', q') ↦ absurd (omega (arith, q', c.made id ch o))
            | inr o' ↦ c.alone id id' ch o o'
          ]
        ];
        unmade = λ ch h. c.unmade ch (omega (arith, h));
        calls_made = λ j call h. elim (insert_cases k s.calls j call new h) [
          | inl (p, q) ↦ subst (λ (x : Call R). x.ch < suc n) q (omega arith)
          | inr o ↦ omega (arith, c.calls_made j call o)
        ];
        own = λ j id call h i. elim (insert_cases k s.calls j call new h) [
          | inl (p, q) ↦
              subst (λ (x : Call R). insert op.id n m id ≡ some x.ch → id ≡ x.op.id) q
                (λ e. elim (insert_cases op.id m id n n e) [
                  | inl (p', q') ↦ sym p'
                  | inr o ↦ absurd (omega (arith, c.made id n o))
                ])
                i
          | inr o ↦ elim (insert_cases op.id m id call.ch n i) [
            | inl (p', q') ↦ absurd (omega (arith, q', c.calls_made j call o))
            | inr o' ↦ c.own j id call o o'
          ]
        ];
        results = λ j call r h i. elim (insert_cases k s.calls j call new h) [
          | inl (p, q) ↦ absurd (
              subst (In r)
                (ap s.rsm.chans (sym (ap (λ (x : Call R). x.ch) q)) ∙ c.unmade n (omega arith)) i)
          | inr o ↦ c.results j call r o i
        ];
      }

  pub begin-IsClean :
      (k now : ℕ) (req : R) → IsClean machine (after_begin s k (submit_begin now s.rsm req))
  unfolding submit_begin killed generate_op_id
  begin-IsClean k now req = elim (Bool-cases (s.rsm.dead == 1)) [
    | inl t ↦ rw t c
    | inr f ↦ rw f (registered-IsClean k _ _)
  ]

  -- What a return takes away.
  returned-IsLess :
      (k : ℕ) (rsm : Rsm F S V) (op : Op R)
      → ((id ch : ℕ) → rsm.notify_ch id ≡ some ch → s.rsm.notify_ch id ≡ some ch)
      → ((ch : ℕ) (r : OpResult V) → In r (rsm.chans ch) → In r (s.rsm.chans ch))
      → ((ch : ℕ) → s.rsm.chans ch ≡ [] → rsm.chans ch ≡ [])
      → rsm.next_chan ≡ s.rsm.next_chan
      → IsLess machine s (returned s k rsm)
  returned-IsLess k rsm op n h e l = record {
    notify_ch = n;
    chans = h;
    empty = e;
    next_chan = l;
    calls = λ j call i. (call, (remove_cases k s.calls j call i).1, refl, refl);
    applied = λ a i. i;
  }

  pub end-IsClean :
      (k : ℕ) (rf : F) (op : Op R)
      → IsClean machine (returned s k (submit_end (record s.rsm { rf = rf }) op))
  unfolding submit_end
  end-IsClean k rf op =
      IsLess-IsClean machine s _
        (returned-IsLess k _ op (λ id ch h. (remove_cases op.id s.rsm.notify_ch id ch h).1)
          (λ ch r i. i) (λ ch e. e) refl)
        c

  waiting-IsClean :
      (k term : ℕ) (call : Call R) (rf : F)
      → s.calls k ≡ some call
      → IsClean machine (after_start s k call (moved s.rsm call.op rf, some term))
  waiting-IsClean k term call rf e =
      IsLess-IsClean machine s _
        (record {
          notify_ch = λ id ch h. h;
          chans = λ ch r i. i;
          empty = λ ch h. h;
          next_chan = refl;
          calls = λ j w h. elim (insert_cases k s.calls j w (record call { term = some term }) h) [
            | inl (p, q) ↦ (
              call,
              subst (λ (x : ℕ). s.calls x ≡ some call) p e,
              ap (λ (x : Call R). x.op) q,
              ap (λ (x : Call R). x.ch) q,
            )
            | inr o ↦ (w, o, refl, refl)
          ];
          applied = λ a i. i;
        })
        c

  pub start-IsClean :
      (api : RaftApi F (Op R)) (k : ℕ) (call : Call R) (out : Rsm F S V × Option ℕ)
      → s.calls k ≡ some call
      → submit_start api s.rsm call.op ≡ some out
      → IsClean machine (after_start s k call out)
  start-IsClean api k call out e h =
      let (rf, cases) = submit_start_lem s.rsm call.op api out h in
      elim cases [
        | inl p ↦
            subst (λ o. IsClean machine (after_start s k call o)) (sym p) (end-IsClean k rf call.op)
        | inr (term, p) ↦
            subst (λ o. IsClean machine (after_start s k call o)) (sym p)
              (waiting-IsClean k term call rf e)
      ]

  pub receive-IsClean :
      (k : ℕ) (call : Call R) (rsm : Rsm F S V) (out : Err × Option V)
      → submit_receive s.rsm call.op call.ch ≡ some (rsm, out)
      → IsClean machine (returned s k rsm)
  unfolding submit_end
  receive-IsClean k call rsm out h =
      let (result, rest, full, p, q) = submit_receive_lem s.rsm call.op call.ch rsm out h in
      subst (λ x. IsClean machine (returned s k x)) (sym p)
        (IsLess-IsClean machine s _
          (returned-IsLess k _ call.op
            (λ id ch n. (remove_cases call.op.id s.rsm.notify_ch id ch n).1)
            (taken-In s.rsm.chans call.ch result rest full)
            (taken_empty s.rsm.chans call.ch result rest full) refl)
          c)

  pub tick-IsClean :
      (api : RaftApi F (Op R)) (k : ℕ) (call : Call R) (term : ℕ) (rsm : Rsm F S V)
      (out : Err × Option V)
      → submit_tick api s.rsm call.op term ≡ some (rsm, out)
      → IsClean machine (returned s k rsm)
  tick-IsClean api k call term rsm out h =
      subst (λ x. IsClean machine (returned s k x))
        (sym (submit_tick_lem s.rsm call.op api term rsm out h)) (end-IsClean k s.rsm.rf call.op)
