-- ===== src/Kv/Rsm/Calls/Clean.antt =====
-- The invariant of the channels between `Reader` and the calls of `Submit` (kvraft1/rsm/rsm.go).
use my.Prelude.{ℕ, ◌<◌, ◌≤◌, ◌≡◌, refl, sym, ap, ◌∙◌, subst, some, List, [], arith}
use my.Prelude.Maps.{nat_eq}
use my.Raft.Cluster.{In}
use my.Kv.Rsm.{Op, OpResult, StateMachine}
use my.Kv.Rsm.Calls.{Call, Applied, Server, IsInitial}

-- The value is what `DoOp` returned for an applied operation with the number `id`.
abbrev pub IsValueOf : {S R V : Type 0} → StateMachine S R V → ℕ → V → List (Applied S R) → Type 0
IsValueOf {S = S} {R = R} machine id v applied =
    (a : Applied S R) × In a applied × (a.op.id ≡ id) × (v ≡ (machine.do_op a.before a.op.req).1)

module _ {F S R V : Type 0} (machine : StateMachine S R V) where
  pub record IsClean (s : Server F S R V) : Type 0 where
    pub made : (id ch : ℕ) → s.rsm.notify_ch id ≡ some ch → ch < s.rsm.next_chan
    pub free : (id ch : ℕ) → s.rsm.notify_ch id ≡ some ch → s.rsm.chans ch ≡ []
    pub alone :
        (id id' ch : ℕ) → s.rsm.notify_ch id ≡ some ch → s.rsm.notify_ch id' ≡ some ch → id ≡ id'
    pub unmade : (ch : ℕ) → s.rsm.next_chan ≤ ch → s.rsm.chans ch ≡ []
    pub calls_made : (k : ℕ) (call : Call R) → s.calls k ≡ some call → call.ch < s.rsm.next_chan
    pub own :
        (k id : ℕ) (call : Call R)
        → s.calls k ≡ some call
        → s.rsm.notify_ch id ≡ some call.ch
        → id ≡ call.op.id
    pub results :
        (k : ℕ) (call : Call R) (r : OpResult V)
        → s.calls k ≡ some call
        → In r (s.rsm.chans call.ch)
        → (r.op_id ≡ call.op.id) × IsValueOf machine call.op.id r.value s.applied

  pub IsInitial-IsClean : (s : Server F S R V) → IsInitial s → IsClean s
  IsInitial-IsClean s z = record {
    made = λ id ch h. absurd (cc (h, z.notify_ch id));
    free = λ id ch h. z.chans ch;
    alone = λ id id' ch h h'. absurd (cc (h, z.notify_ch id));
    unmade = λ ch h. z.chans ch;
    calls_made = λ k call h. absurd (cc (h, z.calls k));
    own = λ k id call h. absurd (cc (h, z.calls k));
    results = λ k call r h. absurd (cc (h, z.calls k));
  }

  -- Less is registered, fewer calls wait, and less is in the channels. A call of `s'` is one of `s`
  -- with the same operation and channel.
  pub record IsLess (s s' : Server F S R V) : Type 0 where
    pub notify_ch : (id ch : ℕ) → s'.rsm.notify_ch id ≡ some ch → s.rsm.notify_ch id ≡ some ch
    pub chans : (ch : ℕ) (r : OpResult V) → In r (s'.rsm.chans ch) → In r (s.rsm.chans ch)
    pub empty : (ch : ℕ) → s.rsm.chans ch ≡ [] → s'.rsm.chans ch ≡ []
    pub next_chan : s'.rsm.next_chan ≡ s.rsm.next_chan
    pub calls :
        (k : ℕ) (call : Call R)
        → s'.calls k ≡ some call
        → (old : Call R) × (s.calls k ≡ some old) × (old.op ≡ call.op) × (old.ch ≡ call.ch)
    pub applied : (a : Applied S R) → In a s.applied → In a s'.applied

  pub IsLess-IsClean : (s s' : Server F S R V) → IsLess s s' → IsClean s → IsClean s'
  IsLess-IsClean s s' l c = record {
    made =
        λ id ch h. subst (λ (n : ℕ). ch < n) (sym l.next_chan) (c.made id ch (l.notify_ch id ch h));
    free = λ id ch h. l.empty ch (c.free id ch (l.notify_ch id ch h));
    alone = λ id id' ch h h'. c.alone id id' ch (l.notify_ch id ch h) (l.notify_ch id' ch h');
    unmade = λ ch h. l.empty ch (c.unmade ch (omega (arith, h, l.next_chan)));
    calls_made = λ k call h.
        (let (old, e, p, q) = l.calls k call h in
          omega (arith, c.calls_made k old e, q, l.next_chan));
    own = λ k id call h n.
        (let (old, e, p, q) = l.calls k call h in
          c.own k id old e (l.notify_ch id old.ch (n ∙ ap some (sym q)))
          ∙ ap (λ (o : Op R). o.id) p);
    results = λ k call r h i.
        (let (old, e, p, q) = l.calls k call h in
          let (m, (a, b, d, f)) =
            c.results k old r e (l.chans old.ch r (subst (λ x. In r (s'.rsm.chans x)) (sym q) i)) in
          let same : old.op.id ≡ call.op.id = ap (λ (o : Op R). o.id) p in
          (m ∙ same, (a, l.applied a b, d ∙ same, f)));
  }

  -- What Raft, the state machine and `Kill` change has no part in it.
  abbrev pub shifted : Server F S R V → F → S → ℕ → List (Applied S R) → Server F S R V
  shifted s rf sm dead applied = record s {
    rsm = record s.rsm { rf = rf; sm = sm; dead = dead };
    applied = applied;
  }

  pub shifted-IsClean :
      (s : Server F S R V) (rf : F) (sm : S) (dead : ℕ) (applied : List (Applied S R))
      → ((a : Applied S R) → In a s.applied → In a applied)
      → IsClean s
      → IsClean (shifted s rf sm dead applied)
  shifted-IsClean s rf sm dead applied h = IsLess-IsClean s (shifted s rf sm dead applied) (record {
    notify_ch = λ id ch n. n;
    chans = λ ch r i. i;
    empty = λ ch e. e;
    next_chan = refl;
    calls = λ j w e. (w, e, refl, refl);
    applied = h;
  })
