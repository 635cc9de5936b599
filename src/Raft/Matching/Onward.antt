-- ===== src/Raft/Matching/Onward.antt =====
-- The logs of the leaders of each term when one peer moves on (raft1/raft.go).
use my.Prelude.{
  ℕ, ◌≤◌, ◌<◌, ◌≡◌, ◌≢◌, ◌⊎◌, inl, inr, sym, ap, subst, ◌∙◌, true, false, some, List, [], ◌∷◌,
  arith, ◌==◌, Bool-cases, ==→≡,
}
use mathlib.Core.List.{append-nil}
use my.Prelude.Maps.{Map, insert, nat_eq}
use my.Raft.State.{Raft, candidate, Gob, is_leader, is_candidate}
use my.Raft.Peer.Votes.{IsRoundTrip}
use my.Raft.Cluster.{update, Vote}
use my.Raft.Cluster.Ballots.{AreUnique, Elected, update_cases}
use my.Raft.Cluster.Leaders.{Elected-unique}
use my.Raft.Matching.{note}
use my.Raft.Matching.Fits.{Log, Fits, Fits-Grows, Fits-snoc, Grows, IsPrefix}
use my.Raft.Matching.Saved.{Advances, Advances-IsSaved}
use my.Raft.Matching.Ledger.{IsSound, HasLed, Ledger, Extends, Changed}

module _ {C : Type 0} where
  IsPrefix-self : (log : Log C) → IsPrefix log log
  IsPrefix-self log = ([], sym (append-nil log))

  Grows-insert :
      (led : Map ℕ (Log C)) (t : ℕ) (log : Log C)
      → ((old : Log C) → led t ≡ some old → IsPrefix old log)
      → Grows led (insert t log led)
  Grows-insert led t log k u old h = elim (Bool-cases (t == u)) [
    | inl e ↦ (log, ground (arith, e), k old (subst (λ x. led x ≡ some old) (sym (==→≡ t u e)) h))
    | inr e ↦ (old, ground (arith, e, h), IsPrefix-self old)
  ]

  module _ (gob : Gob C) (trip : IsRoundTrip gob) (n : ℕ) {peers : ℕ → Raft C}
      {votes votes' : List Vote} {led : Map ℕ (Log C)} (l : Ledger gob n peers votes led) (i : ℕ)
      (rf' : Raft C) (here : i < n) (a : Advances gob (peers i) rf') (c : Changed led (peers i) rf')
      (more : (t j : ℕ) → Elected n votes j t → Elected n votes' j t) (unique : AreUnique votes')
      (led-now : (j : ℕ)
        → j < n
        → is_leader (update peers i rf' j).state ≡ true
        → Elected n votes' j (update peers i rf' j).current_term) where
    update_here : update peers i rf' i ≡ rf'
    update_here = ground arith

    elected : is_leader rf'.state ≡ true → Elected n votes' i rf'.current_term
    elected =
        subst (λ (x : Raft C). is_leader x.state ≡ true → Elected n votes' i x.current_term)
          update_here (led-now i here)

    -- The peer was the leader of its term before, or a candidate in it.
    was_leading :
        is_leader rf'.state ≡ true
        → ((peers i).current_term ≡ rf'.current_term)
          × ((is_leader (peers i).state ≡ true)
              ⊎ (((peers i).state ≡ candidate) × (0 < rf'.current_term)))
    was_leading h = ground (arith, a.turned, (l.sound i here).role)

    -- The log of a leader is as it was, or it has one more entry.
    leading_log : is_leader rf'.state ≡ true → (rf'.log ≡ (peers i).log) ⊎ Extends (peers i) rf'
    leading_log h = elim c.how [
      | inl same ↦ inl same
      | inr (inl (f, _)) ↦ absurd (cc (ap is_leader f, h))
      | inr (inr e) ↦ inr e
    ]

    leading_prefix : is_leader rf'.state ≡ true → IsPrefix (peers i).log rf'.log
    leading_prefix h = elim (leading_log h) [
      | inl same ↦ ([], same ∙ sym (append-nil (peers i).log))
      | inr e ↦ (e.entry ∷ [], e.log)
    ]

    -- A candidate has not led in its term.
    not_yet :
        (t : ℕ) (old : Log C)
        → is_leader rf'.state ≡ true
        → (peers i).state ≡ candidate
        → (peers i).current_term ≡ rf'.current_term
        → 0 < rf'.current_term
        → led rf'.current_term ≢ some old
    not_yet t old h k same pos p = elim (l.history rf'.current_term old p) [
      | inl z ↦ absurd (omega arith)
      | inr was ↦
          let j : was.peer ≡ i =
            Elected-unique n was.peer i rf'.current_term votes' unique
              (more rf'.current_term was.peer was.elected) (elected h) in
          let over : (peers i).current_term ≡ rf'.current_term
              → is_candidate (peers i).state ≡ false =
            subst
              (λ x.
                (peers x).current_term ≡ rf'.current_term → is_candidate (peers x).state ≡ false)
              j was.over in
          absurd (cc (over same, ap is_candidate k))
    ]

    -- The log of a term that has a leader now is a prefix of that leader's log.
    kept :
        is_leader rf'.state ≡ true
        → (old : Log C) → led rf'.current_term ≡ some old
        → IsPrefix old rf'.log
    kept h old p =
        let (same, was) = was_leading h in
        elim was [
          | inl led-before ↦
              subst (λ x. IsPrefix x rf'.log)
                (let e : some (peers i).log ≡ some old =
                    sym (l.leaders i here led-before) ∙ ap led same ∙ p in
                  cc)
                (leading_prefix h)
          | inr (k, pos) ↦ absurd (not_yet 0 old h k same pos p)
        ]

    pub Grows-note : Grows led (note rf' led)
    Grows-note = elim (Bool-cases (is_leader rf'.state)) [
      | inl h ↦ rw h (Grows-insert led rf'.current_term rf'.log (kept h))
      | inr h ↦ rw h (λ t log p. (log, p, IsPrefix-self log))
    ]

    note_leader : is_leader rf'.state ≡ true → note rf' led rf'.current_term ≡ some rf'.log
    note_leader h = ground arith

    note_cases :
        (t : ℕ) (log : Log C)
        → note rf' led t ≡ some log
        → ((is_leader rf'.state ≡ true) × (t ≡ rf'.current_term) × (log ≡ rf'.log))
          ⊎ (led t ≡ some log)
    note_cases t log h = elim (Bool-cases (is_leader rf'.state)) [
      | inr e ↦ inr (rw e at h)
      | inl e ↦ elim (Bool-cases (rf'.current_term == t)) [
        | inl q ↦ inl (e, sym (==→≡ _ _ q), ground (arith, e, q, h))
        | inr q ↦ inr (ground (arith, e, q, h))
      ]
    ]

    IsSound-now : IsSound gob rf'
    IsSound-now = record {
      base = c.base;
      indexed = c.indexed;
      saved = Advances-IsSaved gob (peers i) trip a (l.sound i here).saved;
      role = ground (arith, a.turned, (l.sound i here).role);
    }

    Fits-now : Fits (note rf' led) rf'.log
    Fits-now = elim c.how [
      | inl same ↦ subst (Fits (note rf' led)) (sym same) before
      | inr (inl (_, f)) ↦ Fits-Grows rf'.log Grows-note f
      | inr (inr e) ↦ subst (Fits (note rf' led)) (sym e.log) (
          Fits-snoc (note rf' led) (peers i).log e.entry before
            (ap (note rf' led) e.term ∙ note_leader (ap is_leader e.state) ∙ ap some e.log))
    ]
      where
        before : Fits (note rf' led) (peers i).log
        before = Fits-Grows (peers i).log Grows-note (l.fits i here)

    -- Another leader, whose term is another one.
    other_leader :
        (j : ℕ)
        → j < n
        → update peers i rf' j ≡ peers j
        → is_leader (peers j).state ≡ true
        → note rf' led (peers j).current_term ≡ some (peers j).log
    other_leader j lj u h = elim (Bool-cases (is_leader rf'.state)) [
      | inr e ↦ rw e (l.leaders j lj h)
      | inl e ↦ elim (Bool-cases (rf'.current_term == (peers j).current_term)) [
        | inr q ↦ ground (arith, e, q, l.leaders j lj h)
        | inl q ↦
            let j-elected : Elected n votes' j (peers j).current_term =
              subst (λ (x : Raft C). is_leader x.state ≡ true → Elected n votes' j x.current_term) u
                (led-now j lj) h in
            let ji : j ≡ i =
              Elected-unique n j i rf'.current_term votes' unique
                (subst (Elected n votes' j) (sym (==→≡ _ _ q)) j-elected) (elected e) in
            let same : rf' ≡ peers j = sym (sym u ∙ ap (update peers i rf') ji ∙ update_here) in
            subst (λ (x : Raft C). note rf' led x.current_term ≡ some x.log) same (note_leader e)
      ]
    ]

    leaders-now :
        (j : ℕ)
        → j < n
        → is_leader (update peers i rf' j).state ≡ true
        → note rf' led (update peers i rf' j).current_term ≡ some (update peers i rf' j).log
    leaders-now j lj h = elim (update_cases peers i rf' j) [
      | inl (e, u) ↦ rw u (note_leader (subst (λ (x : Raft C). is_leader x.state ≡ true) u h))
      | inr u ↦ rw u (other_leader j lj u (subst (λ (x : Raft C). is_leader x.state ≡ true) u h))
    ]

    HasLed-now : (t : ℕ) → HasLed n peers votes t → HasLed n (update peers i rf') votes' t
    HasLed-now t w = record {
      peer = w.peer;
      below = w.below;
      elected = more t w.peer w.elected;
      past = moved.0;
      over = moved.1;
    }
      where
        -- The terms of the peer that moves do not go down, and it is a candidate only in a new one.
        actor_moved :
            w.peer ≡ i
            → (t ≤ rf'.current_term) × (rf'.current_term ≡ t → is_candidate rf'.state ≡ false)
        actor_moved e =
            let past : t ≤ (peers i).current_term =
              subst (λ x. t ≤ (peers x).current_term) e w.past in
            let over : (peers i).current_term ≡ t → is_candidate (peers i).state ≡ false =
              subst (λ x. (peers x).current_term ≡ t → is_candidate (peers x).state ≡ false) e
                w.over in
            ground (arith, a.turned)

        moved :
            (t ≤ (update peers i rf' w.peer).current_term)
            × ((update peers i rf' w.peer).current_term ≡ t
                → is_candidate (update peers i rf' w.peer).state ≡ false)
        moved = elim (update_cases peers i rf' w.peer) [
          | inl (e, u) ↦ rw u (actor_moved (sym e))
          | inr u ↦ rw u (w.past, w.over)
        ]

    pub Ledger-update : Ledger gob n (update peers i rf') votes' (note rf' led)
    Ledger-update = record {
      sound = λ j lj. elim (update_cases peers i rf' j) [
        | inl (e, u) ↦ rw u IsSound-now
        | inr u ↦ rw u (l.sound j lj)
      ];
      fits = λ j lj. elim (update_cases peers i rf' j) [
        | inl (e, u) ↦ rw u Fits-now
        | inr u ↦ rw u (Fits-Grows (peers j).log Grows-note (l.fits j lj))
      ];
      ledgers = λ t log h. elim (note_cases t log h) [
        | inl (e, p, q) ↦ subst (Fits (note rf' led)) (sym q) Fits-now
        | inr p ↦ Fits-Grows log Grows-note (l.ledgers t log p)
      ];
      leaders = leaders-now;
      history = λ t log h. elim (note_cases t log h) [
        | inl (e, p, q) ↦ inr (record {
          peer = i;
          below = here;
          elected = subst (Elected n votes' i) (sym p) (elected e);
          past = rw (update_here, p) (omega arith);
          over = rw update_here (λ _. ground (arith, e));
        })
        | inr p ↦ elim (l.history t log p) [ inl z ↦ inl z | inr w ↦ inr (HasLed-now t w) ]
      ];
    }
