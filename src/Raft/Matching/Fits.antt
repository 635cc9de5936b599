-- ===== src/Raft/Matching/Fits.antt =====
-- Logs that agree with the logs of the leaders of their entries' terms (raft1/raft.go).
use mathlib.Core.List.{append_assoc}
use my.Prelude.{
  ℕ, ◌≡◌, ◌⊎◌, inl, inr, refl, sym, ap, subst, ◌∙◌, Bool-cases, some, List, [], ◌∷◌, ◌++◌, arith,
  ◌==◌, ==→≡, length,
}
use my.Prelude.Maps.{Map}
use my.Raft.State.{LogEntry}
use my.Raft.Append.Overlay.{overlay}

abbrev pub Log : Type 0 → Type 0
Log C = List (LogEntry C)

module _ {C : Type 0} where
  -- What stands before a place, and what stands at it, determine one another's places.
  append-inj :
      (xs ys : Log C) (x y : LogEntry C) (r s : Log C)
      → length xs ≡ length ys
      → xs ++ x ∷ r ≡ ys ++ y ∷ s
      → (xs ≡ ys) × (x ≡ y) × (r ≡ s)
  append-inj [] [] x y r s l e = (refl, cc, cc)
  append-inj [] (b ∷ ys) x y r s l e = absurd (omega arith)
  append-inj (a ∷ xs) [] x y r s l e = absurd (omega arith)
  append-inj (a ∷ xs) (b ∷ ys) x y r s l e =
      let (p, q, w) = append-inj xs ys x y r s (omega arith) (cc) in (cc, q, w)

  -- A place in a log with one more entry is the last one, or it is a place of the log.
  last_or_before :
      (log pre : Log C) (e x : LogEntry C) (suf : Log C)
      → log ++ e ∷ [] ≡ pre ++ x ∷ suf
      → ((pre ++ x ∷ [] ≡ log ++ e ∷ []) × (e ≡ x) × (pre ≡ log))
        ⊎ ((suf' : Log C) × (log ≡ pre ++ x ∷ suf'))
  last_or_before [] [] e x suf h = inl (cc, cc, refl)
  last_or_before [] (b ∷ []) e x suf h = absurd (cc)
  last_or_before [] (b ∷ c ∷ pre) e x suf h = absurd (cc)
  last_or_before (a ∷ log) [] e x suf h = inr (log, cc)
  last_or_before (a ∷ log) (b ∷ pre) e x suf h = elim (last_or_before log pre e x suf (cc)) [
    | inl (p, q, r) ↦ inl (cc, q, cc)
    | inr (suf', p) ↦ inr (suf', cc)
  ]

  -- Each entry of the log stands in the log of the leader of its term, with all that is before it.
  abbrev pub Fits : Map ℕ (Log C) → Log C → Type 0
  Fits led log =
      (pre : Log C) (e : LogEntry C) (suf : Log C)
      → log ≡ pre ++ e ∷ suf
      → (rest : Log C) × (led e.term ≡ some (pre ++ e ∷ rest))

  abbrev pub IsPrefix : Log C → Log C → Type 0
  IsPrefix xs ys = (zs : Log C) × (ys ≡ xs ++ zs)

  -- No log of a leader loses entries.
  abbrev pub Grows : Map ℕ (Log C) → Map ℕ (Log C) → Type 0
  Grows led led' =
      (t : ℕ) (log : Log C)
      → led t ≡ some log
      → (log' : Log C) × (led' t ≡ some log') × IsPrefix log log'

  pub Fits-Grows :
      {led led' : Map ℕ (Log C)} (log : Log C) → Grows led led' → Fits led log → Fits led' log
  Fits-Grows log g f pre e suf h =
      let (rest, p) = f pre e suf h in
      let (log', q, (zs, r)) = g e.term _ p in
      (rest ++ zs, q ∙ ap some (r ∙ append_assoc pre (e ∷ rest) zs))

  module _ (led : Map ℕ (Log C)) where
    -- A prefix of a log that fits.
    pub Fits-left : (xs ys : Log C) → Fits led (xs ++ ys) → Fits led xs
    Fits-left xs ys f pre e suf h =
        f pre e (suf ++ ys) (ap (λ l. l ++ ys) h ∙ append_assoc pre (e ∷ suf) ys)

    some_eq : {x y : Log C} → some x ≡ some y → x ≡ y
    some_eq h = cc

    -- Two logs that fit, with entries of one term at one place, have the same entries up to there.
    pub Fits-same :
        (l m : Log C)
        → Fits led l
        → Fits led m
        → (pre : Log C) (e : LogEntry C) (suf : Log C) → l ≡ pre ++ e ∷ suf
        → (pre' : Log C) (e' : LogEntry C) (suf' : Log C) → m ≡ pre' ++ e' ∷ suf'
        → length pre ≡ length pre'
        → e.term ≡ e'.term
        → (pre ≡ pre') × (e ≡ e')
    Fits-same l m f g pre e suf h pre' e' suf' h' s t =
        let (rest, p) = f pre e suf h in
        let (rest', q) = g pre' e' suf' h' in
        let both = append-inj pre pre' e e' rest rest' s (some_eq (sym p ∙ ap led t ∙ q)) in
        (both.0, both.1)

    -- The new entries over the local ones, after the entries `pre`.
    pub Fits-overlay :
        (pre local es : Log C)
        → Fits led (pre ++ local)
        → Fits led (pre ++ es)
        → Fits led (pre ++ overlay local es)
    Fits-overlay pre local [] f g = f
    Fits-overlay pre [] (e ∷ es) f g = g
    Fits-overlay pre (c ∷ local) (e ∷ es) f g = elim (Bool-cases (c.term == e.term)) [
      | inr differs ↦ rw differs g
      | inl same ↦
          let (_, eq) = Fits-same _ _ f g pre c local refl pre e es refl refl (==→≡ _ _ same) in
          rw same (
            subst (Fits led) (append_assoc pre (c ∷ []) (overlay local es)) (
              Fits-overlay (pre ++ c ∷ []) local es
                (subst (Fits led) (sym (append_assoc pre (c ∷ []) local)) f)
                (subst (Fits led)
                  (ap (λ x. pre ++ x ∷ es) (sym eq) ∙ sym (append_assoc pre (c ∷ []) es)) g)))
    ]

    -- One more entry, which its leader's log has.
    pub Fits-snoc :
        (log : Log C) (e : LogEntry C)
        → Fits led log
        → led e.term ≡ some (log ++ e ∷ [])
        → Fits led (log ++ e ∷ [])
    Fits-snoc log e f h pre x suf p = elim (last_or_before log pre e x suf p) [
      | inl (_, q, r) ↦ ([], ap (λ (y : LogEntry C). led y.term) (sym q) ∙ h ∙ ap some (cc (q, r)))
      | inr (suf', q) ↦ f pre x suf' q
    ]
