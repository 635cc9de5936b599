-- ===== src/Kv/Rsm/Ends.antt =====
-- How the parts of `Submit` end (kvraft1/rsm/rsm.go).
use my.Prelude.{
  ℕ, ◌≡◌, ◌⊎◌, inl, inr, refl, Option, none, some, List, [], ◌∷◌, arith, if◌then◌else◌, ◌==◌,
  Option-cases,
}
use my.Kv.Rpc.{Err}
use my.Kv.Rsm.{
  Op, OpResult, RaftApi, Rsm, submit_end, submit_start, submit_result, submit_receive, submit_tick,
  notify,
}

list_cases : {A : Type 0} (xs : List A) → (xs ≡ []) ⊎ ((x : A) × (rest : List A) × (xs ≡ x ∷ rest))
list_cases [] = inl refl
list_cases (x ∷ xs) = inr (x, xs, refl)

module _ {F S R V : Type 0} (rsm : Rsm F S V) (op : Op R) where
  pub submit_tick_lem :
      (api : RaftApi F (Op R)) (term : ℕ) (rsm' : Rsm F S V) (out : Err × Option V)
      → submit_tick api rsm op term ≡ some (rsm', out)
      → rsm' ≡ submit_end rsm op
  unfolding submit_tick
  submit_tick_lem api term rsm' out h = ground arith

  -- What the channel holds after its first result was taken.
  abbrev pub taken : ℕ → List (OpResult V) → Rsm F S V
  taken ch rest = record rsm { chans = λ c. if ch == c then rest else rsm.chans c }

  pub submit_receive_lem :
      (ch : ℕ) (rsm' : Rsm F S V) (out : Err × Option V)
      → submit_receive rsm op ch ≡ some (rsm', out)
      → (result : OpResult V) × (rest : List (OpResult V)) × (rsm.chans ch ≡ result ∷ rest)
        × (rsm' ≡ submit_end (taken ch rest) op)
        × (out ≡ submit_result op result)
  unfolding submit_receive
  submit_receive_lem ch rsm' out h = elim (list_cases (rsm.chans ch)) [
    | inl e ↦ absurd (ground arith)
    | inr (result, rest, e) ↦ (result, rest, e, ground arith, ground arith)
  ]

  abbrev pub moved : F → Rsm F S V
  moved rf = record rsm { rf = rf }

  pub submit_start_lem :
      (api : RaftApi F (Op R)) (out : Rsm F S V × Option ℕ)
      → submit_start api rsm op ≡ some out
      → (rf : F) × ((out ≡ (submit_end (moved rf) op, none))
          ⊎ ((term : ℕ) × (out ≡ (moved rf, some term))))
  unfolding submit_start
  submit_start_lem api out h = elim (Option-cases (api.start rsm.rf op)) [
    | inl e ↦ absurd (ground arith)
    | inr ((rf, none), e) ↦ (rf, inl (ground arith))
    | inr ((rf, some (index, term)), e) ↦ (rf, inr (term, ground arith))
  ]

-- The reader's answer changes nothing but the channels.
pub notify_lem :
    {F S V : Type 0} (rsm rsm' : Rsm F S V) (r : OpResult V)
    → notify rsm r ≡ some rsm'
    → rsm' ≡ record rsm { chans = rsm'.chans; notify_ch = rsm'.notify_ch }
unfolding notify
notify_lem rsm rsm' r h = elim (Option-cases (rsm.notify_ch r.op_id)) [
  | inl e ↦ ground arith
  | inr (ch, e) ↦ ground arith
]
