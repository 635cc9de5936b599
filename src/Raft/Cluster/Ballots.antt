-- ===== src/Raft/Cluster/Ballots.antt =====
-- The peers of a cluster against the history of votes: the invariant of the ballots
-- (raft1/raft.go).
use my.Prelude.{
  ℕ, ◌+◌, ◌/◌, ◌≤◌, ◌<◌, ◌≡◌, ◌⊎◌, inl, inr, refl, Bool, true, some, List, ◌∷◌, arith, ◌==◌,
  Bool-cases, ==→≡, sym, ap, subst, ◌∙◌,
}
use my.Raft.State.{Raft, Gob, is_leader}
use my.Raft.Peer.Ballot.{IsLater, IsLater-trans}
use my.Raft.Peer.Votes.{IsDurable, IsLaterStored, stored}
use my.Raft.Cluster.{update, In, Vote}
use my.Raft.Cluster.Quorum.{size}
use my.Raft.Cluster.Moves.{SamePlace, StillLeads}

pub update_cases :
    {A : Type 0} (f : ℕ → A) (i : ℕ) (a : A) (j : ℕ)
    → ((i ≡ j) × (update f i a j ≡ a)) ⊎ (update f i a j ≡ f j)
update_cases f i a j = elim (Bool-cases (i == j)) [
  | inl e ↦ inl (==→≡ i j e, rw e refl)
  | inr e ↦ inr (rw e refl)
]

-- Peer `i` of `n`, with its majority.
pub record IsPlaced {C : Type 0} (n i : ℕ) (rf : Raft C) : Type 0 where
  pub me : rf.me ≡ i
  pub peers : rf.peers ≡ n
  pub majority : rf.majority ≡ n / 2 + 1

-- The peers of the set gave their votes of the term to the candidate.
abbrev pub AllVoted : List Vote → (ℕ → Bool) → ℕ → ℕ → Type 0
AllVoted votes q term candidate =
    (s : ℕ) → q s ≡ true → In (record { voter = s; term = term; candidate = candidate }) votes

-- A majority of `n` peers gave them.
pub record Elected (n : ℕ) (votes : List Vote) (candidate term : ℕ) : Type 0 where
  pub voters : ℕ → Bool
  pub voted : AllVoted votes voters term candidate
  pub enough : n / 2 + 1 ≤ size n voters

-- No peer gave two votes in one term.
abbrev pub AreUnique : List Vote → Type 0
AreUnique votes =
    (v w : Vote)
    → In v votes
    → In w votes
    → v.voter ≡ w.voter
    → v.term ≡ w.term
    → v.candidate ≡ w.candidate

module _ {C : Type 0} (gob : Gob C) (n : ℕ) where
  -- What the persister of the peer would restart from is at or past the vote.
  abbrev pub IsPast : (ℕ → Raft C) → Vote → Type 0
  IsPast peers v =
      let b = stored gob (peers v.voter).persister.raftstate in
      IsLater v.term (some v.candidate) b.0 b.1

  pub record Balloted (peers : ℕ → Raft C) (votes : List Vote) : Type 0 where
    pub placed : (i : ℕ) → i < n → IsPlaced n i (peers i)
    pub durable : (i : ℕ) → i < n → IsDurable gob (peers i)
    pub past : (v : Vote) → In v votes → (v.voter < n) × IsPast peers v
    pub unique : AreUnique votes
    pub led :
        (i : ℕ)
        → i < n
        → is_leader (peers i).state ≡ true
        → Elected n votes i (peers i).current_term

  Elected-cons :
      (v : Vote) (votes : List Vote) (i t : ℕ) → Elected n votes i t → Elected n (v ∷ votes) i t
  Elected-cons v votes i t e = record {
    voters = e.voters;
    voted = λ s h. inr (e.voted s h);
    enough = e.enough;
  }

  module _ {peers : ℕ → Raft C} {votes : List Vote} (b : Balloted peers votes) where
    -- The peer moves on, and leads only as it did or as the votes allow.
    module _ (i : ℕ) (rf : Raft C) (here : i < n) (same : SamePlace (peers i) rf)
        (d : IsDurable gob rf × IsLaterStored gob (peers i) rf)
        (leads : StillLeads (peers i) rf ⊎ Elected n votes i rf.current_term) where
      IsPlaced-update : (j : ℕ) → j < n → IsPlaced n j (update peers i rf j)
      IsPlaced-update j l = elim (update_cases peers i rf j) [
        | inl (e, u) ↦
            let p = b.placed i here in
            rw u (record {
              me = ground (arith, p.me);
              peers = ground (arith, p.peers);
              majority = ground (arith, p.majority);
            })
        | inr u ↦ rw u (b.placed j l)
      ]

      IsDurable-update : (j : ℕ) → j < n → IsDurable gob (update peers i rf j)
      IsDurable-update j l = elim (update_cases peers i rf j) [
        | inl (e, u) ↦ rw u d.0
        | inr u ↦ rw u (b.durable j l)
      ]

      IsPast-update : (v : Vote) → In v votes → (v.voter < n) × IsPast (update peers i rf) v
      IsPast-update v h = elim (update_cases peers i rf v.voter) [
        | inl (e, u) ↦
            let q = b.past v h in
            rw u (
              q.0,
              IsLater-trans _ _ _ _ _ _ q.1 (subst (λ k. IsLaterStored gob (peers k) rf) e d.1),
            )
        | inr u ↦ rw u (b.past v h)
      ]

      led-rf : is_leader rf.state ≡ true → Elected n votes i rf.current_term
      led-rf h = elim leads [
        | inl (inl f) ↦ cc (f, h)
        | inl (inr (s, t)) ↦
            subst (λ k. Elected n votes i k) (sym t) (b.led i here (ap is_leader (sym s) ∙ h))
        | inr e ↦ e
      ]

      led-update :
          (j : ℕ)
          → j < n
          → is_leader (update peers i rf j).state ≡ true
          → Elected n votes j (update peers i rf j).current_term
      led-update j l h = elim (update_cases peers i rf j) [
        | inl (e, u) ↦ rw u (subst (λ k. Elected n votes k rf.current_term) e (led-rf (rw u at h)))
        | inr u ↦ rw u (b.led j l (rw u at h))
      ]

      pub Balloted-update : Balloted (update peers i rf) votes
      Balloted-update = record {
        placed = IsPlaced-update;
        durable = IsDurable-update;
        past = IsPast-update;
        unique = b.unique;
        led = led-update;
      }

    -- An earlier vote of the same peer in the term of a vote that is persisted is for its candidate.
    same_candidate :
        (v w : Vote)
        → stored gob (peers v.voter).persister.raftstate ≡ (v.term, some v.candidate)
        → In w votes
        → v.voter ≡ w.voter
        → v.term ≡ w.term
        → v.candidate ≡ w.candidate
    same_candidate v w s h p q =
        let l =
          subst
            (λ k.
              IsLater w.term (some w.candidate) (stored gob (peers k).persister.raftstate).0
                (stored gob (peers k).persister.raftstate).1)
            (sym p) (b.past w h).1 in
        ground (arith, s, l, q)

    -- A vote that the voter has persisted joins the history.
    pub Balloted-cons :
        (v : Vote)
        → v.voter < n
        → stored gob (peers v.voter).persister.raftstate ≡ (v.term, some v.candidate)
        → Balloted peers (v ∷ votes)
    Balloted-cons v l s = record {
      placed = b.placed;
      durable = b.durable;
      past = past-cons;
      unique = unique-cons;
      led = λ i k h. Elected-cons v votes i _ (b.led i k h);
    }
      where
        past-cons : (w : Vote) → In w (v ∷ votes) → (w.voter < n) × IsPast peers w
        past-cons w (inl e) =
            subst (λ x. (x.voter < n) × IsPast peers x) (sym e) (l, rw s (inr (refl, inr refl)))
        past-cons w (inr h) = b.past w h

        unique-cons : AreUnique (v ∷ votes)
        unique-cons x y (inl e) (inl e') p q = ap (λ (w : Vote). w.candidate) (e ∙ sym e')
        unique-cons x y (inl e) (inr h) p q =
            ap (λ (w : Vote). w.candidate) e
            ∙ same_candidate v y s h (ap (λ (w : Vote). w.voter) (sym e) ∙ p)
                (ap (λ (w : Vote). w.term) (sym e) ∙ q)
        unique-cons x y (inr h) (inl e) p q = sym (
            ap (λ (w : Vote). w.candidate) e
            ∙ same_candidate v x s h (ap (λ (w : Vote). w.voter) (sym e) ∙ sym p)
                (ap (λ (w : Vote). w.term) (sym e) ∙ sym q))
        unique-cons x y (inr h) (inr k) p q = b.unique x y h k p q
