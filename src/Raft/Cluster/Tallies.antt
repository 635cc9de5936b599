-- ===== src/Raft/Cluster/Tallies.antt =====
-- How the goroutines of an election count votes in `voteSum` (`AttemptElection` of raft1/raft.go).
use my.Prelude.{
  ℕ, ◌+◌, ◌/◌, ◌≤◌, ◌<◌, ◌≡◌, ◌⊎◌, inl, inr, Bool, true, false, some, List, ◌∷◌, arith, ◌==◌,
  Bool-cases, ==→≡, sym, ap, subst, ◌∙◌,
}
use my.Raft.State.{Raft, Gob}
use my.Raft.Vote.{RequestVoteArgs, RequestVoteReply, handle_vote_reply, become_leader}
use my.Raft.Cluster.{update, In, Vote, Election, vote_of}
use my.Raft.Cluster.Quorum.{size, size-update, size-single}
use my.Raft.Cluster.Moves.{SamePlace, StillLeads}
use my.Raft.Cluster.Ballots.{update_cases, AllVoted, Elected}

-- A reply leaves the count, or it is a vote and adds one; it makes the peer a leader only with a
-- majority, in the term of the election.
abbrev pub Handled :
    {C : Type 0} → Raft C → RequestVoteArgs → RequestVoteReply → ℕ → Raft C → ℕ → Type 0
Handled rf args reply vote_sum rf' vote_sum' =
    SamePlace rf rf'
    × (((vote_sum' ≡ vote_sum) × StillLeads rf rf')
        ⊎ ((reply.vote_grabted ≡ true)
            × (vote_sum' ≡ vote_sum + 1)
            × (StillLeads rf rf' ⊎ ((rf.majority ≤ vote_sum') × (rf'.current_term ≡ args.term)))))

pub handle_vote_reply-Handled :
    {C : Type 0} (gob : Gob C) (rf : Raft C) (vote_sum : ℕ) (args : RequestVoteArgs)
    (reply : RequestVoteReply) (rf' : Raft C) (vote_sum' : ℕ) (won : Bool)
    → handle_vote_reply gob rf vote_sum args reply ≡ some (rf', vote_sum', won)
    → Handled rf args reply vote_sum rf' vote_sum'
unfolding handle_vote_reply become_leader
handle_vote_reply-Handled gob rf vote_sum args reply rf' vote_sum' won h = ground arith

pub record IsCounted (n : ℕ) (votes : List Vote) (e : Election) : Type 0 where
  pub voters : ℕ → Bool
  pub voted : AllVoted votes voters e.args.term e.args.candidate_id
  pub own : e.args.candidate_id ≡ e.candidate
  pub over : (s : ℕ) → voters s ≡ true → e.ended s ≡ true
  pub total : size n voters ≡ e.vote_sum

pub IsCounted-grow :
    {n : ℕ} {votes votes' : List Vote} {e : Election}
    → ((v : Vote) → In v votes → In v votes')
    → IsCounted n votes e
    → IsCounted n votes' e
IsCounted-grow g c = record {
  voters = c.voters;
  voted = λ s h. g _ (c.voted s h);
  own = c.own;
  over = c.over;
  total = c.total;
}

-- An election begins with the candidate's own vote.
pub IsCounted-begin :
    (n i : ℕ) (args : RequestVoteArgs) (votes : List Vote)
    → i < n
    → args.candidate_id ≡ i
    → IsCounted n
        (vote_of i args ∷ votes)
        (record { candidate = i; args = args; vote_sum = 1; ended = λ j. i == j })
IsCounted-begin n i args votes l own = record {
  voters = λ j. i == j;
  voted = λ s h. inl (ap (λ (k : ℕ). vote_of k args) (sym (==→≡ i s h)));
  own = own;
  over = λ s h. h;
  total = size-single n i l;
}

module _ (n : ℕ) (votes : List Vote) (e : Election) (c : IsCounted n votes e) (s : ℕ) where
  ended-update : (j : ℕ) → c.voters j ≡ true → update e.ended s true j ≡ true
  ended-update j h = elim (update_cases e.ended s true j) [
    | inl (p, u) ↦ u
    | inr u ↦ u ∙ c.over j h
  ]

  -- A goroutine that ends without a vote.
  pub IsCounted-same :
      IsCounted n votes (record e { vote_sum = e.vote_sum; ended = update e.ended s true })
  IsCounted-same = record {
    voters = c.voters;
    voted = c.voted;
    own = c.own;
    over = ended-update;
    total = c.total;
  }

  -- One that ends with the vote of its peer.
  pub IsCounted-add :
      s < n
      → e.ended s ≡ false
      → In (vote_of s e.args) votes
      → IsCounted n votes (record e { vote_sum = e.vote_sum + 1; ended = update e.ended s true })
  IsCounted-add l f h = record {
    voters = update c.voters s true;
    voted = λ j k. elim (update_cases c.voters s true j) [
      | inl (p, u) ↦ subst (λ x. In (vote_of x e.args) votes) p h
      | inr u ↦ c.voted j (sym u ∙ k)
    ];
    own = c.own;
    over = λ j k. elim (update_cases c.voters s true j) [
      | inl (p, u) ↦ subst (λ x. update e.ended s true x ≡ true) p (ground arith)
      | inr u ↦ ended-update j (sym u ∙ k)
    ];
    total = size-update n s c.voters l new ∙ ap (λ (k : ℕ). k + 1) c.total;
  }
    where
      new : c.voters s ≡ false
      new = elim (Bool-cases (c.voters s)) [ inl t ↦ cc (c.over s t, f) | inr t ↦ t ]

pub IsCounted-Elected :
    (n : ℕ) (votes : List Vote) (e : Election)
    → IsCounted n votes e
    → n / 2 + 1 ≤ e.vote_sum
    → Elected n votes e.candidate e.args.term
IsCounted-Elected n votes e c h = record {
  voters = c.voters;
  voted = λ s k.
      subst (λ x. In (record { voter = s; term = e.args.term; candidate = x }) votes) c.own
        (c.voted s k);
  enough = omega (arith, c.total);
}
