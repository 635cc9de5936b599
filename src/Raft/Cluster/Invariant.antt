-- ===== src/Raft/Cluster/Invariant.antt =====
-- The invariant of the elections of a cluster over its turns (raft1/raft.go).
use my.Prelude.{
  ℕ, ◌<◌, ◌≡◌, ◌⊎◌, inl, inr, refl, Bool, true, false, some, List, ◌∷◌, arith, ◌==◌, sym, ap, subst,
  ◌∙◌,
}
use my.Prelude.Maps.{Map, insert, nat_eq}
use my.Raft.State.{Raft, Gob, Clock, is_leader, make_persister}
use my.Raft.Startup.{make}
use my.Raft.Vote.{RequestVoteArgs, RequestVoteReply, request_vote, attempt_election}
use my.Raft.Peer.{vote, elect, voted}
use my.Raft.Peer.Votes.{
  IsRoundTrip, stored, stored-encode, Step-IsDurable, request_vote-Granted, Granted-stored,
  make-IsDurable_start,
}
use my.Raft.Cluster.{
  update, In, Vote, Sent, Election, Cluster, vote_of, count_vote, Turn, asked, began, answered,
  apart, Reach, here, later, IsInitial,
}
use my.Raft.Cluster.Moves.{StillLeads, request_vote-Keeps, attempt_election-Keeps, Step-Keeps}
use my.Raft.Cluster.Ballots.{Balloted, Balloted-update, Balloted-cons, Elected, IsPlaced}
use my.Raft.Cluster.Tallies.{
  IsCounted, IsCounted-grow, IsCounted-begin, IsCounted-same, IsCounted-add, IsCounted-Elected,
  Handled, handle_vote_reply-Handled,
}

pub insert_cases :
    {V : Type 0} (m : Map ℕ V) (k : ℕ) (v : V) (j : ℕ)
    → (insert k v m j ≡ some v) ⊎ (insert k v m j ≡ m j)
insert_cases m k v j = ground arith

module _ {C : Type 0} (gob : Gob C) (trip : IsRoundTrip gob) (n : ℕ) where
  pub record Inv (c : Cluster C) : Type 0 where
    pub ballots : Balloted gob n c.peers c.votes
    pub answers :
        (m : Sent) → In m c.sent → m.reply.vote_grabted ≡ true → In (vote_of m.voter m.args) c.votes
    pub counted : (k : ℕ) (e : Election) → c.elections k ≡ some e → IsCounted n c.votes e

  IsCounted-insert :
      (c : Cluster C) (votes : List Vote) (k : ℕ) (e : Election)
      → ((v : Vote) → In v c.votes → In v votes)
      → Inv c
      → IsCounted n votes e
      → (j : ℕ) (e' : Election) → insert k e c.elections j ≡ some e'
      → IsCounted n votes e'
  IsCounted-insert c votes k e g inv new j e' h = elim (insert_cases c.elections k e j) [
    | inl p ↦ subst (IsCounted n votes) (ground (arith, p, h)) new
    | inr p ↦ IsCounted-grow g (inv.counted j e' (sym p ∙ h))
  ]

  update_self : {A : Type 0} (f : ℕ → A) (i : ℕ) (a : A) → update f i a i ≡ a
  update_self f i a = ground arith

  count_vote-grows :
      (i : ℕ) (args : RequestVoteArgs) (g : Bool) (votes : List Vote) (v : Vote)
      → In v votes
      → In v (count_vote i args g votes)
  count_vote-grows i args true votes v h = inr h
  count_vote-grows i args false votes v h = h

  count_vote-here :
      (i : ℕ) (args : RequestVoteArgs) (g : Bool) (votes : List Vote)
      → g ≡ true
      → In (vote_of i args) (count_vote i args g votes)
  count_vote-here i args true votes h = inl refl
  count_vote-here i args false votes h = cc

  -- The history after a reply, given what a granted vote left in the persister.
  Balloted-count :
      (peers : ℕ → Raft C) (votes : List Vote) (i : ℕ) (args : RequestVoteArgs) (g : Bool)
      → Balloted gob n peers votes
      → i < n
      → (g ≡ true → stored gob (peers i).persister.raftstate ≡ (args.term, some args.candidate_id))
      → Balloted gob n peers (count_vote i args g votes)
  Balloted-count peers votes i args true b l s = Balloted-cons gob n b (vote_of i args) l (s refl)
  Balloted-count peers votes i args false b l s = b

  asked-Inv :
      (c : Cluster C) (i : ℕ) (clock : Clock) (args : RequestVoteArgs) (reply : RequestVoteReply)
      (rf : Raft C)
      → i < n
      → request_vote gob clock (c.peers i) args ≡ some (rf, reply)
      → Inv c
      → Inv (record c {
        peers = update c.peers i rf;
        sent = record { voter = i; args = args; reply = reply } ∷ c.sent;
        votes = count_vote i args reply.vote_grabted c.votes;
      })
  asked-Inv c i clock args reply rf l h inv =
      let keeps = request_vote-Keeps gob (c.peers i) clock args reply h in
      let moved =
        Balloted-update gob n inv.ballots i rf l keeps.0
          (Step-IsDurable gob trip (vote clock args reply h) (inv.ballots.durable i l))
          (inl keeps.1) in
      record {
        ballots =
            Balloted-count (update c.peers i rf) c.votes i args reply.vote_grabted moved l (λ g.
              subst
                (λ (x : Raft C).
                  stored gob x.persister.raftstate ≡ (args.term, some args.candidate_id))
                (sym (update_self c.peers i rf))
                (Granted-stored gob trip {rf = c.peers i} rf
                  (request_vote-Granted gob trip (c.peers i) clock args reply rf h g)));
        answers = answers;
        counted = λ k e p.
            IsCounted-grow (count_vote-grows i args reply.vote_grabted c.votes) (inv.counted k e p);
      }
    where
      answers :
          (m : Sent)
          → In m (record { voter = i; args = args; reply = reply } ∷ c.sent)
          → m.reply.vote_grabted ≡ true
          → In (vote_of m.voter m.args) (count_vote i args reply.vote_grabted c.votes)
      answers m (inl e) g =
          subst
            (λ (x : Sent).
              In (vote_of x.voter x.args) (count_vote i args reply.vote_grabted c.votes))
            (sym e)
            (count_vote-here i args reply.vote_grabted c.votes
              (ap (λ (x : Sent). x.reply.vote_grabted) (sym e) ∙ g))
      answers m (inr k) g = count_vote-grows i args reply.vote_grabted c.votes _ (inv.answers m k g)

  -- What an election persists is the candidate's vote for itself.
  attempt_election-stored :
      (rf : Raft C) (clock : Clock) (args : RequestVoteArgs) (rf' : Raft C)
      → attempt_election gob clock rf ≡ some (rf', args)
      → (args.candidate_id ≡ rf.me)
        × (stored gob rf'.persister.raftstate ≡ (args.term, some args.candidate_id))
  unfolding attempt_election
  attempt_election-stored rf clock args rf' h = ground (arith, stored-encode gob trip rf')

  began-Inv :
      (c : Cluster C) (i k : ℕ) (clock : Clock) (args : RequestVoteArgs) (rf : Raft C)
      → i < n
      → attempt_election gob clock (c.peers i) ≡ some (rf, args)
      → Inv c
      → Inv (record c {
        peers = update c.peers i rf;
        elections =
            insert k
              (record { candidate = i; args = args; vote_sum = 1; ended = λ j. i == j })
              c.elections;
        votes = vote_of i args ∷ c.votes;
      })
  began-Inv c i k clock args rf l h inv =
      let keeps = attempt_election-Keeps gob (c.peers i) clock args h in
      let (own, past) = attempt_election-stored (c.peers i) clock args rf h in
      let moved =
        Balloted-update gob n inv.ballots i rf l keeps.0
          (Step-IsDurable gob trip (elect clock args h) (inv.ballots.durable i l)) (inl keeps.1) in
      record {
        ballots = Balloted-cons gob n moved (vote_of i args) l (
            subst
              (λ (x : Raft C).
                stored gob x.persister.raftstate ≡ (args.term, some args.candidate_id))
              (sym (update_self c.peers i rf)) past);
        answers = λ m p g. inr (inv.answers m p g);
        counted =
            IsCounted-insert c (vote_of i args ∷ c.votes) k _ (λ v p. inr p) inv
              (IsCounted-begin n i args c.votes l (own ∙ (inv.ballots.placed i l).me));
      }

  -- What a goroutine leaves: the count of its election, and a leader only with a majority of votes.
  answered-counts :
      (c : Cluster C) (k s : ℕ) (e : Election) (reply : RequestVoteReply) (rf : Raft C)
      (vote_sum : ℕ)
      → e.candidate < n
      → s < n
      → c.elections k ≡ some e
      → e.ended s ≡ false
      → In (record { voter = s; args = e.args; reply = reply }) c.sent
      → Handled (c.peers e.candidate) e.args reply e.vote_sum rf vote_sum
      → Inv c
      → IsCounted n c.votes (record e { vote_sum = vote_sum; ended = update e.ended s true })
        × (StillLeads (c.peers e.candidate) rf ⊎ Elected n c.votes e.candidate rf.current_term)
  answered-counts c k s e reply rf vote_sum l ls h f m (place, inl (same, leads)) inv = (
    subst (λ x. IsCounted n c.votes (record e { vote_sum = x; ended = update e.ended s true }))
        (sym same) (IsCounted-same n c.votes e (inv.counted k e h) s),
    inl leads,
  )
  answered-counts c k s e reply rf vote_sum l ls h f m (place, inr (g, more, leads)) inv =
      let counted =
        subst (λ x. IsCounted n c.votes (record e { vote_sum = x; ended = update e.ended s true }))
          (sym more) (IsCounted-add n c.votes e (inv.counted k e h) s ls f (inv.answers _ m g)) in
      (
        counted,
        elim leads [
          | inl still ↦ inl still
          | inr (enough, t) ↦ inr (
              subst (λ x. Elected n c.votes e.candidate x) (sym t)
                (IsCounted-Elected n c.votes _ counted
                  (omega (arith, (inv.ballots.placed e.candidate l).majority))))
        ],
      )

  -- Every turn keeps the invariant.
  pub Turn-Inv : {c c' : Cluster C} → Turn gob n c c' → Inv c → Inv c'
  Turn-Inv {c} (asked i clock args reply rf l h) inv = asked-Inv c i clock args reply rf l h inv
  Turn-Inv {c} (began i k clock args rf l new h) inv = began-Inv c i k clock args rf l h inv
  Turn-Inv {c} (answered k s e reply rf vote_sum won l ls h f m t) inv =
      let handled =
        handle_vote_reply-Handled gob (c.peers e.candidate) e.vote_sum e.args reply rf vote_sum won
          t in
      let (counted, leads) = answered-counts c k s e reply rf vote_sum l ls h f m handled inv in
      record {
        ballots =
            Balloted-update gob n inv.ballots e.candidate rf l handled.0
              (Step-IsDurable gob trip (voted e.vote_sum e.args reply vote_sum won t)
                (inv.ballots.durable e.candidate l))
              leads;
        answers = inv.answers;
        counted = IsCounted-insert c c.votes k _ (λ v p. p) inv counted;
      }
  Turn-Inv {c} (apart i rf l s a) inv =
      let p = inv.ballots.placed i l in
      let keeps = Step-Keeps gob s a (ground (arith, p.majority, p.peers)) in
      record {
        ballots =
            Balloted-update gob n inv.ballots i rf l keeps.0
              (Step-IsDurable gob trip s (inv.ballots.durable i l)) (inl keeps.1);
        answers = inv.answers;
        counted = inv.counted;
      }

  -- A peer that was just made leads nobody.
  make-IsPlaced :
      (clock : Clock) (i : ℕ) (rf : Raft C)
      → make gob clock n i make_persister ≡ some rf
      → IsPlaced n i rf × (is_leader rf.state ≡ false)
  unfolding make
  make-IsPlaced clock i rf h =
      (record { me = ground arith; peers = ground arith; majority = ground arith }, ground arith)

  IsInitial-Inv : (c : Cluster C) → IsInitial gob n c → Inv c
  IsInitial-Inv c z = record {
    ballots = record {
      placed = λ i l. (make-IsPlaced (z.made i).0 i (c.peers i) (z.made i).1).0;
      durable = λ i l.
          make-IsDurable_start gob trip (z.made i).0 n i make_persister (c.peers i) (z.made i).1;
      past = λ v h. absurd (rw z.votes at h);
      unique = λ v w h. absurd (rw z.votes at h);
      led = λ i l h. cc (h, (make-IsPlaced (z.made i).0 i (c.peers i) (z.made i).1).1);
    };
    answers = λ m h. absurd (rw z.sent at h);
    counted = λ k e h. cc (h, z.elections k);
  }

  pub Reach-Inv : {c c' : Cluster C} → IsInitial gob n c → Reach gob n c c' → Inv c'
  Reach-Inv {c} z here = IsInitial-Inv c z
  Reach-Inv z (later r t) = Turn-Inv t (Reach-Inv z r)
