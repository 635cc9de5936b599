-- ===== src/Raft/Cluster.antt =====
-- The peers of one group together: elections over a network that loses, repeats, delays and reorders
-- messages, with crashes (raft1/raft.go; the goroutines of `AttemptElection`).
pub mod Quorum
pub mod Moves
pub mod Ballots
pub mod Tallies
pub mod Invariant
pub mod Leaders
use my.Prelude.{
  ℕ, ◌<◌, ◌≡◌, ◌≢◌, ◌⊎◌, Bool, true, false, Option, none, some, List, [], ◌∷◌, ◌==◌, if◌then◌else◌,
}
use my.Prelude.Maps.{Map, empty, insert, nat_eq}
use my.Raft.State.{Raft, Gob, Clock, make_persister}
use my.Raft.Vote.{
  RequestVoteArgs, RequestVoteReply, request_vote, attempt_election, handle_vote_reply,
}
use my.Raft.Startup.{make}
use my.Raft.Peer.{Step, vote, elect, voted}

-- A family over the peers with the member `i` replaced.
abbrev pub update : {A : Type 0} → (ℕ → A) → ℕ → A → ℕ → A
update f i a j = if i == j then a else f j

abbrev pub In : {A : Type 0} → A → List A → Type 0
In a [] = ⊥
In a (x ∷ xs) = (a ≡ x) ⊎ In a xs

-- The variables that the goroutines of one `AttemptElection` share: `args`, `voteSum`, and which of
-- the goroutines have ended. There is none for the candidate itself.
pub record Election : Type 0 where
  pub candidate : ℕ
  pub args : RequestVoteArgs
  pub vote_sum : ℕ
  pub ended : ℕ → Bool

-- A reply that a peer sent to a request.
pub record Sent : Type 0 where
  pub voter : ℕ
  pub args : RequestVoteArgs
  pub reply : RequestVoteReply

pub record Vote : Type 0 where
  pub voter : ℕ
  pub term : ℕ
  pub candidate : ℕ

-- The peers, the replies that were ever sent, and the elections that were ever begun. `votes` is
-- history that no step reads: the votes that were ever given, to others or to oneself.
pub record Cluster (C : Type 0) : Type 0 where
  pub peers : ℕ → Raft C
  pub sent : List Sent
  pub elections : Map ℕ Election
  pub votes : List Vote

abbrev pub vote_of : ℕ → RequestVoteArgs → Vote
vote_of voter args = record { voter = voter; term = args.term; candidate = args.candidate_id }

-- The votes after a reply.
abbrev pub count_vote : ℕ → RequestVoteArgs → Bool → List Vote → List Vote
count_vote voter args true votes = vote_of voter args ∷ votes
count_vote voter args false votes = votes

module _ {C : Type 0} (gob : Gob C) where
  -- A step of a peer that is not part of an election.
  abbrev pub IsApart : {rf rf' : Raft C} → Step gob rf rf' → Type 0
  IsApart (vote _ _ _ _) = ⊥
  IsApart (elect _ _ _) = ⊥
  IsApart (voted _ _ _ _ _ _) = ⊥
  IsApart _ = Unit

  -- `n` peers. A request arrives at any peer, any number of times; a goroutine of an election takes
  -- one of the replies that its peer sent to the request, or never does.
  pub data Turn (n : ℕ) (c : Cluster C) : Cluster C → Type 0 where
    asked :
        (i : ℕ) (clock : Clock) (args : RequestVoteArgs) (reply : RequestVoteReply) (rf : Raft C)
        → i < n
        → request_vote gob clock (c.peers i) args ≡ some (rf, reply)
        → Turn n c (record c {
          peers = update c.peers i rf;
          sent = record { voter = i; args = args; reply = reply } ∷ c.sent;
          votes = count_vote i args reply.vote_grabted c.votes;
        })
    began :
        (i k : ℕ) (clock : Clock) (args : RequestVoteArgs) (rf : Raft C)
        → i < n
        → c.elections k ≡ none
        → attempt_election gob clock (c.peers i) ≡ some (rf, args)
        → Turn n c (record c {
          peers = update c.peers i rf;
          elections =
              insert k
                (record { candidate = i; args = args; vote_sum = 1; ended = λ j. i == j })
                c.elections;
          votes = vote_of i args ∷ c.votes;
        })
    answered :
        (k s : ℕ) (e : Election) (reply : RequestVoteReply) (rf : Raft C) (vote_sum : ℕ)
        (won : Bool)
        → e.candidate < n
        → s < n
        → c.elections k ≡ some e
        → e.ended s ≡ false
        → In (record { voter = s; args = e.args; reply = reply }) c.sent
        → handle_vote_reply gob (c.peers e.candidate) e.vote_sum e.args reply
          ≡ some (rf, vote_sum, won)
        → Turn n c (record c {
          peers = update c.peers e.candidate rf;
          elections =
              insert k
                (record e { vote_sum = vote_sum; ended = update e.ended s true })
                c.elections;
        })
    apart :
        (i : ℕ) (rf : Raft C)
        → i < n
        → (s : Step gob (c.peers i) rf) → IsApart s
        → Turn n c (record c { peers = update c.peers i rf })

  -- All peers were made with nothing persisted, and nothing was sent.
  pub record IsInitial (n : ℕ) (c : Cluster C) : Type 0 where
    pub made : (i : ℕ) → (clock : Clock) × (make gob clock n i make_persister ≡ some (c.peers i))
    pub sent : c.sent ≡ []
    pub elections : (k : ℕ) → c.elections k ≡ none
    pub votes : c.votes ≡ []

  pub data Reach (n : ℕ) (c : Cluster C) : Cluster C → Type 0 where
    here : Reach n c c
    later : {c' c'' : Cluster C} → Reach n c c' → Turn n c' c'' → Reach n c c''
