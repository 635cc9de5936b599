-- ===== src/Raft/Cluster/Leaders.antt =====
-- The leaders of one term among the peers of raft1/raft.go.
use my.Prelude.{ℕ, ◌<◌, ◌≡◌, refl, subst, sym, true, List, arith}
use my.Raft.State.{Gob, is_leader}
use my.Raft.Peer.Votes.{IsRoundTrip}
use my.Raft.Cluster.{Cluster, IsInitial, Reach, Vote}
use my.Raft.Cluster.Quorum.{common_member}
use my.Raft.Cluster.Ballots.{AreUnique, Elected}
use my.Raft.Cluster.Invariant.{Reach-Inv}

-- Two majorities share a peer, and that peer gave one vote.
pub Elected-unique :
    (n i j t : ℕ) (votes : List Vote)
    → AreUnique votes
    → Elected n votes i t
    → Elected n votes j t
    → i ≡ j
Elected-unique n i j t votes u e e' =
    let (s, l, p, q) = common_member n e.voters e'.voters (omega (arith, e.enough, e'.enough)) in
    u _ _ (e.voted s p) (e'.voted s q) refl refl

-- However requests, replies, elections, restarts and the other steps of the peers interleave, with
-- messages lost, repeated and reordered: in what is reached from peers that were made with nothing
-- persisted, two peers of the group that are leaders of the same term are one peer. The encoding
-- gives back what was encoded.
pub leader_of_term :
    {C : Type 0} (gob : Gob C) (n : ℕ) (c c' : Cluster C) (i j : ℕ)
    → IsRoundTrip gob
    → IsInitial gob n c
    → Reach gob n c c'
    → i < n
    → j < n
    → is_leader (c'.peers i).state ≡ true
    → is_leader (c'.peers j).state ≡ true
    → (c'.peers i).current_term ≡ (c'.peers j).current_term
    → i ≡ j
leader_of_term gob n c c' i j trip z r li lj hi hj same =
    let b = (Reach-Inv gob trip n z r).ballots in
    Elected-unique n i j (c'.peers i).current_term c'.votes b.unique (b.led i li hi)
      (subst (Elected n c'.votes j) (sym same) (b.led j lj hj))
