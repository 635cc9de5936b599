-- ===== src/Raft/Matching/Invariant.antt =====
-- The invariant of a group that replicates its leaders' logs, over its moves (raft1/raft.go).
use my.Prelude.{
  ℕ, ◌<◌, ◌≡◌, inl, inr, refl, sym, ap, subst, ◌∙◌, Bool, true, false, none, some, List, [], ◌∷◌,
  arith,
}
use my.Prelude.Maps.{Map, insert, nat_eq}
use my.Raft.State.{Raft, follower, Gob, Clock, is_leader, make_persister, zero_entry}
use my.Raft.Startup.{make}
use my.Raft.Append.{AppendEntriesArgs}
use my.Raft.Peer.Votes.{IsRoundTrip}
use my.Raft.Vote.{RequestVoteArgs}
use my.Raft.Cluster.{Cluster, In, Vote, Turn, asked, began, answered, apart, update, count_vote}
use my.Raft.Cluster
use my.Raft.Cluster.Ballots.{Elected}
use my.Raft.Cluster.Invariant.{Turn-Inv, Reach-Inv}
use my.Raft.Cluster.Invariant
use my.Raft.Matching.{Group, note, actor, IsFair, Move, turn, sent, IsNew, Run, still, onward}
use my.Raft.Matching.Fits.{Log, Fits}
use my.Raft.Matching.Saved.{
  request_vote-Advances, attempt_election-Advances, handle_vote_reply-Advances,
}
use my.Raft.Matching.Calls.{Carried, Carried-Grows, prepare-Carried}
use my.Raft.Matching.Ledger.{IsSound, Ledger}
use my.Raft.Matching.Onward.{Grows-note, Ledger-update}
use my.Raft.Matching.Steps.{Moved, same_log, Step-Moved}

-- Votes that were given stay given.
count_vote-In :
    (i : ℕ) (args : RequestVoteArgs) (g : Bool) (votes : List Vote) (v : Vote)
    → In v votes
    → In v (count_vote i args g votes)
count_vote-In i args true votes v h = inr h
count_vote-In i args false votes v h = h

Elected-grow :
    {n : ℕ} {votes votes' : List Vote}
    → ((v : Vote) → In v votes → In v votes')
    → (t j : ℕ) → Elected n votes j t
    → Elected n votes' j t
Elected-grow g t j e = record {
  voters = e.voters;
  voted = λ s h. g _ (e.voted s h);
  enough = e.enough;
}

module _ {C : Type 0} (gob : Gob C) (trip : IsRoundTrip gob) (n : ℕ) where
  Turn-votes : {c c' : Cluster C} → Turn gob n c c' → (v : Vote) → In v c.votes → In v c'.votes
  Turn-votes {c} (asked i clock args reply rf l h) v m =
      count_vote-In i args reply.vote_grabted c.votes v m
  Turn-votes (began i k clock args rf l new h) v m = inr m
  Turn-votes (answered k s e reply rf vote_sum won l ls h f r t) v m = m
  Turn-votes (apart i rf l s a) v m = m

  pub record Inv (g : Group C) : Type 0 where
    pub cluster : Invariant.Inv gob trip n g.cluster
    pub ledger : Ledger gob n g.cluster.peers g.cluster.votes g.led
    pub carried : (args : AppendEntriesArgs C) → In args g.calls → Carried g.led args

  -- What a turn leaves, by the peer that makes it.
  record Outcome (c c' : Cluster C) (led : Map ℕ (Log C)) (i : ℕ) : Type 0 where
    below : i < n
    after : Raft C
    peers : c'.peers ≡ update c.peers i after
    moved : Moved gob led (c.peers i) after

  Turn-Outcome :
      (g : Group C)
      → Inv g
      → {c' : Cluster C} (t : Turn gob n g.cluster c') → IsFair gob n g.calls t
      → Outcome g.cluster c' g.led (actor gob n t)
  Turn-Outcome g inv (asked i clock args reply rf l h) fair = record {
    below = l;
    after = rf;
    peers = refl;
    moved =
        same_log gob (inv.ledger.sound i l) g.led
          (request_vote-Advances gob (g.cluster.peers i) clock args reply h);
  }
  Turn-Outcome g inv (began i k clock args rf l new h) fair = record {
    below = l;
    after = rf;
    peers = refl;
    moved =
        same_log gob (inv.ledger.sound i l) g.led
          (attempt_election-Advances gob (g.cluster.peers i) clock args h);
  }
  Turn-Outcome g inv (answered k s e reply rf vote_sum won l ls h f r t) fair = record {
    below = l;
    after = rf;
    peers = refl;
    moved = same_log gob (inv.ledger.sound e.candidate l) g.led (
        handle_vote_reply-Advances gob (g.cluster.peers e.candidate) e.vote_sum e.args reply
          vote_sum won t);
  }
  Turn-Outcome g inv (apart i rf l s a) fair = record {
    below = l;
    after = rf;
    peers = refl;
    moved =
        Step-Moved gob (inv.ledger.sound i l) g.led g.calls (inv.ledger.fits i l) inv.ledger.ledgers
          inv.carried s fair;
  }

  played-Inv :
      (g : Group C)
      → Inv g
      → (c' : Cluster C) (t : Turn gob n g.cluster c') → IsFair gob n g.calls t
      → Inv (record g { cluster = c'; led = note (c'.peers (actor gob n t)) g.led })
  played-Inv g inv c' t fair =
      let i : ℕ = actor gob n t in
      let o = Turn-Outcome g inv t fair in
      let after = Turn-Inv gob trip n t inv.cluster in
      let here : o.after ≡ update g.cluster.peers i o.after i = ground arith in
      let leads =
        subst
          (λ (p : ℕ → Raft C).
            (j : ℕ)
            → j < n
            → is_leader (p j).state ≡ true
            → Elected n c'.votes j (p j).current_term)
          o.peers after.ballots.led in
      let grow = Elected-grow (Turn-votes t) in
      let new =
        Ledger-update gob trip n inv.ledger i o.after o.below o.moved.0 o.moved.1 grow
          after.ballots.unique leads in
      let grows =
        Grows-note gob trip n inv.ledger i o.after o.below o.moved.0 o.moved.1 grow
          after.ballots.unique leads in
      let same : note o.after g.led ≡ note (c'.peers i) g.led =
        ap (λ (x : Raft C). note x g.led) (here ∙ sym (ap (λ (p : ℕ → Raft C). p i) o.peers)) in
      record {
        cluster = after;
        ledger =
            subst (λ m. Ledger gob n c'.peers c'.votes m) same
              (subst (λ p. Ledger gob n p c'.votes (note o.after g.led)) (sym o.peers) new);
        carried = λ a m. subst (λ x. Carried x a) same (Carried-Grows a grows (inv.carried a m));
      }

  Move-Inv : {g g' : Group C} → Move gob n g g' → Inv g → Inv g'
  Move-Inv {g} (turn c' t fair) inv = played-Inv g inv c' t fair
  Move-Inv {g} (sent i server args l ne h) inv = record {
    cluster = inv.cluster;
    ledger = inv.ledger;
    carried = λ a m. elim m [
      | inr old ↦ inv.carried a old
      | inl e ↦ subst (Carried g.led) (sym e) (
          prepare-Carried g.led (g.cluster.peers i) server args (inv.ledger.sound i l).indexed
            (inv.ledger.sound i l).base (λ s. inv.ledger.leaders i l (ap is_leader s)) h)
    ];
  }

  make-IsSound :
      (clock : Clock) (i : ℕ) (rf : Raft C)
      → make gob clock n i make_persister ≡ some rf
      → IsSound gob rf × (rf.log ≡ zero_entry ∷ []) × (rf.state ≡ follower)
  unfolding make make_persister
  make-IsSound clock i rf h = ground arith

  Fits-first : (led : Map ℕ (Log C)) → led 0 ≡ some (zero_entry ∷ []) → Fits led (zero_entry ∷ [])
  Fits-first led h [] e [] p = let q : e ≡ zero_entry = cc in ([], rw q h)
  Fits-first led h [] e (x ∷ suf) p = absurd (cc)
  Fits-first led h (x ∷ []) e suf p = absurd (cc)
  Fits-first led h (x ∷ y ∷ pre) e suf p = absurd (cc)

  IsNew-Inv : (g : Group C) → IsNew gob n g → Inv g
  IsNew-Inv g new = record {
    cluster = Reach-Inv gob trip n new.initial Cluster.here;
    ledger = record {
      sound = λ i l. (made i).0;
      fits = λ i l. subst (Fits g.led) (sym (made i).1) (Fits-first g.led first);
      ledgers = λ t log h. subst (Fits g.led) (sym (only t log h).1) (Fits-first g.led first);
      leaders = λ i l h. absurd (cc (h, ap is_leader (made i).2));
      history = λ t log h. inl (only t log h).0;
    };
    carried = λ a m. absurd (rw new.calls at m);
  }
    where
      first : g.led 0 ≡ some (zero_entry ∷ [])
      first = rw new.led refl

      only : (t : ℕ) (log : Log C) → g.led t ≡ some log → (t ≡ 0) × (log ≡ zero_entry ∷ [])
      only t log h =
          let k : insert 0 (zero_entry ∷ []) (λ _. none) t ≡ some log = rw new.led at h in
          ground (arith, k)

      made :
          (i : ℕ)
          → IsSound gob (g.cluster.peers i)
            × ((g.cluster.peers i).log ≡ zero_entry ∷ [])
            × ((g.cluster.peers i).state ≡ follower)
      made i = let (clock, e) = new.initial.made i in make-IsSound clock i (g.cluster.peers i) e

  pub Run-Inv : {g g' : Group C} → IsNew gob n g → Run gob n g g' → Inv g'
  Run-Inv {g} new still = IsNew-Inv g new
  Run-Inv new (onward r m) = Move-Inv m (Run-Inv new r)
