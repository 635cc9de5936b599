-- ===== src/Raft/Peer/Votes.antt =====
-- The votes of a peer of raft1/raft.go over any sequence of steps, crashes and restarts included.
use my.Prelude.{
  ℕ, ◌<◌, ◌≡◌, ◌⊎◌, inr, refl, true, Option, none, some, arith, length, ltb, if◌then◌else◌,
}
use my.Raft.State.{
  Raft, Gob, Clock, Bytes, Persister, PersistentState, persistent, encode_raft_state,
}
use my.Raft.Vote.{RequestVoteArgs, RequestVoteReply, request_vote}
use my.Raft.Vote.Grants.{Granted}
use my.Raft.Startup.{make}
use my.Raft.Peer.{
  Step, Reach, vote, elect, voted, append, appended, started, snapshot, install, send_begin,
  send_end, apply_begin, apply_woken, apply_end, killed, restart, here, next,
}
use my.Raft.Peer.Ballot.{
  IsLater, IsLater-trans, Effect, request_vote-Effect, attempt_election-Effect,
  handle_vote_reply-Effect, append_entries-Effect, handle_append_reply-Effect, start-Effect,
  snapshot_at-Effect, install_snap_shot-Effect, send_snap_shot_end-Effect, IsQuiet-Effect,
  send_snap_shot_begin-IsQuiet, applier_woken-IsQuiet, applier_begin-IsQuiet, applier_end-IsQuiet,
  kill-IsQuiet,
}

-- What encoding/gob promises: what was encoded decodes to itself, and is not the empty string.
pub record IsRoundTrip {C : Type 0} (gob : Gob C) : Type 0 where
  pub decodes : (p : PersistentState C) → gob.decode (gob.encode p) ≡ some p
  pub nonempty : (p : PersistentState C) → 0 < length (gob.encode p)

module _ {C : Type 0} (gob : Gob C) where
  abbrev ballot_of : Option (PersistentState C) → ℕ × Option ℕ
  ballot_of none = (0, none)
  ballot_of (some p) = (p.current_term, p.voted_for)

  -- The term and the vote that a restart would read.
  unfoldable pub stored : Bytes → ℕ × Option ℕ
  stored bytes = if ltb (length bytes) 1 then (0, none) else ballot_of (gob.decode bytes)

  -- The ballot is the stored one, or it is empty and of a newer term.
  abbrev pub IsDurable : Raft C → Type 0
  IsDurable rf =
      (((stored rf.persister.raftstate).0 ≡ rf.current_term)
        × ((stored rf.persister.raftstate).1 ≡ rf.voted_for))
      ⊎ (((stored rf.persister.raftstate).0 < rf.current_term) × (rf.voted_for ≡ none))

  abbrev pub IsLaterStored : Raft C → Raft C → Type 0
  IsLaterStored rf rf' =
      let b = stored rf.persister.raftstate in
      let b' = stored rf'.persister.raftstate in IsLater b.0 b.1 b'.0 b'.1

  make-ballot :
      (clock : Clock) (peers me : ℕ) (persister : Persister) (rf' : Raft C)
      → make gob clock peers me persister ≡ some rf'
      → (rf'.current_term ≡ (stored persister.raftstate).0)
        × (rf'.voted_for ≡ (stored persister.raftstate).1)
        × (rf'.persister ≡ persister)
  unfolding make stored
  make-ballot clock peers me persister rf' h = ground arith

  module _ (trip : IsRoundTrip gob) where
    pub stored-encode :
        (rf : Raft C) → stored (encode_raft_state gob rf) ≡ (rf.current_term, rf.voted_for)
    unfolding stored encode_raft_state
    stored-encode rf = ground (arith, trip.decodes (persistent rf), trip.nonempty (persistent rf))

    Effect-IsDurable :
        (rf rf' : Raft C) → IsDurable rf → Effect gob rf rf' → IsDurable rf' × IsLaterStored rf rf'
    Effect-IsDurable rf rf' d e = ground (arith, stored-encode rf', e.saved, e.later)

    make-IsDurable :
        (clock : Clock) (rf rf' : Raft C)
        → make gob clock rf.peers rf.me rf.persister ≡ some rf'
        → IsDurable rf' × IsLaterStored rf rf'
    make-IsDurable clock rf rf' h =
        ground (arith, make-ballot clock rf.peers rf.me rf.persister rf' h)

    -- Where the encoding gives back what was encoded, every step of a peer with a durable ballot
    -- leaves a durable ballot, and the stored ballot only moves to a later term, or from no vote
    -- to a vote, or stays.
    pub Step-IsDurable :
        {rf rf' : Raft C} → Step gob rf rf' → IsDurable rf → IsDurable rf' × IsLaterStored rf rf'
    Step-IsDurable {rf} {rf'} (vote c a r h) d =
        Effect-IsDurable rf rf' d (request_vote-Effect gob rf c a r h)
    Step-IsDurable {rf} {rf'} (elect c a h) d =
        Effect-IsDurable rf rf' d (attempt_election-Effect gob rf c a h)
    Step-IsDurable {rf} {rf'} (voted n a r m w h) d =
        Effect-IsDurable rf rf' d (handle_vote_reply-Effect gob rf n a r m w h)
    Step-IsDurable {rf} {rf'} (append c a r h) d =
        Effect-IsDurable rf rf' d (append_entries-Effect gob rf c a r h)
    Step-IsDurable {rf} {rf'} (appended n a r h) d =
        Effect-IsDurable rf rf' d (handle_append_reply-Effect gob rf n a r h)
    Step-IsDurable {rf} {rf'} (started c r h) d =
        Effect-IsDurable rf rf' d (start-Effect gob rf c r h)
    Step-IsDurable {rf} {rf'} (snapshot i b h) d =
        Effect-IsDurable rf rf' d (snapshot_at-Effect gob rf i b h)
    Step-IsDurable {rf} {rf'} (install c a r h) d =
        Effect-IsDurable rf rf' d (install_snap_shot-Effect gob rf c a r h)
    Step-IsDurable {rf} {rf'} (send_begin g h) d =
        Effect-IsDurable rf rf' d (IsQuiet-Effect gob rf (send_snap_shot_begin-IsQuiet gob rf g h))
    Step-IsDurable {rf} {rf'} (send_end n a r h) d =
        Effect-IsDurable rf rf' d (send_snap_shot_end-Effect gob rf n a r h)
    Step-IsDurable {rf} {rf'} (apply_begin n h) d =
        Effect-IsDurable rf rf' d (IsQuiet-Effect gob rf (applier_begin-IsQuiet gob rf n h))
    Step-IsDurable {rf} {rf'} (apply_woken n h) d =
        Effect-IsDurable rf rf' d (IsQuiet-Effect gob rf (applier_woken-IsQuiet gob rf n h))
    Step-IsDurable {rf} {rf'} (apply_end n h) d =
        Effect-IsDurable rf rf' d (IsQuiet-Effect gob rf (applier_end-IsQuiet gob rf n h))
    Step-IsDurable {rf} {rf'} (killed h) d =
        Effect-IsDurable rf rf' d (IsQuiet-Effect gob rf (kill-IsQuiet gob rf h))
    Step-IsDurable {rf} {rf'} (restart c h) d = make-IsDurable c rf rf' h

    Reach-IsDurable :
        {rf rf' : Raft C} → Reach gob rf rf' → IsDurable rf → IsDurable rf' × IsLaterStored rf rf'
    Reach-IsDurable {rf} here d = (d, inr (refl, inr refl))
    Reach-IsDurable {rf} {rf'} (next {rf' = rf₁} r s) d =
        let (d₁, l) = Reach-IsDurable r d in
        let (d', l') = Step-IsDurable s d₁ in (d', IsLater-trans _ _ _ _ _ _ l l')

    pub request_vote-Granted :
        (rf : Raft C) (clock : Clock) (args : RequestVoteArgs) (reply : RequestVoteReply)
        (rf' : Raft C)
        → request_vote gob clock rf args ≡ some (rf', reply)
        → reply.vote_grabted ≡ true
        → Granted gob rf args rf'
    unfolding request_vote encode_raft_state
    request_vote-Granted rf clock args reply rf' h g = ground arith

    pub Granted-stored :
        {rf : Raft C} {args : RequestVoteArgs} (rf' : Raft C)
        → Granted gob rf args rf'
        → stored rf'.persister.raftstate ≡ (args.term, some args.candidate_id)
    Granted-stored rf' g = ground (arith, stored-encode rf', g.durable, g.term, g.vote)

    -- Two votes that a peer grants in one term are for one candidate, whatever steps the peer
    -- makes between them, crashes with a restart from the persisted state included. The peer
    -- starts with a durable ballot, and the encoding gives back what was encoded.
    pub votes_once :
        (rf₀ rf₁ rf₂ rf₃ : Raft C) (c c' : Clock) (a a' : RequestVoteArgs) (r r' : RequestVoteReply)
        → IsDurable rf₀
        → request_vote gob c rf₀ a ≡ some (rf₁, r)
        → Reach gob rf₁ rf₂
        → request_vote gob c' rf₂ a' ≡ some (rf₃, r')
        → r.vote_grabted ≡ true
        → r'.vote_grabted ≡ true
        → a.term ≡ a'.term
        → a.candidate_id ≡ a'.candidate_id
    votes_once rf₀ rf₁ rf₂ rf₃ c c' a a' r r' d h reach h' g g' e =
        let (d₁, l) = Step-IsDurable (vote c a r h) d in
        let (d₃, l') = Reach-IsDurable (next reach (vote c' a' r' h')) d₁ in
        ground (
          arith,
          l',
          Granted-stored {rf = rf₀} {args = a} rf₁ (request_vote-Granted rf₀ c a r rf₁ h g),
          Granted-stored {rf = rf₂} {args = a'} rf₃ (request_vote-Granted rf₂ c' a' r' rf₃ h' g'),
        )

    -- A peer that starts, with nothing persisted or after a crash, has a durable ballot.
    pub make-IsDurable_start :
        (clock : Clock) (peers me : ℕ) (persister : Persister) (rf : Raft C)
        → make gob clock peers me persister ≡ some rf
        → IsDurable rf
    make-IsDurable_start clock peers me persister rf h =
        ground (arith, make-ballot clock peers me persister rf h)
