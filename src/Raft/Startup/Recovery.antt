-- ===== src/Raft/Startup/Recovery.antt =====
-- A peer of raft1/raft.go that is made again from its persister.
use my.Prelude.{◌≤◌, ◌<◌, ◌≡◌, ◌*◌, [], ◌∷◌, false, arith, Returns}
use my.Raft.State.{Raft, follower, Gob, Clock, persistent, persist, reset_timer, millisecond}
use my.Raft.Applier.{send, snapshot_msg, applier_begin, applier_woken, apply_next}
use my.Raft.Startup.{make}
use my.Raft.Peer.Votes.{IsRoundTrip}

module _ {C : Type 0} where
  -- Every timeout lies between 300 ms, included, and 500 ms, not included.
  pub reset_timer_bounds :
      (clock : Clock) (rf : Raft C)
      → (300 * millisecond ≤ (reset_timer clock rf).election_timeout)
        × ((reset_timer clock rf).election_timeout < 500 * millisecond)
  unfolding reset_timer
  reset_timer_bounds clock rf = (omega arith, omega arith)

  -- The restarted peer: the persisted fields are those of `rf`, and it starts as a follower that has
  -- applied and committed nothing.
  pub record IsRestarted (rf rf' : Raft C) : Type 0 where
    pub same : persistent rf' ≡ persistent rf
    pub snapshot : rf'.persister.snapshot ≡ rf.persister.snapshot
    pub state : rf'.state ≡ follower
    pub commit : rf'.commit_index ≡ 0
    pub applied : rf'.last_applied ≡ 0
    pub alive : rf'.dead ≡ false

  -- Where the encoding gives back what was encoded, a peer that persists its state and is made
  -- again from its persister has the same term, vote, log and snapshot, as a live follower that
  -- has committed and applied nothing.
  pub make-persist :
      (gob : Gob C) (clock : Clock) (rf : Raft C)
      → IsRoundTrip gob
      → Returns (make gob clock rf.peers rf.me (persist gob rf).persister) (IsRestarted rf)
  unfolding make persist
  make-persist gob clock rf trip =
      ground (arith, trip.decodes (persistent rf), trip.nonempty (persistent rf))

  -- The first thing that its applier does is to send the snapshot, if there is one.
  pub IsRestarted-applier_begin :
      (rf rf' : Raft C)
      → IsRestarted rf rf'
      → 0 < rf.last_included_index
      → Returns (applier_begin rf') λ out.
        out.1
        ≡ send
            (snapshot_msg rf.persister.snapshot rf.last_included_term rf.last_included_index ∷ [])
            rf.last_included_index
  unfolding applier_begin applier_woken apply_next
  IsRestarted-applier_begin rf rf' r h = ground (arith, r.same)
