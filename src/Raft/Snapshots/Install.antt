-- ===== src/Raft/Snapshots/Install.antt =====
-- `InstallSnapShot`: what it keeps, what it throws away, and what it does not persist.
use my.Prelude.{
  ◌+◌, ◌≤◌, ◌<◌, ◌≡◌, ◌⊎◌, inl, inr, refl, false, not, [], ◌∷◌, arith, length, Returns,
}
use my.Raft.State.{Raft, Gob, Clock, encode_raft_state, persistent, is_leader}
use my.Raft.Log.Indexed.{IsIndexed}
use my.Raft.Startup.{make}
use my.Raft.Peer.Votes.{IsRoundTrip}
use my.Raft.Snapshots.{InstallSnapshotArgs, snapshot_entry, install_snap_shot, send_snap_shot_begin}

module _ {C : Type 0} (gob : Gob C) (clock : Clock) (rf : Raft C) (args : InstallSnapshotArgs) where
  -- The log is the old one, or the entry of the snapshot alone.
  install_snap_shot-cases :
      let rf' = (install_snap_shot gob clock rf args).0 in
      ((rf'.log ≡ rf.log) × (rf'.last_included_index ≡ rf.last_included_index))
      ⊎ ((rf'.log ≡ snapshot_entry args ∷ [])
          × (rf'.last_included_index ≡ args.last_included_index)
          × (rf.last_included_index < args.last_included_index))
  unfolding install_snap_shot
  install_snap_shot-cases = ground arith

  install_snap_shot-term : rf.current_term ≤ (install_snap_shot gob clock rf args).0.current_term
  unfolding install_snap_shot
  install_snap_shot-term = ground arith

  -- On every branch, installing a snapshot on a numbered log leaves a numbered log, and neither
  -- the snapshot nor the term moves back.
  pub install_snap_shot-IsIndexed :
      IsIndexed rf
      → let rf' = (install_snap_shot gob clock rf args).0 in
        IsIndexed rf'
        × (rf.last_included_index ≤ rf'.last_included_index)
        × (rf.current_term ≤ rf'.current_term)
  install_snap_shot-IsIndexed i = elim install_snap_shot-cases [
    | inl (l, b) ↦ (
      record { nonempty = rw l i.nonempty; indexed = rw (l, b) i.indexed },
      omega arith,
      install_snap_shot-term,
    )
    | inr (l, b, k) ↦ (
      record { nonempty = rw l (omega arith); indexed = rw (l, b) (refl, tt) },
      omega arith,
      install_snap_shot-term,
    )
  ]

  -- A newer snapshot, of a term that is not stale, that ends before the last entry of the log
  -- makes the log end earlier than it did, whatever its entries are.
  pub install_snap_shot-loses :
      rf.current_term ≤ args.term
      → rf.last_included_index < args.last_included_index
      → args.last_included_index + 1 < rf.last_included_index + length rf.log
      → let rf' = (install_snap_shot gob clock rf args).0 in
        rf'.last_included_index + length rf'.log < rf.last_included_index + length rf.log
  unfolding install_snap_shot
  install_snap_shot-loses h k l = ground arith

  -- A snapshot of a newer term that the peer has already raises the term in memory alone: where
  -- the state was persisted before, and the encoding gives back what was encoded, a restart
  -- returns to the old term.
  pub install_snap_shot-forgets :
      IsRoundTrip gob
      → rf.persister.raftstate ≡ encode_raft_state gob rf
      → rf.current_term < args.term
      → args.last_included_index ≤ rf.last_included_index
      → let rf' = (install_snap_shot gob clock rf args).0 in
        (rf'.current_term ≡ args.term)
        × Returns
            (make gob clock rf'.peers rf'.me rf'.persister)
            λ restarted. restarted.current_term ≡ rf.current_term
  unfolding install_snap_shot make encode_raft_state
  install_snap_shot-forgets trip s h k =
      (ground arith, ground (arith, trip.decodes (persistent rf), trip.nonempty (persistent rf)))

-- A peer with its mutex free that begins to send a snapshot leaves the mutex locked exactly if it
-- is not the leader, and goes on to send exactly if it is.
pub send_snap_shot_begin-mu :
    {C : Type 0} (rf : Raft C)
    → rf.mu ≡ false
    → ((send_snap_shot_begin rf).0.mu ≡ not (is_leader rf.state))
      × ((send_snap_shot_begin rf).1 ≡ is_leader rf.state)
unfolding send_snap_shot_begin
send_snap_shot_begin-mu rf h = ground arith
