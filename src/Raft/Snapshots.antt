-- ===== src/Raft/Snapshots.antt =====
-- Snapshots: `Snapshot`, the handler `InstallSnapShot`, and `sendSnapShot` (raft1/raft.go).
pub mod Trim
pub mod Install
use my.Prelude.{
  ℕ, suc, ◌+◌, ◌-◌, Bool, true, false, not, ◌&&◌, Option, none, some, List, [], ◌∷◌, ltb, leb, ◌==◌,
  if◌then◌else◌, ◌>>=◌, get_elem?, set, drop,
}
use my.Raft.State.{
  Raft, LogEntry, Bytes, Gob, Clock, State, leader, follower, is_leader, not_voted, save,
  reset_timer, persist, encode_raft_state, signal,
}
use my.Raft.Log.{get_log_entry}
use my.Raft.Commit.{update_commit_index}

pub record InstallSnapshotArgs : Type 0 where
  pub term : ℕ
  pub leader_id : ℕ
  pub last_included_index : ℕ
  pub last_included_term : ℕ
  pub bytes : Bytes  -- `Data`

pub record InstallSnapshotReply : Type 0 where
  pub term : ℕ

-- `if v > a[server] { a[server] = v }`
unfoldable pub raise_to : List ℕ → ℕ → ℕ → Option (List ℕ)
raise_to a server v = do old ← get_elem? a server; some (if ltb old v then set a server v else a)

module _ {C : Type 0} where
  unfoldable pub snapshot_at : Gob C → Raft C → ℕ → Bytes → Raft C
  unfolding encode_raft_state
  snapshot_at gob rf index snapshot =
      if leb index rf.last_included_index
      then rf
      else (let (entry_at_index, found) = get_log_entry rf index in
          if not found
          then rf
          else (let rf' = record rf {
            log = drop (index - rf.last_included_index) rf.log;
            last_included_index = index;
            last_included_term = entry_at_index.term;
          } in
              record rf' { persister = save rf.persister (encode_raft_state gob rf') snapshot }))

  -- The placeholder that stands for the entries of the snapshot.
  abbrev pub snapshot_entry : InstallSnapshotArgs → LogEntry C
  snapshot_entry args = record {
    command = none;
    term = args.last_included_term;
    index = args.last_included_index;
  }

  unfoldable pub install_snap_shot :
      Gob C → Clock → Raft C → InstallSnapshotArgs → Raft C × InstallSnapshotReply
  unfolding encode_raft_state reset_timer
  install_snap_shot gob clock rf args =
      let reply : InstallSnapshotReply = record { term = rf.current_term } in
      if ltb args.term rf.current_term
      then (rf, reply)
      else (let rf₁ =
            if ltb rf.current_term args.term
            then record rf { current_term = args.term; voted_for = not_voted }
            else rf in
          let rf₂ = reset_timer clock (record rf₁ { state = follower }) in
          if leb args.last_included_index rf.last_included_index
          then (rf₂, reply)
          else (let rf₃ = record rf₂ {
            log = snapshot_entry args ∷ [];
            last_included_index = args.last_included_index;
            last_included_term = args.last_included_term;
          } in
              (
                signal (record rf₃ {
                  persister = save rf.persister (encode_raft_state gob rf₃) args.bytes;
                }),
                reply,
              )))

  -- The first critical section of `sendSnapShot`: whether to make the call. A peer that is not the
  -- leader returns without unlocking `rf.mu`.
  unfoldable pub send_snap_shot_begin : Raft C → Raft C × Bool
  send_snap_shot_begin rf =
      if not (is_leader rf.state) then (record rf { mu = true }, false) else (rf, true)

  -- The second critical section, when a reply has arrived.
  unfoldable pub send_snap_shot_end :
      Gob C → Raft C → ℕ → InstallSnapshotArgs → InstallSnapshotReply → Option (Raft C)
  unfolding persist
  send_snap_shot_end gob rf server args reply =
      if not (args.term == rf.current_term)
      then some rf
      else if ltb rf.current_term reply.term
      then some (persist gob (record rf { current_term = reply.term; state = follower }))
      else do
        match_index ← raise_to rf.match_index server args.last_included_index
        next_index ← raise_to rf.next_index server (args.last_included_index + 1)
        update_commit_index (record rf { match_index = match_index; next_index = next_index })
