-- ===== src/Examples/Snapshot.antt =====
-- Snapshots and the applier of raft1/raft.go at concrete peers.
use my.Prelude.{ℕ, ◌+◌, ◌≤◌, ◌<◌, ◌≡◌, refl, [], ◌∷◌, arith, Returns, length}
use my.Raft.State.{Raft, encode_raft_state}
use my.Raft.Log.Indexed.{IsIndexed}
use my.Raft.Snapshots.{InstallSnapshotArgs, install_snap_shot}
use my.Raft.Snapshots.Install.{
  install_snap_shot-IsIndexed, install_snap_shot-loses, install_snap_shot-forgets,
}
use my.Raft.Applier.{applier_woken}
use my.Raft.Applier.Delivery.{Delivers, applier_woken-Delivers}
use my.Raft.Startup.{make}
use my.Examples.Codec.{gob, gob-IsRoundTrip}
use my.Examples.Peers.{clock, follower_peer, follower_peer-IsIndexed}

abbrev newer : InstallSnapshotArgs
newer = record {
  term = 3;
  leader_id = 0;
  last_included_index = 1;
  last_included_term = 1;
  bytes = 7 ∷ 8 ∷ [];
}

-- A snapshot that the peer has already, from a newer term.
abbrev outdated : InstallSnapshotArgs
outdated = record newer { last_included_index = 0 }

abbrev stored_peer : Raft ℕ
stored_peer = record follower_peer {
  persister = record { raftstate = encode_raft_state gob follower_peer; snapshot = [] };
}

-- A peer that may apply its two entries.
abbrev committed : Raft ℕ
committed = record follower_peer { commit_index = 2 }

install_snap_shot-IsIndexed_example :
    IsIndexed (install_snap_shot gob clock follower_peer newer).0
    × (0 ≤ (install_snap_shot gob clock follower_peer newer).0.last_included_index)
    × (2 ≤ (install_snap_shot gob clock follower_peer newer).0.current_term)
install_snap_shot-IsIndexed_example =
    install_snap_shot-IsIndexed gob clock follower_peer newer follower_peer-IsIndexed

install_snap_shot-loses_example :
    (install_snap_shot gob clock follower_peer newer).0.last_included_index
      + length (install_snap_shot gob clock follower_peer newer).0.log
    < 3
install_snap_shot-loses_example =
    install_snap_shot-loses gob clock follower_peer newer (omega arith) (omega arith) (omega arith)

stored_peer-saved : stored_peer.persister.raftstate ≡ encode_raft_state gob stored_peer
unfolding encode_raft_state
stored_peer-saved = refl

install_snap_shot-forgets_example :
    let rf' = (install_snap_shot gob clock stored_peer outdated).0 in
    (rf'.current_term ≡ 3)
    × Returns
        (make gob clock rf'.peers rf'.me rf'.persister)
        λ restarted. restarted.current_term ≡ 2
install_snap_shot-forgets_example =
    install_snap_shot-forgets gob clock stored_peer outdated gob-IsRoundTrip stored_peer-saved
      (omega arith) (omega arith)

applier_woken-Delivers_example : Returns (applier_woken committed) λ out. Delivers committed out.1
applier_woken-Delivers_example =
    applier_woken-Delivers committed
      (record { nonempty = omega arith; indexed = follower_peer-IsIndexed.indexed }) (omega arith)
