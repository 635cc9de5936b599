-- ===== src/Raft/Matching.antt =====
-- The peers of one group together as they replicate the leaders' logs: `AppendEntries` calls over a
-- network that loses, repeats, delays and reorders them, between elections, crashes and restarts, in
-- a group that takes no snapshots (raft1/raft.go; the goroutines of `BroadcastEntries`).
pub mod Fits
pub mod Saved
pub mod Calls
pub mod Ledger
pub mod Onward
pub mod Steps
pub mod Invariant
pub mod Agreement
use my.Prelude.{
  ℕ, ◌<◌, ◌≡◌, ◌≢◌, Bool, true, false, Option, none, some, List, [], ◌∷◌, if◌then◌else◌,
}
use my.Prelude.Maps.{Map, insert, nat_eq}
use my.Raft.State.{Raft, LogEntry, Gob, is_leader, zero_entry}
use my.Raft.Append.{AppendEntriesArgs}
use my.Raft.Replicate.{prepare, append}
use my.Raft.Peer
use my.Raft.Peer.{Step}
use my.Raft.Cluster.{Cluster, In, Turn, asked, began, answered, apart, IsInitial}

-- `calls` are the calls that were ever sent. `led` is history that no step reads: the log of the
-- leader of each term, as it was last; that of no leader before the first term.
pub record Group (C : Type 0) : Type 0 where
  pub cluster : Cluster C
  pub calls : List (AppendEntriesArgs C)
  pub led : Map ℕ (List (LogEntry C))

module _ {C : Type 0} where
  -- The history after a step of a peer.
  abbrev pub note : Raft C → Map ℕ (List (LogEntry C)) → Map ℕ (List (LogEntry C))
  note rf led = if is_leader rf.state then insert rf.current_term rf.log led else led

  -- A call that arrives was sent, and no step makes, sends or installs a snapshot.
  abbrev pub IsFairStep :
      (gob : Gob C) {rf rf' : Raft C} → List (AppendEntriesArgs C) → Step gob rf rf' → Type 0
  IsFairStep gob calls (Peer.append _ args _ _) = In args calls
  IsFairStep gob calls (Peer.snapshot _ _ _) = ⊥
  IsFairStep gob calls (Peer.install _ _ _ _) = ⊥
  IsFairStep gob calls (Peer.send_begin _ _) = ⊥
  IsFairStep gob calls (Peer.send_end _ _ _ _) = ⊥
  IsFairStep gob calls _ = Unit

  module _ (gob : Gob C) (n : ℕ) where
    -- The peer that makes the turn.
    abbrev pub actor : {c c' : Cluster C} → Turn gob n c c' → ℕ
    actor (asked i _ _ _ _ _ _) = i
    actor (began i _ _ _ _ _ _ _) = i
    actor (answered _ _ e _ _ _ _ _ _ _ _ _ _) = e.candidate
    actor (apart i _ _ _ _) = i

    abbrev pub IsFair : {c c' : Cluster C} → List (AppendEntriesArgs C) → Turn gob n c c' → Type 0
    IsFair calls (apart _ _ _ s _) = IsFairStep gob calls s
    IsFair calls (asked _ _ _ _ _ _ _) = Unit
    IsFair calls (began _ _ _ _ _ _ _ _) = Unit
    IsFair calls (answered _ _ _ _ _ _ _ _ _ _ _ _ _) = Unit

    -- A turn of the cluster, or a call that a peer prepares for another one.
    pub data Move (g : Group C) : Group C → Type 0 where
      turn :
          (c : Cluster C) (t : Turn gob n g.cluster c)
          → IsFair g.calls t
          → Move g (record g { cluster = c; led = note (c.peers (actor t)) g.led })
      sent :
          (i server : ℕ) (args : AppendEntriesArgs C)
          → i < n
          → server ≢ i
          → prepare (g.cluster.peers i) server ≡ some (append args)
          → Move g (record g { calls = args ∷ g.calls })

    -- The peers were made with nothing persisted, nothing was sent and nobody has led.
    pub record IsNew (g : Group C) : Type 0 where
      pub initial : IsInitial gob n g.cluster
      pub calls : g.calls ≡ []
      pub led : g.led ≡ insert 0 (zero_entry ∷ []) (λ _. none)

    pub data Run (g : Group C) : Group C → Type 0 where
      still : Run g g
      onward : {g' g'' : Group C} → Run g g' → Move g' g'' → Run g g''
