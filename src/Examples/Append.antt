-- ===== src/Examples/Append.antt =====
-- `AppendEntries` of raft1/raft.go at a follower that is behind its leader.
use my.Prelude.{ℕ, ◌≡◌, refl, inr, ◌⊎◌, true, false, [], ◌∷◌, arith, Returns}
use my.Raft.Log.Indexed.{IsIndexed}
use my.Raft.Append.{AppendEntriesArgs, append_entries}
use my.Raft.Append.Accepts.{AreNumbered}
use my.Raft.Append.Handler.{Accepted}
use my.Raft.Append.Refuses.{HasPrevious, Refused, append_entries-refuses}
use my.Raft.Append.Splice.{spliced, append_entries-splices}
use my.Raft.Append.Safety.{append_entries-IsIndexed, append_entries-Covers, CommitsCovered, Covers}
use my.Examples.Codec.{gob}
use my.Examples.Peers.{entry, clock, follower_peer, follower_peer-IsIndexed}

-- The leader of term 3 sends the entries after the first; the second conflicts.
abbrev conflicting : AppendEntriesArgs ℕ
conflicting = record {
  term = 3;
  leader_id = 0;
  prev_log_index = 1;
  prev_log_term = 1;
  entries = entry 1 2 ∷ entry 3 3 ∷ [];
  leader_commit = 2;
}

-- The same leader believes that the follower has a second entry of term 1.
abbrev too_far : AppendEntriesArgs ℕ
too_far = record conflicting { prev_log_index = 2; prev_log_term = 1; entries = entry 3 3 ∷ [] }

-- A late call of the leader of term 2.
abbrev late : AppendEntriesArgs ℕ
late = record conflicting {
  term = 2;
  prev_log_index = 0;
  prev_log_term = 0;
  entries = entry 1 1 ∷ [];
  leader_commit = 1;
}

conflicting-HasPrevious : HasPrevious follower_peer conflicting
conflicting-HasPrevious = (omega arith, omega arith, refl)

conflicting-AreNumbered : AreNumbered conflicting
conflicting-AreNumbered = (refl, (refl, tt))

append_entries-splices_example :
    Returns
      (append_entries gob clock follower_peer conflicting)
      λ out. Accepted gob follower_peer conflicting (spliced follower_peer conflicting) out.0 out.1
append_entries-splices_example =
    append_entries-splices gob clock follower_peer conflicting (omega arith) conflicting-HasPrevious
      follower_peer-IsIndexed conflicting-AreNumbered

append_entries-IsIndexed_example :
    Returns (append_entries gob clock follower_peer conflicting) λ out. IsIndexed out.0
append_entries-IsIndexed_example =
    append_entries-IsIndexed gob clock follower_peer conflicting follower_peer-IsIndexed
      conflicting-AreNumbered

append_entries-Covers_example : Returns (append_entries gob clock follower_peer conflicting) λ out.
    CommitsCovered gob clock follower_peer conflicting out.0
    × (((out.1.success ≡ true) × Covers gob clock follower_peer conflicting out.0.log)
        ⊎ (out.1.success ≡ false))
append_entries-Covers_example =
    append_entries-Covers gob clock follower_peer conflicting follower_peer-IsIndexed
      conflicting-AreNumbered (omega arith)

append_entries-refuses_example :
    Returns
      (append_entries gob clock follower_peer too_far)
      λ out. Refused gob follower_peer too_far out.0 out.1
append_entries-refuses_example =
    append_entries-refuses gob clock follower_peer too_far follower_peer-IsIndexed
      (inr (λ h. omega (arith, h.2)))
