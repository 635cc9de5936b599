-- ===== src/Raft/Snapshots/Trim.antt =====
-- What `Snapshot` (raft1/raft.go) leaves of the log.
use native.Mathlib.Decide.{dec_le, dec_lt}
use my.Prelude.{
  ℕ, ◌+◌, ◌-◌, ◌≤◌, ◌<◌, ◌≡◌, ◌⊎◌, inl, inr, refl, ap, ◌∙◌, arith, length, get_or, drop,
  length-drop, get_or-drop,
}
use my.Raft.State.{Raft, LogEntry, Bytes, Gob, zero_entry, encode_raft_state}
use my.Raft.Log.{get_log_entry}
use my.Raft.Log.Indexed.{IsIndexed, IndexedFrom-drop}
use my.Raft.Append.Runs.{term_at}
use my.Raft.Snapshots.{snapshot_at}

module _ {C : Type 0} where
  -- `rf'` has the log of `rf` from its own snapshot on, with the terms of `rf`.
  pub record Trims (rf rf' : Raft C) : Type 0 where
    pub grows : rf.last_included_index ≤ rf'.last_included_index
    pub end : rf'.last_included_index + length rf'.log ≡ rf.last_included_index + length rf.log
    pub terms :
        (j : ℕ)
        → rf'.last_included_index ≤ j
        → term_at rf'.last_included_index rf'.log j ≡ term_at rf.last_included_index rf.log j
    pub indexed : IsIndexed rf'

  module _ (gob : Gob C) (rf : Raft C) (index : ℕ) (snapshot : Bytes) (i : IsIndexed rf) where
    -- The index is past the old snapshot, and the log has an entry there.
    abbrev pub InLog : Type 0
    InLog = (rf.last_included_index < index) × (index < rf.last_included_index + length rf.log)

    trimmed :
        InLog
        → IsIndexed (record rf {
          log = drop (index - rf.last_included_index) rf.log;
          last_included_index = index;
        })
    trimmed h = record {
      nonempty = omega (arith, length-drop (index - rf.last_included_index) rf.log);
      indexed =
          let p : rf.last_included_index + (index - rf.last_included_index) ≡ index = omega arith in
          rw p at (
            IndexedFrom-drop rf.last_included_index (index - rf.last_included_index) rf.log
              (omega arith) i.indexed);
    }

    snapshot_at-unchanged : ¬ InLog → snapshot_at gob rf index snapshot ≡ rf
    unfolding snapshot_at get_log_entry
    snapshot_at-unchanged h =
        let h' : (index ≤ rf.last_included_index)
            ⊎ (rf.last_included_index + length rf.log ≤ index) =
          outside h in
        ground arith
      where
        outside :
            ¬ InLog
            → (index ≤ rf.last_included_index) ⊎ (rf.last_included_index + length rf.log ≤ index)
        outside n = elim (dec_le index rf.last_included_index) [
          | yes p ↦ inl p
          | no p ↦ elim (dec_lt index (rf.last_included_index + length rf.log)) [
            | yes q ↦ absurd (n (omega arith, q))
            | no q ↦ inr (omega arith)
          ]
        ]

    snapshot_at-trims :
        InLog
        → let rf' = snapshot_at gob rf index snapshot in
          (rf'.log ≡ drop (index - rf.last_included_index) rf.log)
          × (rf'.last_included_index ≡ index)
    unfolding snapshot_at get_log_entry
    snapshot_at-trims h = ground arith

    -- Whatever the index, a peer with a numbered log that takes a snapshot keeps the end of its
    -- log, with the same terms at the same indexes, still numbered, and its snapshot does not move
    -- back.
    pub snapshot_at-Trims : Trims rf (snapshot_at gob rf index snapshot)
    snapshot_at-Trims = elim (dec_lt rf.last_included_index index) [
      | no p ↦ rw (snapshot_at-unchanged (λ h. p h.0)) same
      | yes p ↦ elim (dec_lt index (rf.last_included_index + length rf.log)) [
        | no q ↦ rw (snapshot_at-unchanged (λ h. q h.1)) same
        | yes q ↦ trims (p, q) (snapshot_at gob rf index snapshot) (snapshot_at-trims (p, q))
      ]
    ]
      where
        same : Trims rf rf
        same = record { grows = omega arith; end = refl; terms = λ j h. refl; indexed = i }

        trims :
            InLog
            → (rf' : Raft C)
            → (rf'.log ≡ drop (index - rf.last_included_index) rf.log)
              × (rf'.last_included_index ≡ index)
            → Trims rf rf'
        trims h rf' (l, b) = record {
          grows = omega arith;
          end = omega (arith, ap length l, length-drop (index - rf.last_included_index) rf.log);
          terms = λ j k.
              rw (l, b)
                (ap (λ (e : LogEntry C). e.term)
                    (get_or-drop (index - rf.last_included_index) (j - index) rf.log zero_entry)
                  ∙ ap (λ (n : ℕ). (get_or rf.log n zero_entry).term)
                      (let p : index - rf.last_included_index + (j - index)
                            ≡ j - rf.last_included_index =
                          omega arith in
                        p));
          indexed = record {
            nonempty = rw l (trimmed h).nonempty;
            indexed = rw (l, b) (trimmed h).indexed;
          };
        }

    -- A snapshot at an index past the old one and in a numbered log is persisted together with the
    -- trimmed log.
    pub snapshot_at-saves :
        InLog
        → let rf' = snapshot_at gob rf index snapshot in
          (rf'.persister.raftstate ≡ encode_raft_state gob rf')
          × (rf'.persister.snapshot ≡ snapshot)
    unfolding snapshot_at get_log_entry encode_raft_state
    snapshot_at-saves h = ground arith
