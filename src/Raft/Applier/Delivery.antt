-- ===== src/Raft/Applier/Delivery.antt =====
-- What the applier of raft1/raft.go sends to the service.
use my.Prelude.{
  ℕ, zero, suc, ◌+◌, ◌-◌, ◌≤◌, ◌<◌, ◌≡◌, ◌⊎◌, inl, inr, refl, sym, ap, ◌∙◌, true, false, some, List,
  [], ◌∷◌, map, arith, length, get_elem?, take, drop, length-take, length-drop, Returns,
}
use my.Raft.State.{Raft, LogEntry}
use my.Raft.Log.{get_log_slices}
use my.Raft.Log.Indexed.{IsIndexed, IndexedFrom, IndexedFrom-drop}
use my.Raft.Applier.{
  ApplyMsg, command_msg, snapshot_msg, Applying, send, wait, entry_msg, apply_next, applier_woken,
  nothing_to_apply, kill,
}

module _ {C : Type 0} where
  -- The messages are the commands of the log's entries from the index `n` on, one by one, each with
  -- the entry's command, term and index.
  abbrev pub CommandsFrom : Raft C → ℕ → List (ApplyMsg C) → Type 0
  CommandsFrom rf n [] = Unit
  CommandsFrom rf n (command_msg c t i ∷ ms) =
      ((e : LogEntry C) × (get_elem? rf.log (n - rf.last_included_index) ≡ some e)
        × (c ≡ e.command)
        × (t ≡ e.term)
        × (i ≡ n))
      × CommandsFrom rf (n + 1) ms
  CommandsFrom rf n (snapshot_msg b t i ∷ ms) = ⊥

  get_elem?-drop :
      (log : List (LogEntry C)) (k j : ℕ) → get_elem? (drop k log) j ≡ get_elem? log (k + j)
  get_elem?-drop log zero j = let e : 0 + j ≡ j = omega arith in rw e refl
  get_elem?-drop [] (suc k) j = refl
  get_elem?-drop (x ∷ log) (suc k) j =
      let e : suc k + j ≡ suc (k + j) = omega arith in rw e (get_elem?-drop log k j)

  -- The entries of a part of the log, from the index `n` on.
  CommandsFrom-map :
      (rf : Raft C) (n k : ℕ) (log : List (LogEntry C))
      → rf.last_included_index ≤ n
      → ((j : ℕ) → get_elem? log j ≡ get_elem? rf.log (n - rf.last_included_index + j))
      → IndexedFrom n log
      → CommandsFrom rf n (map entry_msg (take k log))
  CommandsFrom-map rf n zero log b at h = tt
  CommandsFrom-map rf n (suc k) [] b at h = tt
  CommandsFrom-map rf n (suc k) (e ∷ log) b at h =
      let here : n - rf.last_included_index + 0 ≡ n - rf.last_included_index = omega arith in
      (
        (e, sym (at 0 ∙ ap (λ (m : ℕ). get_elem? rf.log m) here), refl, refl, h.0),
        CommandsFrom-map rf (n + 1) k log (omega arith)
            (λ j.
              let next : n - rf.last_included_index + suc j ≡ n + 1 - rf.last_included_index + j =
                omega arith in
              at (suc j) ∙ ap (λ (m : ℕ). get_elem? rf.log m) next)
            h.1,
      )

  length-map_entry : (log : List (LogEntry C)) → length (map entry_msg log) ≡ length log
  length-map_entry [] = refl
  length-map_entry (e ∷ log) = ap suc (length-map_entry log)

  -- The commit index lies in the log.
  abbrev pub CommitInLog : Raft C → Type 0
  CommitInLog rf = rf.commit_index < rf.last_included_index + length rf.log

  -- What the applier does next is to go back to sleep, to hand over the snapshot that the service
  -- has not seen, or to hand over the entries after the last applied one up to the commit index.
  pub data Delivers (rf : Raft C) : Applying C → Type 0 where
    sleeps :
        rf.commit_index ≤ rf.last_applied
        → rf.last_included_index ≤ rf.last_applied
        → Delivers rf wait
    installs :
        rf.last_applied < rf.last_included_index
        → Delivers rf (
            send
              (snapshot_msg rf.persister.snapshot rf.last_included_term rf.last_included_index ∷ [])
              rf.last_included_index)
    commands :
        (ms : List (ApplyMsg C))
        → rf.last_included_index ≤ rf.last_applied
        → CommandsFrom rf (rf.last_applied + 1) ms
        → rf.last_applied + length ms ≡ rf.commit_index
        → 0 < length ms
        → Delivers rf (send ms rf.commit_index)

  module _ (rf : Raft C) (i : IsIndexed rf) (c : CommitInLog rf) where
    entries : List (LogEntry C)
    entries =
        take
          (rf.commit_index
            + 1
            - rf.last_included_index
            - (rf.last_applied + 1 - rf.last_included_index))
          (drop (rf.last_applied + 1 - rf.last_included_index) rf.log)

    module _ (b : rf.last_included_index ≤ rf.last_applied)
        (l : rf.last_applied < rf.commit_index) where
      slices : get_log_slices rf (rf.last_applied + 1) (rf.commit_index + 1) ≡ some (entries, true)
      unfolding get_log_slices entries
      slices = ground arith

      length-entries : rf.last_applied + length entries ≡ rf.commit_index
      unfolding entries
      length-entries =
          let k : ℕ = rf.last_applied + 1 - rf.last_included_index in
          omega (
            arith,
            length-take (rf.commit_index + 1 - rf.last_included_index - k) (drop k rf.log),
            length-drop k rf.log,
          )

      numbered : CommandsFrom rf (rf.last_applied + 1) (map entry_msg entries)
      unfolding entries
      numbered =
          let k : ℕ = rf.last_applied + 1 - rf.last_included_index in
          let p : rf.last_included_index + k ≡ rf.last_applied + 1 = omega arith in
          CommandsFrom-map rf (rf.last_applied + 1) _ (drop k rf.log) (omega arith)
            (get_elem?-drop rf.log k)
            (rw p at (IndexedFrom-drop rf.last_included_index k rf.log (omega arith) i.indexed))

      next_commands : apply_next rf ≡ some (send (map entry_msg entries) rf.commit_index)
      unfolding apply_next
      next_commands = ground (arith, slices, length-entries)

    applier_woken_cases :
        (applier_woken rf ≡ some (record rf { apply_cond = true }, wait)
          × (rf.commit_index ≤ rf.last_applied)
          × (rf.last_included_index ≤ rf.last_applied))
        ⊎ ((nothing_to_apply rf ≡ false)
            × ((rf.last_applied < rf.last_included_index)
                ⊎ ((rf.last_included_index ≤ rf.last_applied)
                    × (rf.last_applied < rf.commit_index))))
    unfolding applier_woken
    applier_woken_cases = ground arith

    woken_installs :
        rf.last_applied < rf.last_included_index
        → nothing_to_apply rf ≡ false
        → applier_woken rf
          ≡ some (
            rf,
            send
                (snapshot_msg rf.persister.snapshot rf.last_included_term rf.last_included_index
                  ∷ [])
                rf.last_included_index,
          )
    unfolding applier_woken apply_next
    woken_installs h k = ground arith

    woken_commands :
        (n : Applying C)
        → apply_next rf ≡ some n
        → nothing_to_apply rf ≡ false
        → applier_woken rf ≡ some (rf, n)
    unfolding applier_woken
    woken_commands n h k = ground arith

    -- With a numbered log that has the committed entries, the applier does not panic and does not
    -- go round its loop in vain: it sleeps when there is nothing to apply, hands over the snapshot
    -- that the service has not seen, or hands over the entries after the last applied one up to
    -- the commit index, each with its command, term and index, in order and without a gap.
    pub applier_woken-Delivers : Returns (applier_woken rf) λ out. Delivers rf out.1
    applier_woken-Delivers = elim applier_woken_cases [
      | inl (e, a, b) ↦ rw e (sleeps a b)
      | inr (k, inl h) ↦ rw (woken_installs h k) (installs h)
      | inr (k, inr (b, l)) ↦ rw (woken_commands _ (next_commands b l) k) (
          commands (map entry_msg entries) b (numbered b l)
            (omega (arith, length-map_entry entries, length-entries b l))
            (omega (arith, length-map_entry entries, length-entries b l)))
    ]

  -- A peer that is killed while its applier sleeps with nothing to apply wakes the applier, which
  -- goes back to sleep although the peer is dead.
  pub kill-applier_woken :
      (rf : Raft C)
      → rf.apply_cond ≡ true
      → rf.commit_index ≤ rf.last_applied
      → rf.last_included_index ≤ rf.last_applied
      → ((kill rf).dead ≡ true)
        × ((kill rf).apply_cond ≡ false)
        × Returns
            (applier_woken (kill rf))
            λ out. (out.1 ≡ wait) × (out.0.apply_cond ≡ true) × (out.0.dead ≡ true)
  unfolding kill applier_woken
  kill-applier_woken rf w h k = ground arith
