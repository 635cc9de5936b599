-- ===== src/Raft/Commit/Majority.antt =====
-- Where the loop of `updateCommitIndex` (raft1/raft.go) ends.
use native.Mathlib.Nat.{add_assoc}
use native.Mathlib.Decide.{dec_le}
use my.Prelude.{
  ℕ, zero, suc, ◌+◌, ◌-◌, ◌≤◌, ◌<◌, ◌≡◌, ◌⊎◌, inl, inr, refl, Bool, true, false, some, List, arith,
  length, get_or, get_elem?-eq_some, Returns, leb, ◌==◌, ◌&&◌, if◌then◌else◌, Bool-cases,
}
use my.Raft.State.{Raft}
use my.Raft.Log.{get_log_entry}
use my.Raft.Log.Indexed.{IsIndexed, index-get_last_log, get_last_log-total}
use my.Raft.Commit.{replica, count_replicas, commit_at, commit_loop, update_commit_index}

-- How many of the peers before `k`, other than `me`, are known to hold the entry at `n`.
abbrev pub holders : List ℕ → ℕ → ℕ → ℕ → ℕ
holders matches me n zero = 0
holders matches me n (suc k) =
    holders matches me n k + (if k == me then 0 else if leb n (get_or matches k 0) then 1 else 0)

module _ {C : Type 0} where
  -- The entry at `n` is of the leader's term, and a majority, the leader included, holds it.
  abbrev pub IsCommittable : Raft C → ℕ → Type 0
  IsCommittable rf n =
      ((get_log_entry rf n).0.term ≡ rf.current_term)
      × (rf.majority ≤ 1 + holders rf.match_index rf.me n rf.peers)

  abbrev is_committable : Raft C → ℕ → Bool
  is_committable rf n =
      (get_log_entry rf n).0.term == rf.current_term
      && leb rf.majority (1 + holders rf.match_index rf.me n rf.peers)

  replica_lem :
      (rf : Raft C) (n i : ℕ)
      → i < length rf.match_index
      → replica rf n i
        ≡ some (if i == rf.me then 0 else if leb n (get_or rf.match_index i 0) then 1 else 0)
  unfolding replica
  replica_lem rf n i h = ground (arith, get_elem?-eq_some rf.match_index i 0 h)

  count_replicas-eq-holders :
      (rf : Raft C) (n rounds i c : ℕ)
      → i + rounds ≤ length rf.match_index
      → count_replicas rf n rounds i (c + holders rf.match_index rf.me n i)
        ≡ some (c + holders rf.match_index rf.me n (i + rounds))
  unfolding count_replicas
  count_replicas-eq-holders rf n zero i c h = let e : i + 0 ≡ i = omega arith in rw e
  count_replicas-eq-holders rf n (suc rounds) i c h =
      rw (replica_lem rf n i (omega arith)) (
        rw (next, moved, add_assoc) (count_replicas-eq-holders rf n rounds (suc i) c (omega arith)))
    where
      next : i + 1 ≡ suc i
      next = omega arith

      moved : i + suc rounds ≡ suc i + rounds
      moved = omega arith

  IsCommittable-test : (rf : Raft C) (n : ℕ) → is_committable rf n ≡ true → IsCommittable rf n
  IsCommittable-test rf n p = ground arith

  not-IsCommittable : (rf : Raft C) (n : ℕ) → is_committable rf n ≡ false → ¬ IsCommittable rf n
  not-IsCommittable rf n p (q, r) = ground arith

  -- The state of the loop: only the commit index and the wake-up change.
  abbrev at : Raft C → ℕ → Bool → Raft C
  at rf c w = record rf { commit_index = c; apply_cond = w }

  commit_at_lem :
      (rf : Raft C) (c n : ℕ) (w : Bool)
      → rf.peers ≤ length rf.match_index
      → commit_at (at rf c w) n ≡ some (if is_committable rf n then at rf n false else at rf c w)
  unfolding commit_at get_log_entry
  commit_at_lem rf c n w h =
      ground (arith, count_replicas-eq-holders (at rf c w) n rf.peers 0 1 (omega arith))

  -- What the loop reaches, from `n` on, with `c` committed so far.
  last_committable : Raft C → ℕ → ℕ → ℕ → ℕ
  last_committable rf zero n c = c
  last_committable rf (suc rounds) n c =
      last_committable rf rounds (n + 1) (if is_committable rf n then n else c)

  commit_loop_lem :
      (rf : Raft C) (rounds n c : ℕ) (w : Bool)
      → rf.peers ≤ length rf.match_index
      → (w' : Bool) × (commit_loop rounds n (at rf c w)
          ≡ some (at rf (last_committable rf rounds n c) w'))
  unfolding commit_loop last_committable
  commit_loop_lem rf zero n c w h = (w, refl)
  commit_loop_lem rf (suc rounds) n c w h = elim (Bool-cases (is_committable rf n)) [
    | inl p ↦ rw (commit_at_lem rf c n w h, p) (commit_loop_lem rf rounds (n + 1) n false h)
    | inr p ↦ rw (commit_at_lem rf c n w h, p) (commit_loop_lem rf rounds (n + 1) c w h)
  ]

  pub record IsLastCommittable (rf : Raft C) (n end c r : ℕ) : Type 0 where
    pub grows : c ≤ r
    pub committable : (r ≡ c) ⊎ ((n ≤ r) × (r < end) × IsCommittable rf r)
    pub last : (m : ℕ) → n ≤ m → m < end → IsCommittable rf m → m ≤ r

  IsLast-yes :
      (rf : Raft C) (n end c r : ℕ)
      → c ≤ n
      → n < end
      → is_committable rf n ≡ true
      → IsLastCommittable rf (n + 1) end n r
      → IsLastCommittable rf n end c r
  IsLast-yes rf n end c r h b p i = record {
    grows = omega (arith, i.grows);
    committable = elim i.committable [
      | inl q ↦ inr (omega arith, omega arith, rw q (IsCommittable-test rf n p))
      | inr q ↦ inr (omega arith, q.1, q.2)
    ];
    last = λ m a k w. elim (dec_le (n + 1) m) [
      | yes l ↦ i.last m l k w
      | no l ↦ omega (arith, i.grows)
    ];
  }

  IsLast-no :
      (rf : Raft C) (n end c r : ℕ)
      → is_committable rf n ≡ false
      → IsLastCommittable rf (n + 1) end c r
      → IsLastCommittable rf n end c r
  IsLast-no rf n end c r p i = record {
    grows = i.grows;
    committable = elim i.committable [ inl q ↦ inl q | inr q ↦ inr (omega arith, q.1, q.2) ];
    last = λ m a k w. elim (dec_le (n + 1) m) [
      | yes l ↦ i.last m l k w
      | no l ↦ let e : m ≡ n = omega arith in absurd (not-IsCommittable rf n p (rw e at w))
    ];
  }

  last_committable-IsLast :
      (rf : Raft C) (rounds n c end : ℕ)
      → end - n ≡ rounds
      → c ≤ n
      → IsLastCommittable rf n end c (last_committable rf rounds n c)
  unfolding last_committable
  last_committable-IsLast rf zero n c end e h = record {
    grows = omega arith;
    committable = inl refl;
    last = λ m a b k. absurd (omega arith);
  }
  last_committable-IsLast rf (suc rounds) n c end e h = elim (Bool-cases (is_committable rf n)) [
    | inl p ↦ rw p (
        IsLast-yes rf n end c _ h (omega arith) p
          (last_committable-IsLast rf rounds (n + 1) n end (omega arith) (omega arith)))
    | inr p ↦ rw p (
        IsLast-no rf n end c _ p
          (last_committable-IsLast rf rounds (n + 1) c end (omega arith) (omega arith)))
  ]

  -- On a numbered log, and with a match index for each peer, the loop does not panic and leaves
  -- the log and the indexes of the peers alone. It ends at the old commit index or at a later
  -- entry of the leader's own term that a majority holds, and no entry after that is such an
  -- entry.
  pub update_commit_index-IsLast :
      (rf : Raft C)
      → IsIndexed rf
      → rf.peers ≤ length rf.match_index
      → Returns (update_commit_index rf) λ rf'.
        IsLastCommittable rf
          (rf.commit_index + 1)
          (rf.last_included_index + length rf.log)
          rf.commit_index
          rf'.commit_index
        × (rf'.log ≡ rf.log)
        × (rf'.last_included_index ≡ rf.last_included_index)
        × (rf'.match_index ≡ rf.match_index)
        × (rf'.next_index ≡ rf.next_index)
  unfolding update_commit_index
  update_commit_index-IsLast rf i h =
      let (last, e) = get_last_log-total rf i.nonempty in
      let rounds : ℕ = last.index + 1 - (rf.commit_index + 1) in
      let (w, p) =
        commit_loop_lem rf rounds (rf.commit_index + 1) rf.commit_index rf.apply_cond h in
      rw (e, p) (done last.index (index-get_last_log rf i e), refl, refl, refl, refl)
    where
      done :
          (l : ℕ)
          → l + 1 ≡ rf.last_included_index + length rf.log
          → IsLastCommittable rf
              (rf.commit_index + 1)
              (rf.last_included_index + length rf.log)
              rf.commit_index
              (last_committable rf
                (l + 1 - (rf.commit_index + 1))
                (rf.commit_index + 1)
                rf.commit_index)
      done l q =
          rw q (
            last_committable-IsLast rf _ (rf.commit_index + 1) rf.commit_index _ refl (omega arith))
