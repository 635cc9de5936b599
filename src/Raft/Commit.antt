-- ===== src/Raft/Commit.antt =====
-- The leader's commit index: `updateCommitIndex` (raft1/raft.go).
pub mod Majority
use my.Prelude.{
  ℕ, zero, suc, ◌+◌, ◌-◌, Bool, true, false, Option, none, some, leb, ◌==◌, if◌then◌else◌, ◌>>=◌,
  get_elem?,
}
use my.Raft.State.{Raft, signal}
use my.Raft.Log.{get_last_log, get_log_entry}

module _ {C : Type 0} where
  -- 1 if peer `i` is another peer that is known to hold the entry at `n`.
  unfoldable pub replica : Raft C → ℕ → ℕ → Option ℕ
  replica rf n i =
      if i == rf.me
      then some 0
      else do m ← get_elem? rf.match_index i; some (if leb n m then 1 else 0)

  -- `for i := range rf.peers`, with `rounds` of the peers left.
  unfoldable pub count_replicas : Raft C → ℕ → ℕ → ℕ → ℕ → Option ℕ
  count_replicas rf n zero i count = some count
  count_replicas rf n (suc rounds) i count = do
    one ← replica rf n i
    count_replicas rf n rounds (i + 1) (count + one)

  -- The body of the loop: the entry at `n` is committed if a majority holds it and it is of the
  -- leader's own term.
  unfoldable pub commit_at : Raft C → ℕ → Option (Raft C)
  commit_at rf n =
      let (cur_entry, _) = get_log_entry rf n in
      if cur_entry.term == rf.current_term
      then (do
        count ← count_replicas rf n rf.peers 0 1
        some (if leb rf.majority count then signal (record rf { commit_index = n }) else rf))
      else some rf

  -- `for N := …; N < lastlog.Index+1; N++`, with `rounds` values of `N` left.
  unfoldable pub commit_loop : ℕ → ℕ → Raft C → Option (Raft C)
  commit_loop zero n rf = some rf
  commit_loop (suc rounds) n rf = do rf' ← commit_at rf n; commit_loop rounds (n + 1) rf'

  unfoldable pub update_commit_index : Raft C → Option (Raft C)
  update_commit_index rf = do
    last_log ← get_last_log rf
    commit_loop (last_log.index + 1 - (rf.commit_index + 1)) (rf.commit_index + 1) rf
