-- ===== src/Raft/Replicate/Leading.antt =====
-- A peer that becomes leader, and the commands that it takes (`BecomeLeader`, `Start`).
use my.Prelude.{
  ℕ, zero, suc, ◌+◌, ◌≤◌, ◌<◌, ◌≡◌, refl, ◌∙◌, true, some, List, [], ◌∷◌, ◌++◌, arith, length,
  get_or, length-append, Returns,
}
use my.Raft.State.{Raft, leader, is_leader, Gob, encode_raft_state}
use my.Raft.Log.Indexed.{IsIndexed, IndexedFrom-append, index-get_last_log, get_last_log-total}
use my.Raft.Vote.{fill, become_leader}
use my.Raft.Replicate.{Started, start}

-- The first `n` places of `a'` hold `v`.
pub fill_lem :
    (n v : ℕ) (a : List ℕ)
    → n ≤ length a
    → (a' : List ℕ) × (fill n v a ≡ some a')
      × (length a' ≡ length a)
      × ((i : ℕ) → i < n → get_or a' i 0 ≡ v)
unfolding fill
fill_lem zero v a h = (a, refl, refl, λ i k. absurd (omega arith))
fill_lem (suc n) v [] h = elim h [ ]
fill_lem (suc n) v (x ∷ a) h =
    let (a', e, l, g) = fill_lem n v a (omega arith) in (v ∷ a', rw e, omega arith, here a' g)
  where
    here :
        (a' : List ℕ)
        → ((i : ℕ) → i < n → get_or a' i 0 ≡ v)
        → (i : ℕ) → i < suc n
        → get_or (v ∷ a') i 0 ≡ v
    here a' g zero k = refl
    here a' g (suc i) k = g i (omega arith)

module _ {C : Type 0} where
  -- A new leader takes every peer to be in step with its log, and to hold nothing of it for certain.
  pub record IsNewLeader (rf rf' : Raft C) : Type 0 where
    pub state : rf'.state ≡ leader
    pub log : rf'.log ≡ rf.log
    pub term : rf'.current_term ≡ rf.current_term
    pub nexts :
        (i : ℕ) → i < rf.peers → get_or rf'.next_index i 0 ≡ rf.last_included_index + length rf.log
    pub matches : (i : ℕ) → i < rf.peers → get_or rf'.match_index i 0 ≡ 0

  -- A peer with a numbered log and room for the indexes of all peers becomes leader without a
  -- panic, with its log and term unchanged: each peer's next index is past the end of the log, and
  -- each match index is 0.
  pub become_leader-IsNewLeader :
      (rf : Raft C)
      → IsIndexed rf
      → rf.peers ≤ length rf.next_index
      → rf.peers ≤ length rf.match_index
      → Returns (become_leader rf) (IsNewLeader rf)
  unfolding become_leader
  become_leader-IsNewLeader rf i h k =
      let (last, e) = get_last_log-total rf i.nonempty in
      let (next', p, l, g) = fill_lem rf.peers (last.index + 1) rf.next_index h in
      let (match', q, l', g') = fill_lem rf.peers 0 rf.match_index k in
      rw (e, p, q)
        (record {
          state = refl;
          log = refl;
          term = refl;
          nexts = λ j m. g j m ∙ index-get_last_log rf i e;
          matches = g';
        })

  -- The command stands at the end of the log, with the index and the term that are returned, and
  -- that log is persisted.
  pub record IsStarted (gob : Gob C) (rf : Raft C) (command : C) (out : Raft C × Started)
      : Type 0 where
    pub log :
        out.0.log
        ≡ rf.log
          ++ record {
            command = some command;
            term = rf.current_term;
            index = rf.last_included_index + length rf.log;
          }
            ∷ []
    pub result : out.1 ≡ some (rf.last_included_index + length rf.log, rf.current_term)
    pub durable : out.0.persister.raftstate ≡ encode_raft_state gob out.0
    pub indexed : IsIndexed out.0

  -- A leader with a numbered log puts a command at the end of its log, which stays numbered,
  -- answers with the index and the term of the entry, and has persisted the log.
  pub start-IsStarted :
      (gob : Gob C) (rf : Raft C) (command : C)
      → IsIndexed rf
      → rf.state ≡ leader
      → Returns (start gob rf command) (IsStarted gob rf command)
  unfolding start encode_raft_state
  start-IsStarted gob rf command i s =
      let (last, e) = get_last_log-total rf i.nonempty in
      let l : last.index + 1 ≡ rf.last_included_index + length rf.log = index-get_last_log rf i e in
      let p : is_leader rf.state ≡ true = ground arith in
      rw (p, e, l)
        (record {
          log = refl;
          result = refl;
          durable = refl;
          indexed = record {
            nonempty = omega (arith, length-append rf.log _);
            indexed = IndexedFrom-append rf.last_included_index rf.log _ i.indexed (refl, tt);
          };
        })
