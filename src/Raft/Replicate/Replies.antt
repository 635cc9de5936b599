-- ===== src/Raft/Replicate/Replies.antt =====
-- What the leader does with the replies to `AppendEntries`.
use my.Prelude.{
  ℕ, ◌+◌, ◌≤◌, ◌<◌, ◌≡◌, ◌≢◌, refl, true, some, List, arith, length, get_or, get_elem?-eq_some, set,
  Returns, Returns-map, max, length-set, get_or-set_self, get_or-set_ne,
}
use native.Mathlib.Decide.{dec_lt}
use my.Raft.State.{Raft, Gob}
use my.Raft.Log.Indexed.{IsIndexed}
use my.Raft.Commit.Majority.{IsLastCommittable, update_commit_index-IsLast}
use my.Raft.Commit.{update_commit_index}
use my.Raft.Append.{AppendEntriesArgs, AppendEntriesReply}
use my.Raft.Snapshots.{raise_to}
use my.Raft.Replicate.{handle_append_reply}

-- `a'` is `a` with the entry of `server` raised to `v`, if it was lower.
pub record Raised (a a' : List ℕ) (server v : ℕ) : Type 0 where
  pub size : length a' ≡ length a
  pub here : get_or a' server 0 ≡ max (get_or a server 0) v
  pub elsewhere : (j : ℕ) → server ≢ j → get_or a' j 0 ≡ get_or a j 0

Raised-set :
    (a : List ℕ) (server v : ℕ)
    → server < length a
    → get_or a server 0 < v
    → Raised a (set a server v) server v
Raised-set a server v h k = record {
  size = length-set a server v;
  here = omega (arith, get_or-set_self a server v 0 h);
  elsewhere = λ j n. get_or-set_ne a v 0 n;
}

pub raise_to-Raised :
    (a : List ℕ) (server v : ℕ)
    → server < length a
    → (a' : List ℕ) × (raise_to a server v ≡ some a') × Raised a a' server v
unfolding raise_to
raise_to-Raised a server v h = elim (dec_lt (get_or a server 0) v) [
  | yes p ↦
      (set a server v, ground (arith, get_elem?-eq_some a server 0 h), Raised-set a server v h p)
  | no p ↦ (
    a,
    ground (arith, get_elem?-eq_some a server 0 h),
    record { size = refl; here = omega arith; elsewhere = λ j n. refl },
  )
]

module _ {C : Type 0} where
  -- What a success of peer `server` up to the index `v` does to the leader.
  pub record Progress (rf : Raft C) (server v : ℕ) (rf' : Raft C) : Type 0 where
    pub matched : Raised rf.match_index rf'.match_index server v
    pub nexted : Raised rf.next_index rf'.next_index server (v + 1)
    pub log : rf'.log ≡ rf.log
    pub commit :
        IsLastCommittable
          (record rf { next_index = rf'.next_index; match_index = rf'.match_index })
          (rf.commit_index + 1)
          (rf.last_included_index + length rf.log)
          rf.commit_index
          rf'.commit_index

  module _ (gob : Gob C) (rf : Raft C) (server : ℕ) (args : AppendEntriesArgs C)
      (reply : AppendEntriesReply) (i : IsIndexed rf) (nexts : server < length rf.next_index)
      (matches : server < length rf.match_index) (peers : rf.peers ≤ length rf.match_index) where
    handle_append_reply-success :
        {next' match' : List ℕ}
        → args.term ≡ rf.current_term
        → reply.term ≤ rf.current_term
        → reply.success ≡ true
        → raise_to rf.next_index server (args.prev_log_index + length args.entries + 1) ≡ some next'
        → raise_to rf.match_index server (args.prev_log_index + length args.entries) ≡ some match'
        → handle_append_reply gob rf server args reply
          ≡ update_commit_index (record rf { next_index = next'; match_index = match' })
    unfolding handle_append_reply
    handle_append_reply-success t r s p q = ground arith

    -- On a numbered log with indexes for all peers, a success in the leader's term raises the
    -- match index and the next index of the peer, never lowers them, leaves the other peers' and
    -- the log alone, and commits what a majority then holds.
    pub handle_append_reply-Progress :
        args.term ≡ rf.current_term
        → reply.term ≤ rf.current_term
        → reply.success ≡ true
        → Returns
            (handle_append_reply gob rf server args reply)
            λ rf'. Progress rf server (args.prev_log_index + length args.entries) rf'
    handle_append_reply-Progress t r s =
        let v : ℕ = args.prev_log_index + length args.entries in
        let (next', p, raised) = raise_to-Raised rf.next_index server (v + 1) nexts in
        let (match', q, raised') = raise_to-Raised rf.match_index server v matches in
        let rf' : Raft C = record rf { next_index = next'; match_index = match' } in
        rw (handle_append_reply-success t r s p q) (
          Returns-map {Q = λ out. Progress rf server v out} _
            (λ out l. record {
              matched = rw l.3 raised';
              nexted = rw l.4 raised;
              log = l.1;
              commit = rw (l.3, l.4) l.0;
            })
            (update_commit_index-IsLast rf' (record { nonempty = i.nonempty; indexed = i.indexed })
              (omega (arith, raised'.size))))
