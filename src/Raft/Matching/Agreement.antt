-- ===== src/Raft/Matching/Agreement.antt =====
-- The logs of the peers of one group against one another (raft1/raft.go).
use mathlib.Core.List.{append_assoc}
use my.Prelude.{
  ℕ, zero, suc, ◌<◌, ◌≡◌, refl, sym, ap, ◌∙◌, true, some, [], ◌∷◌, ◌++◌, arith, length, take,
  get_or, length-take, take-append_self,
}
use my.Raft.State.{Gob, is_leader, zero_entry}
use my.Raft.Append.Splice.{take-get_or-drop}
use my.Raft.Peer.Votes.{IsRoundTrip}
use my.Raft.Matching.{Group, IsNew, Run}
use my.Raft.Matching.Fits.{Log, Fits-same}
use my.Raft.Matching.Invariant.{Run-Inv}

module _ {C : Type 0} where
  take-suc :
      (k : ℕ) (log : Log C)
      → k < length log
      → take (suc k) log ≡ take k log ++ get_or log k zero_entry ∷ []
  take-suc k [] h = elim h [ ]
  take-suc zero (x ∷ log) h = refl
  take-suc (suc k) (x ∷ log) h = ap (λ l. x ∷ l) (take-suc k log (omega arith))

  -- However elections, commands, AppendEntries calls, crashes and restarts interleave, with
  -- messages lost, repeated and reordered, from peers that were made with nothing persisted, in a
  -- group that takes no snapshots: where the logs of two peers have entries of one term at the
  -- same place, the logs are the same up to that place, commands included. The encoding gives back
  -- what was encoded.
  pub logs_match :
      (gob : Gob C) (n : ℕ) (g g' : Group C) (i j k : ℕ)
      → IsRoundTrip gob
      → IsNew gob n g
      → Run gob n g g'
      → i < n
      → j < n
      → k < length (g'.cluster.peers i).log
      → k < length (g'.cluster.peers j).log
      → (get_or (g'.cluster.peers i).log k zero_entry).term
        ≡ (get_or (g'.cluster.peers j).log k zero_entry).term
      → take (suc k) (g'.cluster.peers i).log ≡ take (suc k) (g'.cluster.peers j).log
  logs_match gob n g g' i j k trip new run li lj hi hj t =
      let inv = (Run-Inv gob trip n new run).ledger in
      let l = (g'.cluster.peers i).log in
      let m = (g'.cluster.peers j).log in
      let (p, q) =
        Fits-same g'.led l m (inv.fits i li) (inv.fits j lj) (take k l) (get_or l k zero_entry) _
          (take-get_or-drop k l hi) (take k m) (get_or m k zero_entry) _ (take-get_or-drop k m hj)
          (omega (arith, length-take k l, length-take k m)) t in
      take-suc k l hi
      ∙ ap (λ x. x ++ get_or l k zero_entry ∷ []) p
      ∙ ap (λ y. take k m ++ y ∷ []) q
      ∙ sym (take-suc k m hj)

  -- However elections, commands, AppendEntries calls, crashes and restarts interleave, with
  -- messages lost, repeated and reordered, from peers that were made with nothing persisted, in a
  -- group that takes no snapshots: where a log has an entry of the term of a peer that is a leader
  -- now, the log is the same as the leader's up to that entry. The encoding gives back what was
  -- encoded.
  pub leader_has :
      (gob : Gob C) (n : ℕ) (g g' : Group C) (i j k : ℕ)
      → IsRoundTrip gob
      → IsNew gob n g
      → Run gob n g g'
      → i < n
      → j < n
      → is_leader (g'.cluster.peers j).state ≡ true
      → k < length (g'.cluster.peers i).log
      → (get_or (g'.cluster.peers i).log k zero_entry).term ≡ (g'.cluster.peers j).current_term
      → take (suc k) (g'.cluster.peers i).log ≡ take (suc k) (g'.cluster.peers j).log
  leader_has gob n g g' i j k trip new run li lj lead hi t =
      let inv = (Run-Inv gob trip n new run).ledger in
      let l = (g'.cluster.peers i).log in
      let m = (g'.cluster.peers j).log in
      let (rest, p) =
        inv.fits i li (take k l) (get_or l k zero_entry) _ (take-get_or-drop k l hi) in
      let e : some (take k l ++ get_or l k zero_entry ∷ rest) ≡ some m =
        sym p ∙ ap g'.led t ∙ inv.leaders j lj lead in
      let split : take k l ++ get_or l k zero_entry ∷ rest ≡ m = cc in
      let whole : m ≡ take (suc k) l ++ rest =
        sym split
        ∙ sym (append_assoc (take k l) (get_or l k zero_entry ∷ []) rest)
        ∙ ap (λ x. x ++ rest) (sym (take-suc k l hi)) in
      let size : length (take (suc k) l) ≡ suc k = omega (arith, length-take (suc k) l) in
      sym (take-append_self (take (suc k) l) rest)
      ∙ ap (λ (n : ℕ). take n (take (suc k) l ++ rest)) size
      ∙ ap (take (suc k)) (sym whole)
