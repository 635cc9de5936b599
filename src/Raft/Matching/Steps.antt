-- ===== src/Raft/Matching/Steps.antt =====
-- Every turn of a group that takes no snapshots, as what it does to the log of the peer that makes it
-- (raft1/raft.go).
use my.Prelude.{ℕ, ◌+◌, ◌≡◌, inl, inr, sym, ◌∙◌, true, false, some, List, arith, length, Bool-cases}
use my.Prelude.Maps.{Map}
use my.Raft.State.{Raft, leader, Gob, Clock, is_leader}
use my.Raft.Append.{AppendEntriesArgs, AppendEntriesReply, append_entries}
use my.Raft.Replicate.{Started, start}
use my.Raft.Replicate.Leading.{IsStarted, start-IsStarted}
use my.Raft.Peer.{
  Step, vote, elect, voted, append, appended, started, snapshot, install, send_begin, send_end,
  apply_begin, apply_woken, apply_end, killed, restart,
}
use my.Raft.Cluster.{In}
use my.Raft.Matching.{IsFairStep}
use my.Raft.Matching.Fits.{Log, Fits}
use my.Raft.Matching.Saved.{
  Advances, SameLog, request_vote-Advances, attempt_election-Advances, handle_vote_reply-Advances,
  append_entries-Advances, handle_append_reply-Advances, start-Advances, make-Advances,
  applier_begin-Advances, applier_woken-Advances, applier_end-Advances, kill-Advances,
}
use my.Raft.Matching.Calls.{Carried, append_entries-Fits}
use my.Raft.Matching.Ledger.{IsSound, Changed}

module _ {C : Type 0} (gob : Gob C) where
  -- The step keeps the promises on the role and the persister, and the log fits as it did.
  abbrev pub Moved : Map ℕ (Log C) → Raft C → Raft C → Type 0
  Moved led rf rf' = Advances gob rf rf' × Changed led rf rf'

module _ {C : Type 0} (gob : Gob C) {rf rf' : Raft C} (sound : IsSound gob rf)
    (led : Map ℕ (Log C)) where
  pub same_log : Advances gob rf rf' × SameLog rf rf' → Moved gob led rf rf'
  same_log h = (
    h.0,
    record {
      indexed = record {
        nonempty = rw h.1.0 sound.indexed.nonempty;
        indexed = rw (h.1.0, h.1.1) sound.indexed.indexed;
      };
      base = h.1.1 ∙ sound.base;
      how = inl h.1.0;
    },
  )

  start-base :
      (command : C) (r : Started)
      → start gob rf command ≡ some (rf', r)
      → (rf'.last_included_index ≡ rf.last_included_index)
        × (rf'.current_term ≡ rf.current_term)
        × (rf'.state ≡ rf.state)
        × (is_leader rf.state ≡ false → rf'.log ≡ rf.log)
  unfolding start
  start-base command r h = ground arith

  start-Extends :
      (command : C) (r : Started)
      → start gob rf command ≡ some (rf', r)
      → is_leader rf.state ≡ true
      → Changed led rf rf'
  start-Extends command r h e =
      let st : rf.state ≡ leader = ground (arith, e) in
      let s : IsStarted gob rf command (rf', r) =
        rw h at (start-IsStarted gob rf command sound.indexed st) in
      let (b, t, k, _) = start-base command r h in
      record {
        indexed = s.indexed;
        base = b ∙ sound.base;
        how = inr (
            inr (record {
              entry = record {
                command = some command;
                term = rf.current_term;
                index = rf.last_included_index + length rf.log;
              };
              log = s.log;
              term = sym t;
              state = k ∙ st;
            }));
      }

  start-Moved :
      (command : C) (r : Started) → start gob rf command ≡ some (rf', r) → Moved gob led rf rf'
  start-Moved command r h = elim (Bool-cases (is_leader rf.state)) [
    | inl e ↦ (start-Advances gob rf command r h, start-Extends command r h e)
    | inr e ↦
        let (b, t, k, same) = start-base command r h in
        same_log (start-Advances gob rf command r h, (same e, b))
  ]

  module _ (calls : List (AppendEntriesArgs C)) (f : Fits led rf.log)
      (g : (t : ℕ) (log : Log C) → led t ≡ some log → Fits led log)
      (carried : (args : AppendEntriesArgs C) → In args calls → Carried led args) where
    append-Moved :
        (clock : Clock) (args : AppendEntriesArgs C) (reply : AppendEntriesReply)
        → append_entries gob clock rf args ≡ some (rf', reply)
        → In args calls
        → Moved gob led rf rf'
    append-Moved clock args reply h m =
        let ((fits, base, how), i) =
          append_entries-Fits led rf args sound.base f (carried args m) g gob clock sound.indexed
            h in
        (
          append_entries-Advances gob rf clock args reply h,
          record {
            indexed = i;
            base = base;
            how = elim how [ inl same ↦ inl same | inr s ↦ inr (inl (s, fits)) ];
          },
        )

    -- Every step of a peer that is not part of an election.
    pub Step-Moved : (s : Step gob rf rf') → IsFairStep gob calls s → Moved gob led rf rf'
    Step-Moved (vote c a r h) fair = same_log (request_vote-Advances gob rf c a r h)
    Step-Moved (elect c a h) fair = same_log (attempt_election-Advances gob rf c a h)
    Step-Moved (voted v a r v' w h) fair = same_log (handle_vote_reply-Advances gob rf v a r v' w h)
    Step-Moved (append c a r h) fair = append-Moved c a r h fair
    Step-Moved (appended n a r h) fair = same_log (handle_append_reply-Advances gob rf n a r h)
    Step-Moved (started c r h) fair = start-Moved c r h
    Step-Moved (snapshot i b h) fair = absurd fair
    Step-Moved (install c a r h) fair = absurd fair
    Step-Moved (send_begin k h) fair = absurd fair
    Step-Moved (send_end n a r h) fair = absurd fair
    Step-Moved (apply_begin n h) fair = same_log (applier_begin-Advances gob rf n h)
    Step-Moved (apply_woken n h) fair = same_log (applier_woken-Advances gob rf n h)
    Step-Moved (apply_end n h) fair = same_log (applier_end-Advances gob rf n h)
    Step-Moved (killed h) fair = same_log (kill-Advances gob rf h)
    Step-Moved (restart c h) fair = same_log (make-Advances gob rf c sound.saved h)
