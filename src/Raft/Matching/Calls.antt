-- ===== src/Raft/Matching/Calls.antt =====
-- What a call of `BroadcastEntries` carries of its leader's log, and what a peer's log becomes when
-- the call arrives (raft1/raft.go).
use mathlib.Core.List.{append-nil, append_assoc}
use my.Prelude.{
  ℕ, suc, ◌+◌, ◌-◌, ◌≤◌, ◌<◌, ◌≡◌, ◌⊎◌, inl, inr, refl, sym, ap, subst, ◌∙◌, false, some, [], ◌∷◌,
  ◌++◌, arith, length, get_elem?, get_or, take, drop, length-take, Option-cases,
}
use my.Prelude.Maps.{Map}
use my.Raft.State.{Raft, LogEntry, leader, follower, Gob, Clock, zero_entry}
use my.Raft.Log.{get_last_log, get_log_slices}
use my.Raft.Log.Indexed.{IsIndexed, index-get_last_log}
use my.Raft.Append.{AppendEntriesArgs, AppendEntriesReply, append_entries}
use my.Raft.Append.Accepts.{AreNumbered}
use my.Raft.Append.Overlay.{overlay}
use my.Raft.Append.Refuses.{HasPrevious}
use my.Raft.Append.Splice.{take-get_or-drop, place, spliced, Outcome, append_entries-Outcome}
use my.Raft.Append.Safety.{append_entries-IsIndexed}
use my.Raft.Replicate.{prepare, append}
use my.Raft.Replicate.Prepare.{Sends, prepare-Sends}
use my.Raft.Matching.Fits.{Log, Fits, Fits-left, Fits-same, Fits-overlay, Grows}

module _ {C : Type 0} where
  -- The call was prepared by a live leader from a next index that its log covers.
  record Prepared (rf : Raft C) (server next : ℕ) : Type 0 where
    state : rf.state ≡ leader
    alive : rf.dead ≡ false
    at : get_elem? rf.next_index server ≡ some next
    lower : rf.last_included_index < next
    upper : next ≤ rf.last_included_index + length rf.log

  prepare-Prepared :
      (rf : Raft C) (server : ℕ) (args : AppendEntriesArgs C)
      → IsIndexed rf
      → prepare rf server ≡ some (append args)
      → (next : ℕ) × Prepared rf server next
  unfolding prepare get_log_slices
  prepare-Prepared rf server args i h = elim (Option-cases (get_elem? rf.next_index server)) [
    | inl e ↦ absurd (ground (arith, e))
    | inr (next, e) ↦ elim (Option-cases (get_last_log rf)) [
      | inl e' ↦ absurd (ground (arith, e, e'))
      | inr (last, e') ↦ (next, ground (arith, e, e', index-get_last_log rf i e'))
    ]
  ]

  -- The call carries a part of the log of the leader of its term, behind the entry that it names.
  pub record Carried (led : Map ℕ (Log C)) (args : AppendEntriesArgs C) : Type 0 where
    pub before : Log C
    pub previous : LogEntry C
    pub after : Log C
    pub part : led args.term ≡ some (before ++ previous ∷ (args.entries ++ after))
    pub place : length before ≡ args.prev_log_index
    pub term : previous.term ≡ args.prev_log_term
    pub numbered : AreNumbered args

  pub Carried-Grows :
      {led led' : Map ℕ (Log C)} (args : AppendEntriesArgs C)
      → Grows led led'
      → Carried led args
      → Carried led' args
  Carried-Grows args g c =
      let (log', p, (zs, q)) = g args.term _ c.part in
      record {
        before = c.before;
        previous = c.previous;
        after = c.after ++ zs;
        part =
            p
            ∙ ap some (
                q
                ∙ append_assoc c.before (c.previous ∷ (args.entries ++ c.after)) zs
                ∙ ap (λ l. c.before ++ c.previous ∷ l) (append_assoc args.entries c.after zs));
        place = c.place;
        term = c.term;
        numbered = c.numbered;
      }

  drop-part :
      (next : ℕ) (log entries : Log C)
      → 0 < next
      → next ≤ length log
      → entries ≡ drop next log
      → log ≡ take (next - 1) log ++ get_or log (next - 1) zero_entry ∷ (entries ++ [])
  drop-part next log entries h k e =
      let s : suc (next - 1) ≡ next = omega arith in
      take-get_or-drop (next - 1) log (omega arith)
      ∙ ap (λ l. take (next - 1) log ++ get_or log (next - 1) zero_entry ∷ l)
          (ap (λ (j : ℕ). drop j log) s ∙ sym e ∙ sym (append-nil entries))

  -- What a leader with a numbered log sends is a part of its log.
  pub prepare-Carried :
      (led : Map ℕ (Log C)) (rf : Raft C) (server : ℕ) (args : AppendEntriesArgs C)
      → IsIndexed rf
      → rf.last_included_index ≡ 0
      → (rf.state ≡ leader → led rf.current_term ≡ some rf.log)
      → prepare rf server ≡ some (append args)
      → Carried led args
  prepare-Carried led rf server args i z l h =
      let (next, p) = prepare-Prepared rf server args i h in
      let (args', e, s) = prepare-Sends rf server next i p.state p.alive p.at p.lower p.upper in
      let same : args' ≡ args = cc in subst (Carried led) same (sent next args' p s)
    where
      sent :
          (next : ℕ) (args : AppendEntriesArgs C)
          → Prepared rf server next
          → Sends rf next args
          → Carried led args
      sent next args p s =
          let q : args.prev_log_index ≡ next - 1 = omega (arith, s.prev) in
          let b : next - rf.last_included_index ≡ next = omega (arith, z) in
          record {
            before = take (next - 1) rf.log;
            previous = get_or rf.log (next - 1) zero_entry;
            after = [];
            part =
                ap led s.term
                ∙ l p.state
                ∙ ap some (
                    drop-part next rf.log args.entries (omega (arith, p.lower))
                      (omega (arith, p.upper, z)) (s.entries ∙ ap (λ (j : ℕ). drop j rf.log) b));
            place = omega (arith, length-take (next - 1) rf.log, p.lower, p.upper, z, q);
            term =
                ap (λ (j : ℕ). (get_or rf.log j zero_entry).term)
                  (let d : next - 1 ≡ args.prev_log_index - rf.last_included_index =
                      omega (arith, q, z) in
                    d)
                ∙ sym s.prev_term;
            numbered = s.numbered;
          }

  -- A log that fits, after a call that carries a part of a log that fits.
  module _ (led : Map ℕ (Log C)) (rf : Raft C) (args : AppendEntriesArgs C)
      (z : rf.last_included_index ≡ 0) (f : Fits led rf.log) (c : Carried led args)
      (g : (t : ℕ) (log : Log C) → led t ≡ some log → Fits led log) where
    Fits-spliced : HasPrevious rf args → Fits led (spliced rf args)
    Fits-spliced h =
        let k : ℕ = place rf args in
        let x = get_or rf.log k zero_entry in
        let pre = take k rf.log in
        let local = drop (suc k) rf.log in
        let split : rf.log ≡ pre ++ x ∷ local =
          take-get_or-drop k rf.log (omega (arith, h.0, h.1)) in
        let (p, q) =
          Fits-same led rf.log _ f (g args.term _ c.part) pre x local split c.before c.previous _
            refl (omega (arith, length-take k rf.log, h.0, h.1, z, c.place)) (h.2 ∙ sym c.term) in
        let part : Fits led ((pre ++ x ∷ []) ++ args.entries) =
          Fits-left led ((pre ++ x ∷ []) ++ args.entries) c.after (
            subst (Fits led)
              (ap (λ l. l ++ c.previous ∷ (args.entries ++ c.after)) (sym p)
                ∙ ap (λ y. pre ++ y ∷ (args.entries ++ c.after)) (sym q)
                ∙ sym (
                    append_assoc (pre ++ x ∷ []) args.entries c.after
                    ∙ append_assoc pre (x ∷ []) (args.entries ++ c.after)))
              (g args.term _ c.part)) in
        let whole : Fits led ((pre ++ x ∷ []) ++ local) =
          subst (Fits led) (split ∙ sym (append_assoc pre (x ∷ []) local)) f in
        subst (Fits led) (append_assoc pre (x ∷ []) (overlay local args.entries))
          (Fits-overlay led (pre ++ x ∷ []) local args.entries whole part)

    -- The log fits afterwards, and it is as it was or the peer follows.
    abbrev pub StillFits : Raft C → Type 0
    StillFits rf' =
        Fits led rf'.log
        × (rf'.last_included_index ≡ 0)
        × ((rf'.log ≡ rf.log) ⊎ (rf'.state ≡ follower))

    Outcome-Fits :
        (gob : Gob C) (clock : Clock) (out : Raft C × AppendEntriesReply)
        → Outcome gob clock rf args out
        → StillFits out.0
    Outcome-Fits gob clock out (inl (t, h, a)) =
        (subst (Fits led) (sym a.log) (Fits-spliced h), a.base ∙ z, inr a.state)
    Outcome-Fits gob clock out (inr (h, r)) =
        (subst (Fits led) (sym r.log) f, r.base ∙ z, inl r.log)

    -- The call leaves a numbered log that fits.
    pub append_entries-Fits :
        (gob : Gob C) (clock : Clock) {rf' : Raft C} {reply : AppendEntriesReply}
        → IsIndexed rf
        → append_entries gob clock rf args ≡ some (rf', reply)
        → StillFits rf' × IsIndexed rf'
    append_entries-Fits gob clock {rf'} {reply} i e = (
      Outcome-Fits gob clock (rf', reply)
          (rw e at (append_entries-Outcome gob clock rf args i c.numbered)),
      rw e at (append_entries-IsIndexed gob clock rf args i c.numbered),
    )
