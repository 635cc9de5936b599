-- ===== src/Examples/Codec.antt =====
-- A concrete encoder of the persistent state of raft1/raft.go, in place of encoding/gob.
use my.Prelude.{ℕ, zero, suc, ◌≡◌, refl, Option, none, some, List, [], ◌∷◌, arith}
use my.Raft.State.{LogEntry, PersistentState, Gob, Bytes}
use my.Raft.Peer.Votes.{IsRoundTrip}

abbrev number : Option ℕ → ℕ
number none = 0
number (some n) = suc n

abbrev unnumber : ℕ → Option ℕ
unnumber zero = none
unnumber (suc n) = some n

unnumber-number : (o : Option ℕ) → unnumber (number o) ≡ o
unnumber-number none = refl
unnumber-number (some n) = refl

unfoldable pub encode_log : List (LogEntry ℕ) → Bytes
encode_log [] = []
encode_log (e ∷ es) = number e.command ∷ e.term ∷ e.index ∷ encode_log es

unfoldable pub decode_log : Bytes → List (LogEntry ℕ)
decode_log (c ∷ t ∷ i ∷ rest) =
    record { command = unnumber c; term = t; index = i } ∷ decode_log rest
decode_log _ = []

decode_log-encode_log : (es : List (LogEntry ℕ)) → decode_log (encode_log es) ≡ es
unfolding decode_log encode_log
decode_log-encode_log [] = refl
decode_log-encode_log (e ∷ es) = rw (unnumber-number e.command, decode_log-encode_log es) refl

abbrev encode : PersistentState ℕ → Bytes
encode p =
    p.current_term
    ∷ number p.voted_for
    ∷ p.last_included_index
    ∷ p.last_included_term
    ∷ encode_log p.log

abbrev decode : Bytes → Option (PersistentState ℕ)
decode (t ∷ v ∷ i ∷ l ∷ rest) = some (record {
  current_term = t;
  voted_for = unnumber v;
  log = decode_log rest;
  last_included_index = i;
  last_included_term = l;
})
decode _ = none

abbrev pub gob : Gob ℕ
gob = record { encode = encode; decode = decode }

pub gob-IsRoundTrip : IsRoundTrip gob
gob-IsRoundTrip = record {
  decodes = λ p. rw (unnumber-number p.voted_for, decode_log-encode_log p.log) refl;
  nonempty = λ p. omega arith;
}
