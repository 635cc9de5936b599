-- ===== src/Kv/Replicated/Reads.antt =====
-- kvraft1/client.go: a new clerk, and its `Get`.
use Prim.Native.String.{String}
use native.Mathlib.Nat.{mod-add-mod, mod-eq_of_lt, mod-lt, add-zero}
use my.Prelude.{
  ℕ, suc, ◌+◌, ◌%◌, ◌^◌, ◌<◌, ◌≡◌, refl, true, false, Bool, Option, none, some, List, [], ◌∷◌, ◌++◌,
  arith, length, ◌∙◌, ap, if◌then◌else◌, ◌>>=◌,
}
use my.Kv.Rpc.{Err, GetArgs, GetReply}
use my.Kv.Replicated.{Clerk, should_retry}

-- `random` is what `nrand` drew, below `1 << 62`.
unfoldable pub make_clerk : ℕ → ℕ → Clerk
make_clerk servers random = record {
  servers = servers;
  leader_id = 0;
  client_id = random % 2 ^ 62;
  request_id = 0;
}

abbrev pub should_retry_get : Option GetReply → Bool
should_retry_get none = true
should_retry_get (some reply) = should_retry (some reply.err)

abbrev pub zero_reply : Option GetReply → GetReply
zero_reply none = record { value = ""; version = 0; err = Err.unset }
zero_reply (some reply) = reply

-- The loop over what each call brings, none if no reply came.
unfoldable pub get_loop : ℕ → ℕ → List (Option GetReply) → Option (ℕ × GetReply)
get_loop servers server_id [] = none
get_loop servers server_id (answer ∷ rest) =
    let again = get_loop servers ((server_id + 1) % servers) rest in
    if should_retry_get answer then again else some (server_id, zero_reply answer)

unfoldable pub clerk_get :
    Clerk → String → List (Option GetReply) → GetArgs × Option (Clerk × GetReply)
unfolding get_loop
clerk_get ck key answers = (
  record { key = key; client_id = ck.client_id; request_id = ck.request_id },
  (do
    (server_id, reply) ← get_loop ck.servers ck.leader_id answers
    some (record ck { leader_id = server_id; request_id = ck.request_id + 1 }, reply)),
)

abbrev pub AllRetryGet : List (Option GetReply) → Type 0
AllRetryGet [] = Unit
AllRetryGet (a ∷ rest) = (should_retry_get a ≡ true) × AllRetryGet rest

rotate : (n i k : ℕ) → ((i + 1) % n + k) % n ≡ (i + suc k) % n
rotate n i k =
    let e : i + 1 + k ≡ i + suc k = omega arith in mod-add-mod (i + 1) n k ∙ ap (λ (m : ℕ). m % n) e

get_loop_lem :
    (servers server_id : ℕ) (failed : List (Option GetReply)) (reply : GetReply)
    (rest : List (Option GetReply))
    → server_id < servers
    → AllRetryGet failed
    → should_retry (some reply.err) ≡ false
    → get_loop servers server_id (failed ++ some reply ∷ rest)
      ≡ some ((server_id + length failed) % servers, reply)
unfolding get_loop
get_loop_lem servers server_id [] reply rest h a e =
    let p : (server_id + 0) % servers ≡ server_id =
      ap (λ (m : ℕ). m % servers) (add-zero server_id) ∙ mod-eq_of_lt h in
    rw (e, p) refl
get_loop_lem servers server_id (f ∷ failed) reply rest h a e = rw a.0 (
    get_loop_lem servers ((server_id + 1) % servers) failed reply rest
      (mod-lt (server_id + 1) (omega arith)) a.1 e
    ∙ ap (λ (m : ℕ). some (m, reply)) (rotate servers server_id (length failed)))

-- A get of a clerk that points at one of its servers ends with the first reply that is no failure,
-- as the server gave it, however many calls failed before; the clerk remembers the server.
pub clerk_get_lem :
    (ck : Clerk) (key : String) (failed : List (Option GetReply)) (reply : GetReply)
    (rest : List (Option GetReply))
    → ck.leader_id < ck.servers
    → AllRetryGet failed
    → should_retry (some reply.err) ≡ false
    → clerk_get ck key (failed ++ some reply ∷ rest) ≡ (
      record { key = key; client_id = ck.client_id; request_id = ck.request_id },
      some (
        record ck {
          leader_id = (ck.leader_id + length failed) % ck.servers;
          request_id = ck.request_id + 1;
        },
        reply,
      ),
    )
unfolding clerk_get
clerk_get_lem ck key failed reply rest h a e =
    rw (get_loop_lem ck.servers ck.leader_id failed reply rest h a e) refl
