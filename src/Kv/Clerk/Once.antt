-- ===== src/Kv/Clerk/Once.antt =====
-- What `Put` of the clerk (kvsrv1/client.go) does on the server, and what it returns.
use Prim.Native.String.{String}
use text.Mathlib.TextEquality.{eq_iff}
use my.Prelude.{
  ℕ, ◌+◌, ◌^◌, ◌≤◌, ◌<◌, ◌≡◌, ◌⊎◌, inl, inr, refl, Bool, true, false, Option, none, some, List, [],
  ◌∷◌, arith, length,
}
use my.Kv.Rpc.{Err, ok, err_no_key, err_version, err_maybe, PutArgs}
use my.Kv.Server.{KvServer, put}
use my.Kv.Server.Refines.{IsConsistent, put-IsConsistent}
use my.Kv.Clerk.{
  Fate, request_lost, reply_lost, delivered, Attempt, put_result, puts, put_loop, executed,
}

-- The version of a key, 0 if it is not there.
abbrev pub version_at : Option ℕ → ℕ
version_at none = 0
version_at (some v) = v

abbrev pub version_of : KvServer → String → ℕ
version_of kv key = version_at (kv.key_version key)

-- How many puts the server handles during the attempts.
abbrev pub load : List Attempt → ℕ
load [] = 0
load (a ∷ rest) = length a.others + 1 + load rest

-- A put never moves a version back while versions do not wrap, and moves it by one at most.
pub put-version :
    (kv : KvServer) (args : PutArgs) (key : String)
    → IsConsistent kv
    → version_of kv key + 1 < 2 ^ 64
    → (version_of kv key ≤ version_of (put kv args).0 key)
      × (version_of (put kv args).0 key ≤ version_of kv key + 1)
unfolding put
put-version kv args key c h = ground (arith, eq_iff args.key key, c.same args.key)

-- A put succeeds only at the version that it names, which it leaves.
pub put-ok :
    (kv : KvServer) (args : PutArgs)
    → IsConsistent kv
    → version_of kv args.key + 1 < 2 ^ 64
    → (put kv args).1.err ≡ ok
    → (version_of kv args.key ≡ args.version)
      × (version_of (put kv args).0 args.key ≡ args.version + 1)
unfolding put
put-ok kv args c h e = ground (arith, eq_iff args.key args.key, c.same args.key)

pub puts-version :
    (kv : KvServer) (os : List PutArgs) (key : String)
    → IsConsistent kv
    → version_of kv key + length os < 2 ^ 64
    → IsConsistent (puts kv os)
      × (version_of kv key ≤ version_of (puts kv os) key)
      × (version_of (puts kv os) key ≤ version_of kv key + length os)
unfolding puts
puts-version kv [] key c h = (c, omega arith, omega arith)
puts-version kv (o ∷ os) key c h =
    let (lo, hi) = put-version kv o key c (omega arith) in
    let (c', lo', hi') = puts-version (put kv o).0 os key (put-IsConsistent kv o c) (omega arith) in
    (c', omega arith, omega arith)

put-gone :
    (kv : KvServer) (args : PutArgs)
    → IsConsistent kv
    → args.version < version_of kv args.key
    → ((put kv args).1.err ≡ err_version) × ((put kv args).0 ≡ kv)
unfolding put
put-gone kv args c h = ground (arith, c.same args.key)

-- The answers that are possible once the put has taken effect, or cannot any more.
abbrev IsLate : Bool → Option Err → Type 0
IsLate first result =
    (result ≡ none) ⊎ ((result ≡ some err_maybe) ⊎ ((first ≡ true) × (result ≡ some err_version)))

pub Fate-cases : (f : Fate) → (f ≡ request_lost) ⊎ ((f ≡ reply_lost) ⊎ (f ≡ delivered))
Fate-cases request_lost = inl refl
Fate-cases reply_lost = inr (inl refl)
Fate-cases delivered = inr (inr refl)

module _ (args : PutArgs) where
  put_loop-gone :
      (first : Bool) (attempts : List Attempt) (kv : KvServer)
      → IsConsistent kv
      → version_of kv args.key + load attempts < 2 ^ 64
      → args.version < version_of kv args.key
      → ((put_loop args first attempts kv).2 ≡ 0) × IsLate first (put_loop args first attempts kv).0
  unfolding put_loop put_result
  put_loop-gone first [] kv c h k = (refl, inl refl)
  put_loop-gone first (a ∷ rest) kv c h k =
      let kv₁ = puts kv a.others in
      let (c₁, lo, hi) = puts-version kv a.others args.key c (omega arith) in
      ground (
        arith,
        put-gone kv₁ args c₁ (omega arith),
        put_loop-gone false rest kv₁ c₁ (omega arith) (omega arith),
      )

  -- What the answer of `Put` says of the number of times that the put took effect.
  pub record IsOnce (first : Bool) (result : Option Err) (n : ℕ) : Type 0 where
    pub once : n ≤ 1
    pub yes : result ≡ some ok → n ≡ 1
    pub refused : result ≡ some err_version → n ≡ 0
    pub no_key : result ≡ some err_no_key → n ≡ 0

  put-fails :
      (kv : KvServer)
      → IsConsistent kv
      → ((put kv args).1.err ≡ ok)
        ⊎ (((put kv args).0 ≡ kv)
            × (((put kv args).1.err ≡ err_version) ⊎ ((put kv args).1.err ≡ err_no_key)))
  unfolding put
  put-fails kv c = ground (arith, c.same args.key)

  IsOnce-delivered :
      (first : Bool) (e : Err)
      → (e ≡ ok) ⊎ ((e ≡ err_version) ⊎ (e ≡ err_no_key))
      → IsOnce first (some (put_result e first)) (executed e)
  unfolding put_result
  IsOnce-delivered first e h = ground arith

  IsOnce-late : (first : Bool) (result : Option Err) → IsLate false result → IsOnce first result 1
  IsOnce-late first result h = ground arith

  IsOnce-first : (result : Option Err) (n : ℕ) → IsOnce false result n → IsOnce true result n
  IsOnce-first result n h = record {
    once = h.once;
    yes = h.yes;
    refused = h.refused;
    no_key = h.no_key;
  }

  IsOnce-any :
      (first : Bool) (result : Option Err) (n : ℕ) → IsOnce false result n → IsOnce first result n
  IsOnce-any true result n h = IsOnce-first result n h
  IsOnce-any false result n h = h

  IsOnce-failed :
      {result : Option Err} {n : ℕ} (e : Err)
      → (e ≡ err_version) ⊎ (e ≡ err_no_key)
      → IsOnce false result n
      → IsOnce false result (executed e + n)
  IsOnce-failed e h o = ground arith

  -- Over a network that loses requests and replies, with other clients' puts between the attempts,
  -- on consistent maps and as long as no version can wrap around: the put takes effect at most
  -- once; it did if the answer is OK, and it did not if the answer is ErrVersion or ErrNoKey.
  pub put_loop-IsOnce :
      (first : Bool) (attempts : List Attempt) (kv : KvServer)
      → IsConsistent kv
      → version_of kv args.key + load attempts < 2 ^ 64
      → IsOnce first (put_loop args first attempts kv).0 (put_loop args first attempts kv).2
  unfolding put_loop
  put_loop-IsOnce first [] kv c h = ground arith
  put_loop-IsOnce first (a ∷ rest) kv c h =
      let kv₁ = puts kv a.others in
      let (c₁, lo, hi) = puts-version kv a.others args.key c (omega arith) in
      elim (Fate-cases a.fate) [
        | inl e ↦ rw e (IsOnce-any first _ _ (put_loop-IsOnce false rest kv₁ c₁ (omega arith)))
        | inr (inl e) ↦ rw e (elim (put-fails kv₁ c₁) [
          | inl success ↦
              let (at, moved) = put-ok kv₁ args c₁ (omega arith) success in
              let (zero_more, late) =
                put_loop-gone false rest (put kv₁ args).0 (put-IsConsistent kv₁ args c₁)
                  (omega arith) (omega arith) in
              rw (success, zero_more) (IsOnce-late first _ late)
          | inr (same, failed) ↦ rw same (
              IsOnce-any first _ _
                (IsOnce-failed _ failed (put_loop-IsOnce false rest kv₁ c₁ (omega arith))))
        ])
        | inr (inr e) ↦
            rw e (IsOnce-delivered first (put kv₁ args).1.err (outcomes (put-fails kv₁ c₁)))
      ]
    where
      outcomes :
          {kv₁ : KvServer}
          → ((put kv₁ args).1.err ≡ ok)
            ⊎ (((put kv₁ args).0 ≡ kv₁)
                × (((put kv₁ args).1.err ≡ err_version) ⊎ ((put kv₁ args).1.err ≡ err_no_key)))
          → ((put kv₁ args).1.err ≡ ok)
            ⊎ (((put kv₁ args).1.err ≡ err_version) ⊎ ((put kv₁ args).1.err ≡ err_no_key))
      outcomes (inl p) = inl p
      outcomes (inr (s, q)) = inr q
