-- ===== src/Kv/Lock/Own.antt =====
-- The register of a lock of kvsrv1/lock/lock.go over the calls of one client, among other clients and
-- over a network that loses requests and replies (kvsrv1/client.go).
use Prim.Native.String.{String}
use text.Mathlib.TextEquality.{eq_iff}
use my.Prelude.{
  ℕ, ◌≡◌, ◌≢◌, ◌⊎◌, inl, inr, refl, sym, ap, ◌∙◌, Bool, true, false, Option, none, some, List, [],
  ◌∷◌, arith, Bool-cases,
}
use my.Kv.Rpc.{Err, ok, next_version, PutArgs, GetArgs, GetReply}
use my.Kv.Server.{KvServer, get, put, zero_get_reply}
use my.Kv.Server.Refines.{IsConsistent, view, put-IsConsistent}
use my.Kv.Clerk.{Attempt, puts, put_result, put_loop, get_loop, is_conclusive}
use my.Kv.Clerk.Once.{version_of, Fate-cases}
use my.Kv.Lock.{is_ok, is_no_key}
use my.Kv.Lock.Holding.{get_args, put_args}
use my.Kv.Lock.Unsure.{or_unset}

abbrev pub or_zero : Option GetReply → GetReply
or_zero none = zero_get_reply
or_zero (some reply) = reply

-- A put leaves a register alone, or writes it at the version that it names.
put-view :
    (kv : KvServer) (args : PutArgs) (key : String)
    → IsConsistent kv
    → (view (put kv args).0 key ≡ view kv key)
      ⊎ ((args.key ≡ key)
          × (view (put kv args).0 key ≡ some (args.value, next_version args.version)))
unfolding put
put-view kv args key c = ground (arith, eq_iff args.key key, c.same args.key, c.same key)

put-success :
    (kv : KvServer) (args : PutArgs)
    → IsConsistent kv
    → (put kv args).1.err ≡ ok
    → view (put kv args).0 args.key ≡ some (args.value, next_version args.version)
unfolding put
put-success kv args c h = ground (arith, eq_iff args.key args.key, c.same args.key)

module _ (key value : String) where
  -- A put of another client that does not write this value to the key.
  abbrev pub AreOthers : List PutArgs → Type 0
  AreOthers [] = Unit
  AreOthers (o ∷ os) = ((o.key ≢ key) ⊎ (o.value ≢ value)) × AreOthers os

  abbrev pub AmongOthers : List Attempt → Type 0
  AmongOthers [] = Unit
  AmongOthers (a ∷ rest) = AreOthers a.others × AmongOthers rest

module _ (key value : String) (version : ℕ) where
  -- If the key has this value, it is from a put at this version.
  unfoldable pub IsOwn : KvServer → Type 0
  IsOwn kv = (v : ℕ) → view kv key ≡ some (value, v) → v ≡ next_version version

  other-IsOwn :
      (kv : KvServer) (o : PutArgs)
      → IsConsistent kv
      → (o.key ≢ key) ⊎ (o.value ≢ value)
      → IsOwn kv
      → IsOwn (put kv o).0
  unfolding IsOwn
  other-IsOwn kv o c apart own v h = elim (put-view kv o key c) [
    | inl e ↦ own v (sym e ∙ h)
    | inr (k, e) ↦
        let same : o.value ≡ value = cc (e, h) in
        elim apart [ inl d ↦ absurd (d k) | inr d ↦ absurd (d same) ]
  ]

  puts-IsOwn :
      (kv : KvServer) (os : List PutArgs)
      → IsConsistent kv
      → AreOthers key value os
      → IsOwn kv
      → IsConsistent (puts kv os) × IsOwn (puts kv os)
  unfolding puts
  puts-IsOwn kv [] c apart own = (c, own)
  puts-IsOwn kv (o ∷ os) c apart own =
      puts-IsOwn (put kv o).0 os (put-IsConsistent kv o c) apart.1 (other-IsOwn kv o c apart.0 own)

  pub get_loop-IsOwn :
      (attempts : List Attempt) (kv : KvServer)
      → IsConsistent kv
      → AmongOthers key value attempts
      → IsOwn kv
      → IsOwn (get_loop (get_args key) attempts kv).1
  unfolding get_loop
  get_loop-IsOwn [] kv c apart own = own
  get_loop-IsOwn (a ∷ rest) kv c apart own =
      let kv₁ = puts kv a.others in
      let (c₁, own₁) = puts-IsOwn kv a.others c apart.0 own in
      let later = get_loop-IsOwn rest kv₁ c₁ apart.1 own₁ in
      elim (Fate-cases a.fate) [
        | inl e ↦ rw e later
        | inr (inl e) ↦ rw e later
        | inr (inr e) ↦ rw e (elim (Bool-cases (is_conclusive (get kv₁ (get_args key)).err)) [
          | inl t ↦ rw t own₁
          | inr f ↦ rw f later
        ])
      ]

  abbrev pub own_put : PutArgs
  own_put = put_args key value version

  own_put-IsOwn : (kv : KvServer) → IsConsistent kv → IsOwn kv → IsOwn (put kv own_put).0
  unfolding IsOwn
  own_put-IsOwn kv c own v h = elim (put-view kv own_put key c) [
    | inl e ↦ own v (sym e ∙ h)
    | inr (k, e) ↦ cc (e, h)
  ]

  result-ok : (e : Err) (first : Bool) → put_result e first ≡ ok → e ≡ ok
  unfolding put_result
  result-ok e first h = ground arith

  -- What the clerk's put leaves, and what an OK means.
  pub put_loop-IsOwn :
      (first : Bool) (attempts : List Attempt) (kv : KvServer)
      → IsConsistent kv
      → AmongOthers key value attempts
      → IsOwn kv
      → let out = put_loop own_put first attempts kv in
        IsConsistent out.1
        × IsOwn out.1
        × (out.0 ≡ some ok → view out.1 key ≡ some (value, next_version version))
  unfolding put_loop
  put_loop-IsOwn first [] kv c apart own = (c, own, λ h. absurd (cc h))
  put_loop-IsOwn first (a ∷ rest) kv c apart own =
      let kv₁ = puts kv a.others in
      let (c₁, own₁) = puts-IsOwn kv a.others c apart.0 own in
      let c₂ = put-IsConsistent kv₁ own_put c₁ in
      let own₂ = own_put-IsOwn kv₁ c₁ own₁ in
      elim (Fate-cases a.fate) [
        | inl e ↦ rw e (put_loop-IsOwn false rest kv₁ c₁ apart.1 own₁)
        | inr (inl e) ↦ rw e (put_loop-IsOwn false rest (put kv₁ own_put).0 c₂ apart.1 own₂)
        | inr (inr e) ↦ rw e (c₂, own₂, λ h. put-success kv₁ own_put c₁ (result-ok _ first (cc h)))
      ]

-- A get that returns gives what the server has then.
pub get_loop-reads :
    (args : GetArgs) (attempts : List Attempt) (kv : KvServer)
    → let out = get_loop args attempts kv in
      (or_zero out.0 ≡ zero_get_reply) ⊎ (or_zero out.0 ≡ get out.1 args)
unfolding get_loop
get_loop-reads args [] kv = inl refl
get_loop-reads args (a ∷ rest) kv =
    let kv₁ = puts kv a.others in
    let later = get_loop-reads args rest kv₁ in
    elim (Fate-cases a.fate) [
      | inl e ↦ rw e later
      | inr (inl e) ↦ rw e later
      | inr (inr e) ↦ rw e (elim (Bool-cases (is_conclusive (get kv₁ args).err)) [
        | inl t ↦ rw t (inr refl)
        | inr f ↦ rw f later
      ])
    ]

puts-IsConsistent :
    (kv : KvServer) (os : List PutArgs) → IsConsistent kv → IsConsistent (puts kv os)
unfolding puts
puts-IsConsistent kv [] c = c
puts-IsConsistent kv (o ∷ os) c = puts-IsConsistent (put kv o).0 os (put-IsConsistent kv o c)

pub get_loop-IsConsistent :
    (args : GetArgs) (attempts : List Attempt) (kv : KvServer)
    → IsConsistent kv
    → IsConsistent (get_loop args attempts kv).1
unfolding get_loop
get_loop-IsConsistent args [] kv c = c
get_loop-IsConsistent args (a ∷ rest) kv c =
    let c₁ = puts-IsConsistent kv a.others c in
    let later = get_loop-IsConsistent args rest (puts kv a.others) c₁ in
    elim (Fate-cases a.fate) [
      | inl e ↦ rw e later
      | inr (inl e) ↦ rw e later
      | inr (inr e) ↦ rw e (elim (Bool-cases (is_conclusive (get (puts kv a.others) args).err)) [
        | inl t ↦ rw t c₁
        | inr f ↦ rw f later
      ])
    ]

-- What an answer of the server says of the register.
pub get-view :
    (kv : KvServer) (key : String)
    → IsConsistent kv
    → let r = get kv (get_args key) in
      ((is_no_key r.err ≡ true) × (view kv key ≡ none) × (r.value ≡ "") × (version_of kv key ≡ 0))
      ⊎ ((is_no_key r.err ≡ false)
          × (is_ok r.err ≡ true)
          × (view kv key ≡ some (r.value, r.version))
          × (version_of kv key ≡ r.version))
unfolding get
get-view kv key c = ground (arith, c.same key)

ok_only : (e : Err) → is_ok e ≡ true → e ≡ ok
ok_only e h = ground arith

pub ok_result : (result : Option Err) → is_ok (or_unset result) ≡ true → result ≡ some ok
ok_result none h = absurd (cc h)
ok_result (some e) h = ap some (ok_only e h)
