-- ===== src/Shards/Membership/Joined.antt =====
-- The groups after `Join` and `Leave` (shardkv1/shardcfg/shardcfg.go).
use Prim.Native.String.{String}
use my.Prelude.{
  ℕ, ◌+◌, ◌<◌, ◌≡◌, ◌⊎◌, inl, inr, refl, ap, ◌∙◌, subst, Bool, true, false, not, ◌&&◌, ◌||◌, some,
  List, [], ◌∷◌, arith, ltb, ◌==◌, ltb→lt, ==→≡, length, Bool-cases, Returns, Returns-map,
}
use my.Shards.Config.{ShardConfig, n_shards, gids, contains}
use my.Shards.Membership.{clashes, add_group, delete_group, join_loop, leave_loop}

-- The keys of a map: in ascending order, no key twice.
abbrev pub IsAscending : List ℕ → Type 0
IsAscending [] = Unit
IsAscending (g ∷ gs) = ((h : ℕ) → contains gs h ≡ true → g < h) × IsAscending gs

pub contains-add_group :
    (gid : ℕ) (servers : List String) (groups : List (ℕ × List String)) (g : ℕ)
    → contains (gids (add_group gid servers groups)) g ≡ contains (gids groups) g || gid == g
contains-add_group gid servers [] g = ground arith
contains-add_group gid servers (e ∷ rest) g =
    let ih = contains-add_group gid servers rest g in ground arith

add_group-IsAscending :
    (gid : ℕ) (servers : List String) (groups : List (ℕ × List String))
    → contains (gids groups) gid ≡ false
    → IsAscending (gids groups)
    → IsAscending (gids (add_group gid servers groups))
add_group-IsAscending gid servers [] n a = (λ h k. absurd (ground arith), tt)
add_group-IsAscending gid servers (e ∷ rest) n (a, s) =
    let ih = add_group-IsAscending gid servers rest (ground arith) s in
    elim (Bool-cases (ltb gid e.0)) [
      | inl t ↦ rw t (
        λ h k. elim (Bool-cases (contains (gids rest) h)) [
          | inl i ↦ omega (arith, ltb→lt gid e.0 t, a h i)
          | inr o ↦ ground arith
        ],
        (a, s),
      )
      | inr f ↦ rw f (
        λ h k. elim (Bool-cases (contains (gids rest) h)) [
          | inl i ↦ a h i
          | inr o ↦ let q = contains-add_group gid servers rest h in ground arith
        ],
        ih,
      )
    ]

not_below : (gs : List ℕ) (g : ℕ) → ((h : ℕ) → contains gs h ≡ true → g < h) → contains gs g ≡ false
not_below gs g a = elim (Bool-cases (contains gs g)) [
  | inl t ↦ absurd (omega (arith, a g t))
  | inr f ↦ f
]

contains-delete_group :
    (gid : ℕ) (groups : List (ℕ × List String)) (g : ℕ)
    → IsAscending (gids groups)
    → contains (gids (delete_group gid groups)) g ≡ contains (gids groups) g && not (gid == g)
contains-delete_group gid [] g a = refl
contains-delete_group gid (e ∷ rest) g (a, s) =
    let ih = contains-delete_group gid rest g s in
    let n = not_below (gids rest) e.0 a in
    elim (Bool-cases (e.0 == g)) [
      | inl t ↦
          let m : contains (gids rest) g ≡ false =
            subst (λ (j : ℕ). contains (gids rest) j ≡ false) (==→≡ e.0 g t) n in
          ground arith
      | inr f ↦ ground arith
    ]

delete_group-IsAscending :
    (gid : ℕ) (groups : List (ℕ × List String))
    → IsAscending (gids groups)
    → IsAscending (gids (delete_group gid groups))
delete_group-IsAscending gid [] a = tt
delete_group-IsAscending gid (e ∷ rest) (a, s) =
    let ih = delete_group-IsAscending gid rest s in
    elim (Bool-cases (e.0 == gid)) [
      | inl t ↦ rw t s
      | inr f ↦ rw f (λ h k. a h (let q = contains-delete_group gid rest h s in ground arith), ih)
    ]

-- A group that was not there goes as it came.
pub delete_group-add_group :
    (gid : ℕ) (servers : List String) (groups : List (ℕ × List String))
    → contains (gids groups) gid ≡ false
    → delete_group gid (add_group gid servers groups) ≡ groups
delete_group-add_group gid servers [] n = ground arith
delete_group-add_group gid servers (e ∷ rest) n =
    let ih = delete_group-add_group gid servers rest (ground arith) in ground arith

-- A configuration as Go holds it: an array of `NShards` and a map.
pub record IsWellFormed (c : ShardConfig) : Type 0 where
  pub size : length c.shards ≡ n_shards
  pub keys : IsAscending (gids c.groups)

-- The shards stay, the number is the next one, and the groups are those of the test `P`.
pub record IsNext (P : ℕ → Bool) (c c' : ShardConfig) : Type 0 where
  pub num : c'.num ≡ c.num + 1
  pub shards : c'.shards ≡ c.shards
  pub keys : IsAscending (gids c'.groups)
  pub members : (g : ℕ) → contains (gids c'.groups) g ≡ P g

pub join_loop-IsNext :
    (servers : List (ℕ × List String)) (changed : Bool) (c c' : ShardConfig)
    → IsAscending (gids c.groups)
    → join_loop servers changed c ≡ some (c', true)
    → IsNext (λ g. contains (gids c.groups) g || contains (gids servers) g) c c'
unfolding join_loop
join_loop-IsNext [] false c c' a e = absurd (cc e)
join_loop-IsNext [] true c c' a e =
    subst (IsNext (λ g. contains (gids c.groups) g || false) c) (cc e)
      (record { num = refl; shards = refl; keys = a; members = λ g. ground arith })
join_loop-IsNext ((gid, srvs) ∷ rest) changed c c' a e =
    elim (Bool-cases (contains (gids c.groups) gid)) [
      | inl t ↦ absurd (ground arith)
      | inr f ↦ elim (Bool-cases (clashes srvs c.groups)) [
        | inl t ↦ absurd (ground arith)
        | inr n ↦
            let c1 : ShardConfig = record c { groups = add_group gid srvs c.groups } in
            let ih =
              join_loop-IsNext rest true c1 c' (add_group-IsAscending gid srvs c.groups f a)
                (ground arith) in
            record {
              num = ih.num;
              shards = ih.shards;
              keys = ih.keys;
              members = λ g.
                  ih.members g ∙ (let q = contains-add_group gid srvs c.groups g in ground arith);
            }
      ]
    ]

-- No element twice.
abbrev pub AreDistinct : List ℕ → Type 0
AreDistinct [] = Unit
AreDistinct (g ∷ gs) = (contains gs g ≡ false) × AreDistinct gs

pub leave_loop-IsNext :
    (gone : List ℕ) (changed : Bool) (c : ShardConfig)
    → IsAscending (gids c.groups)
    → AreDistinct gone
    → ((g : ℕ) → contains gone g ≡ true → contains (gids c.groups) g ≡ true)
    → (changed ≡ true) ⊎ (0 < length gone)
    → Returns (leave_loop gone changed c) (λ r.
      (r.1 ≡ true) × IsNext (λ g. contains (gids c.groups) g && not (contains gone g)) c r.0)
unfolding leave_loop
leave_loop-IsNext [] true c a d m h =
    (refl, record { num = refl; shards = refl; keys = a; members = λ g. ground arith })
leave_loop-IsNext [] false c a d m h = absurd (ground arith)
leave_loop-IsNext (gid ∷ rest) changed c a (d, ds) m h =
    let c1 : ShardConfig = record c { groups = delete_group gid c.groups } in
    rw (m gid (ground arith)) (
      Returns-map
        {P = λ r.
          (r.1 ≡ true) × IsNext (λ g. contains (gids c1.groups) g && not (contains rest g)) c1 r.0}
        {Q = λ r.
          (r.1 ≡ true)
          × IsNext (λ g. contains (gids c.groups) g && not (contains (gid ∷ rest) g)) c r.0}
        _
        (λ r (t, n). (
          t,
          record {
            num = n.num;
            shards = n.shards;
            keys = n.keys;
            members =
                λ g. n.members g ∙ (let q = contains-delete_group gid c.groups g a in ground arith);
          },
        ))
        (leave_loop-IsNext rest true c1 (delete_group-IsAscending gid c.groups a) ds
          (λ g k.
            let q = contains-delete_group gid c.groups g a in
            let i = m g (ground arith) in
            elim (Bool-cases (gid == g)) [
              | inl t ↦ absurd (cc (k, d, ap (contains rest) (==→≡ gid g t)))
              | inr f ↦ ground arith
            ])
          (inl refl)))
