-- ===== src/Shards/Config.antt =====
-- shardkv1/shardcfg/shardcfg.go: configurations, and how shards are moved between groups.
pub mod Counts
pub mod Moving
pub mod Balance
use Prim.Native.String.{String}
use text.Mathlib.Text.{◌==◌ as str_eq}
use my.Prelude.{
  ℕ, zero, suc, ◌+◌, ◌%◌, Bool, true, false, not, ◌&&◌, ◌||◌, Option, none, some, List, [], ◌∷◌,
  ◌++◌, map, ltb, leb, ◌==◌, if◌then◌else◌, ◌>>=◌, length, set, replicate,
}

abbrev pub n_shards : ℕ
n_shards = 12

-- Go's map `Groups` is the list of its entries in the order of the group numbers.
pub record ShardConfig : Type 0 where
  pub num : ℕ
  pub shards : List ℕ
  pub groups : List (ℕ × List String)

-- A group number is positive, and 0 is no group: the zero value of the array.
unfoldable pub make_shard_config : ShardConfig
make_shard_config = record { num = 0; shards = replicate n_shards 0; groups = [] }

unfoldable pub key_to_shard : (String → ℕ) → String → ℕ
key_to_shard sum32 key = sum32 key % n_shards

abbrev pub gids : List (ℕ × List String) → List ℕ
gids groups = map (λ g. g.0) groups

abbrev pub contains : List ℕ → ℕ → Bool
contains [] g = false
contains (x ∷ xs) g = x == g || contains xs g

-- `counts[g]` after the loop over the shards.
abbrev pub count : ℕ → List ℕ → ℕ
count g [] = 0
count g (x ∷ xs) = (if x == g then 1 else 0) + count g xs

-- `mg, mn` and `lg, ln`; `none` is the group -1 with the count -1, and the group -1.
pub record Extremes : Type 0 where
  pub most : Option (ℕ × ℕ)
  pub lg : Option ℕ
  pub ln : ℕ

abbrev pub larger : Option (ℕ × ℕ) → ℕ → ℕ → Option (ℕ × ℕ)
larger none g n = some (g, n)
larger (some (mg, mn)) g n = if ltb mn n then some (g, n) else some (mg, mn)

abbrev pub extend : List ℕ → Extremes → ℕ → Extremes
extend shards x g = record {
  most = larger x.most g (count g shards);
  lg = if ltb (count g shards) x.ln then some g else x.lg;
  ln = if ltb (count g shards) x.ln then count g shards else x.ln;
}

-- The loop over the sorted group numbers.
unfoldable pub analyze_loop : List ℕ → List ℕ → Extremes → Extremes
analyze_loop shards [] x = x
analyze_loop shards (g ∷ gs) x = analyze_loop shards gs (extend shards x g)

unfoldable pub analyze : ShardConfig → Extremes
unfolding analyze_loop
analyze c = analyze_loop c.shards (gids c.groups) (record { most = none; lg = none; ln = 257 })

unfoldable pub least : ShardConfig → Option ℕ
unfolding analyze
least c = (analyze c).lg

-- `for s, g := range c.Shards`, from the shard `s` on: `range` goes over a copy of the array.
unfoldable pub assign_loop : List ℕ → ℕ → ShardConfig → Option ShardConfig
assign_loop [] s c = some c
assign_loop (g ∷ rest) s c =
    if contains (gids c.groups) g
    then assign_loop rest (suc s) c
    else (do lg ← least c; assign_loop rest (suc s) (record c { shards = set c.shards s lg }))

-- The first shard of the group `mg` goes to `lg`.
unfoldable pub move_one : ℕ → ℕ → List ℕ → List ℕ
move_one mg lg [] = []
move_one mg lg (g ∷ rest) = if g == mg then lg ∷ rest else g ∷ move_one mg lg rest

abbrev pub moved : ShardConfig → ℕ → ℕ → ShardConfig
moved c mg lg = record c { shards = move_one mg lg c.shards }

-- The loop that moves shards, on fuel: `none` is a loop that still runs.
unfoldable pub move_loop : ℕ → ShardConfig → Option ShardConfig
move_loop zero c = none
move_loop (suc fuel) c = elim (analyze c).most [
  | none ↦ some c
  | some (mg, mn) ↦
      (if ltb mn ((analyze c).ln + 2)
        then some c
        else (do lg ← (analyze c).lg; move_loop fuel (moved c mg lg)))
]

-- `none` is a loop that still runs when the fuel is out, or a shard that would go to the group -1.
unfoldable pub rebalance : ℕ → ShardConfig → Option ShardConfig
rebalance fuel c =
    if ltb (length c.groups) 1
    then some (record c { shards = replicate (length c.shards) 0 })
    else (do c' ← assign_loop c.shards 0 c; move_loop fuel c')
