-- ===== src/Shards/Check.antt =====
-- shardkv1/shardcfg/shardcfg.go: `CheckConfig`, the test's demands on a configuration, and
-- `IsMember` and `GidServers`, which look a group up.
pub mod Rebalanced
pub mod Still
use Prim.Native.String.{String}
use my.Prelude.{
  ℕ, zero, suc, ◌+◌, Bool, true, false, ◌&&◌, ◌||◌, Option, none, some, List, [], ◌∷◌, map, ltb,
  leb, ◌==◌, if◌then◌else◌, ◌>>=◌, length, get_elem?,
}
use my.Shards.Config.{ShardConfig, gids, contains, count}

-- `min` and `max` over the groups, from the values that the loop begins with.
abbrev pub fewest_of : List ℕ → List ℕ → ℕ
fewest_of shards [] = 257
fewest_of shards (g ∷ gs) =
    let rest = fewest_of shards gs in if ltb (count g shards) rest then count g shards else rest

abbrev pub most_of : List ℕ → List ℕ → ℕ
most_of shards [] = 0
most_of shards (g ∷ gs) =
    let rest = most_of shards gs in if ltb rest (count g shards) then count g shards else rest

abbrev pub all_in : List ℕ → List ℕ → Bool
all_in gs [] = true
all_in gs (x ∷ xs) = contains gs x && all_in gs xs

-- Whether the test passes: `false` is a call of `fatalf`.
unfoldable pub check_config : ShardConfig → List ℕ → Bool
check_config c groups =
    (length c.groups == length groups)
    && all_in (gids c.groups) groups
    && ((length groups == 0) || all_in (gids c.groups) c.shards)
    && leb (most_of c.shards (gids c.groups)) (fewest_of c.shards (gids c.groups) + 1)

unfoldable pub is_member : ShardConfig → ℕ → Bool
is_member c gid = contains c.shards gid

-- `cfg.Groups[gid]`: no servers and `false` when the group is not there.
abbrev pub servers_of : ℕ → List (ℕ × List String) → List String × Bool
servers_of gid [] = ([], false)
servers_of gid ((g, srvs) ∷ rest) = if g == gid then (srvs, true) else servers_of gid rest

-- `none` is an index out of the array.
unfoldable pub gid_servers : ShardConfig → ℕ → Option (ℕ × List String × Bool)
gid_servers c sh = do
  gid ← get_elem? c.shards sh
  some (gid, (servers_of gid c.groups).0, (servers_of gid c.groups).1)
