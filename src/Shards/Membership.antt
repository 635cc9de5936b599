-- ===== src/Shards/Membership.antt =====
-- shardkv1/shardcfg/shardcfg.go: groups join and leave.
pub mod Joined
pub mod Deployed
use Prim.Native.String.{String}
use text.Mathlib.Text.{◌==◌ as str_eq}
use my.Prelude.{
  ℕ, suc, ◌+◌, Bool, true, false, ◌||◌, Option, none, some, List, [], ◌∷◌, ltb, ◌==◌, if◌then◌else◌,
  ◌>>=◌,
}
use my.Shards.Config.{ShardConfig, gids, contains, rebalance}

-- A server of the one list is in the other.
abbrev has_server : String → List String → Bool
has_server s [] = false
has_server s (s2 ∷ rest) = str_eq s s2 || has_server s rest

abbrev meets : List String → List String → Bool
meets [] servers = false
meets (s1 ∷ rest) servers = has_server s1 servers || meets rest servers

abbrev pub clashes : List String → List (ℕ × List String) → Bool
clashes servers [] = false
clashes servers ((xgid, xservers) ∷ rest) = meets xservers servers || clashes servers rest

-- `cfg.Groups[gid] = servers` for a new group: the entries stay in the order of their groups.
abbrev pub add_group : ℕ → List String → List (ℕ × List String) → List (ℕ × List String)
add_group gid servers [] = (gid, servers) ∷ []
add_group gid servers (e ∷ rest) =
    if ltb gid e.0 then (gid, servers) ∷ e ∷ rest else e ∷ add_group gid servers rest

abbrev pub delete_group : ℕ → List (ℕ × List String) → List (ℕ × List String)
delete_group gid [] = []
delete_group gid (e ∷ rest) = if e.0 == gid then rest else e ∷ delete_group gid rest

-- The configuration as the call leaves it, and what the call returns; `none` is `log.Fatalf`. The
-- map that joins comes as the list of its entries in the order in which the loop takes them.
unfoldable pub join_loop : List (ℕ × List String) → Bool → ShardConfig → Option (ShardConfig × Bool)
join_loop [] changed c = if changed then some (record c { num = c.num + 1 }, true) else none
join_loop ((gid, servers) ∷ rest) changed c =
    if contains (gids c.groups) gid
    then some (c, false)
    else (if clashes servers c.groups
        then none
        else join_loop rest true (record c { groups = add_group gid servers c.groups }))

unfoldable pub join : ShardConfig → List (ℕ × List String) → Option (ShardConfig × Bool)
join c servers = join_loop servers false c

unfoldable pub leave_loop : List ℕ → Bool → ShardConfig → Option (ShardConfig × Bool)
leave_loop [] changed c = if changed then some (record c { num = c.num + 1 }, true) else none
leave_loop (gid ∷ rest) changed c =
    if contains (gids c.groups) gid
    then leave_loop rest true (record c { groups = delete_group gid c.groups })
    else some (c, false)

unfoldable pub leave : ShardConfig → List ℕ → Option (ShardConfig × Bool)
leave c gone = leave_loop gone false c

-- `none` is also a `Rebalance` that still runs when the fuel is out.
abbrev pub then_balance : ℕ → ShardConfig × Bool → Option (ShardConfig × Bool)
then_balance fuel (c, false) = some (c, false)
then_balance fuel (c, true) = do c' ← rebalance fuel c; some (c', true)

unfoldable pub join_balance : ℕ → ShardConfig → List (ℕ × List String) → Option (ShardConfig × Bool)
join_balance fuel c servers = do r ← join c servers; then_balance fuel r

unfoldable pub leave_balance : ℕ → ShardConfig → List ℕ → Option (ShardConfig × Bool)
leave_balance fuel c gone = do r ← leave c gone; then_balance fuel r
