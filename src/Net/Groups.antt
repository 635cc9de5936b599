-- ===== src/Net/Groups.antt =====
-- tester1/group.go, tester1/srv.go and tester1/persister.go: a group of servers on the network, which
-- are started, shut down, connected and partitioned.

pub mod Parts
pub mod Links
pub mod Connections
pub mod Partitions
pub mod Isolation
use Prim.Native.String.{String}
use my.Prelude.{
  ℕ, zero, suc, ◌+◌, ◌-◌, ◌/◌, Bool, true, false, not, Option, none, some, List, [], ◌∷◌, ◌++◌, ltb,
  ◌==◌, if◌then◌else◌, ◌>>=◌, length, get_elem?, set, replicate, map,
}
use my.Raft.State.{Bytes, Persister, make_persister}
use my.Net.Rpc.{Network, Address, make_end, connect, enable, add_server, delete_server}

-- `Copy`, and what the readers of a persister give: byte strings are values here, so a clone is the
-- byte string.
unfoldable pub copy : Persister → Persister
copy ps = record { raftstate = ps.raftstate; snapshot = ps.snapshot }

unfoldable pub raft_state_size : Persister → ℕ
raft_state_size ps = length ps.raftstate

unfoldable pub snapshot_size : Persister → ℕ
snapshot_size ps = length ps.snapshot

abbrev pub is_nil : List String → Bool
is_nil [] = true
is_nil (name ∷ names) = false

-- A server of the tester, with the names of its ends, to each server of its group.
pub record Server (S : Type 0) : Type 0 where
  pub end_names : List String
  pub saved : Option Persister
  pub svcs : List S

pub record ServerGrp (S : Type 0) : Type 0 where
  pub net : Network
  pub srvs : List (Server S)
  pub servernames : List String
  pub connected : List Bool

-- `a[i] = v`, which panics out of range.
abbrev pub put : {A : Type 0} → List A → ℕ → A → Option (List A)
put a i v = if ltb i (length a) then some (set a i v) else none

-- The loop of `makeServer` over the names of the ends, from the server `j` on.
unfoldable pub make_ends : (ℕ → String) → ℕ → List String → Network → Option Network
make_ends server_name j [] net = some net
make_ends server_name j (name ∷ rest) net = do
  net' ← make_end net name
  make_ends server_name (suc j) rest (connect net' name (server_name j))

-- The numbers from `i` on.
unfoldable pub numbers : ℕ → ℕ → List ℕ
numbers zero i = []
numbers (suc n) i = i ∷ numbers n (suc i)

module _ {S : Type 0} where
  unfoldable pub start_saved : Server S → Persister
  unfolding copy
  start_saved s = elim s.saved [ none ↦ make_persister | some ps ↦ copy ps ]

  -- `startServer`: fresh ends, whose names `Randstring` gives, and a copy of what is saved.
  unfoldable pub start_server :
      (ℕ → String) → (ℕ → String) → Server S → Network → Option (Server S × Network)
  unfolding make_ends start_saved numbers
  start_server server_name fresh s net = do
    let names = map fresh (numbers (length s.end_names) 0)
    net' ← make_ends server_name 0 names net
    some (record { end_names = names; saved = some (start_saved s); svcs = [] }, net')

  unfoldable pub shutdown_server : Server S → Server S
  unfolding copy
  shutdown_server s =
      let saved : Option Persister = elim s.saved [ none ↦ none | some ps ↦ some (copy ps) ] in
      record s { saved = saved; svcs = [] }

  -- The name of the end of the server `i` to the server `j`.
  unfoldable pub end_name : ServerGrp S → ℕ → ℕ → Option String
  end_name sg i j = do s ← get_elem? sg.srvs i; get_elem? s.end_names j

  -- `net.Enable(endname, b)` for the end from `i` to `j`.
  unfoldable pub switch : Bool → ℕ → ℕ → ServerGrp S → Option (ServerGrp S)
  unfolding end_name enable
  switch b i j sg = do name ← end_name sg i j; some (record sg { net = enable sg.net name b })

  -- The same for a disabled end; a server whose names are nil, an empty list here, is passed over.
  unfoldable pub cut : ℕ → ℕ → ServerGrp S → Option (ServerGrp S)
  cut i j sg = do
    s ← get_elem? sg.srvs i
    if is_nil s.end_names then some sg else switch false i j sg

  -- A loop over the servers of a list.
  unfoldable pub each :
      (ℕ → ServerGrp S → Option (ServerGrp S)) → List ℕ → ServerGrp S → Option (ServerGrp S)
  each f [] sg = some sg
  each f (j ∷ rest) sg = do sg' ← f j sg; each f rest sg'

  -- `if sg.IsConnected(to[j]) { … }`
  unfoldable pub if_connected :
      ℕ → (ServerGrp S → Option (ServerGrp S)) → ServerGrp S → Option (ServerGrp S)
  if_connected j f sg = do up ← get_elem? sg.connected j; if up then f sg else some sg

  unfoldable pub set_connected : ℕ → Bool → ServerGrp S → Option (ServerGrp S)
  set_connected i b sg = do
    connected ← put sg.connected i b
    some (record sg { connected = connected })

  -- `sg.connect`: the ends of the server `i` to the servers of `to`, and then theirs to it.
  unfoldable pub attach : ℕ → List ℕ → ServerGrp S → Option (ServerGrp S)
  unfolding each if_connected set_connected switch
  attach i to sg = do
    sg₁ ← set_connected i true sg
    sg₂ ← each (λ j. if_connected j (switch true i j)) to sg₁
    each (λ j. if_connected j (switch true j i)) to sg₂

  -- `sg.disconnect`
  unfoldable pub disconnect : ℕ → List ℕ → ServerGrp S → Option (ServerGrp S)
  unfolding each set_connected cut
  disconnect i from sg = do
    sg₁ ← set_connected i false sg
    sg₂ ← each (λ j. cut i j) from sg₁
    each (λ j. cut j i) from sg₂

  unfoldable pub all : ServerGrp S → List ℕ
  unfolding numbers
  all sg = numbers (length sg.srvs) 0

  unfoldable pub connect_one : ℕ → ServerGrp S → Option (ServerGrp S)
  unfolding all attach
  connect_one i sg = attach i (all sg) sg

  unfoldable pub connect_all : ServerGrp S → Option (ServerGrp S)
  unfolding all connect_one each
  connect_all sg = each connect_one (all sg) sg

  unfoldable pub disconnect_all : ℕ → ServerGrp S → Option (ServerGrp S)
  unfolding all disconnect
  disconnect_all i sg = disconnect i (all sg) sg

  -- `StartServer`: `mks` starts the services of a server, and `labsrv` is the address of the new
  -- server of the network.
  unfoldable pub start_one :
      (List String → ℕ → Option Persister → List S)
      → (ℕ → String)
      → (ℕ → String)
      → Address
      → ℕ
      → ServerGrp S
      → Option (ServerGrp S)
  unfolding start_server add_server
  start_one mks server_name fresh labsrv i sg = do
    s ← get_elem? sg.srvs i
    (srv, net) ← start_server server_name fresh s sg.net
    let srv' : Server S = record srv { svcs = mks srv.end_names i srv.saved }
    srvs ← put sg.srvs i srv'
    some (record sg { srvs = srvs; net = add_server net (server_name i) labsrv })

  -- `ShutdownServer`
  unfoldable pub shutdown_one : (ℕ → String) → ℕ → ServerGrp S → Option (ServerGrp S)
  unfolding disconnect all shutdown_server delete_server
  shutdown_one server_name i sg = do
    sg₁ ← disconnect i (all sg) sg
    s ← get_elem? sg₁.srvs i
    srvs ← put sg₁.srvs i (shutdown_server s)
    some (record sg₁ { net = delete_server sg₁.net (server_name i); srvs = srvs })

  unfoldable pub partition : List ℕ → List ℕ → ServerGrp S → Option (ServerGrp S)
  unfolding each attach disconnect
  partition p1 p2 sg = do
    sg₁ ← each (λ i sg'. do sg'' ← disconnect i p2 sg'; attach i p1 sg'') p1 sg
    each (λ i sg'. do sg'' ← disconnect i p1 sg'; attach i p2 sg'') p2 sg₁

-- The two parts of `MakePartition` as they are filled.
pub record Filled : Type 0 where
  pub p1 : List ℕ
  pub p2 : List ℕ
  pub next : ℕ  -- `j`

unfoldable pub place : ℕ → Filled → Option Filled
place i ps =
    if ltb ps.next (length ps.p1)
    then (do p1 ← put ps.p1 ps.next i; some (record ps { p1 = p1; next = ps.next + 1 }))
    else (do
      p2 ← put ps.p2 (ps.next - length ps.p1) i
      some (record ps { p2 = p2; next = ps.next + 1 }))

-- The loop from the server `i` on, for `n` more.
unfoldable pub place_all : ℕ → ℕ → ℕ → Filled → Option Filled
unfolding place
place_all l zero i ps = some ps
place_all l (suc n) i ps = do
  ps' ← if i == l then some ps else place i ps
  place_all l n (suc i) ps'

-- `p2[len(p2)-1] = l` panics if the part is empty.
unfoldable pub make_partition : ℕ → ℕ → Option (List ℕ × List ℕ)
unfolding place_all
make_partition n l = do
  ps ← place_all l n 0 (record { p1 = replicate (n / 2 + 1) 0; p2 = replicate (n / 2) 0; next = 0 })
  p2 ← put ps.p2 (length ps.p2 - 1) l
  some (ps.p1, p2)
