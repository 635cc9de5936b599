-- ===== src/Examples/Net.antt =====
-- A group of three servers on the network of labrpc/, and a request that one of its ends sends.
use my.Prelude.{
  ℕ, zero, suc, ◌<◌, ◌≡◌, refl, Bool, true, false, none, some, List, [], ◌∷◌, arith, Returns,
}
use my.Prelude.Maps.{string_eq}
use my.Net.Rpc.{ReplyMsg, Event, replied, fired, Dice, process_req, is_server_dead}
use my.Net.Rpc.Delivery.{
  IsReached, Returned, now, later, IsServed, process_req-IsServed, process_req-delivers,
}
use my.Net.Groups.{Server, ServerGrp, end_name, make_partition, partition}
use my.Net.Groups.Links.{IsDistinct, IsWired}
use my.Net.Groups.Parts.{IsSplit}
use my.Net.Groups.Partitions.{IsParted}
use my.Net.Groups.Isolation.{make_partition-IsParted}
use my.Examples.Files.Names.{file_name, file_name_inj}

file_name-IsDistinct : IsDistinct file_name
file_name-IsDistinct = record {
  row = λ i j i' j' e. (file_name_inj i i' j j' e).0;
  column = λ i j i' j' e. (file_name_inj i i' j j' e).1;
}

abbrev server : ℕ → Server ℕ
server i = record {
  end_names = file_name i 0 ∷ file_name i 1 ∷ file_name i 2 ∷ [];
  saved = none;
  svcs = [];
}

abbrev group : ServerGrp ℕ
group = record {
  net = record {
    reliable = true;
    long_delays = false;
    long_reordering = false;
    ends = λ _. some true;
    enabled = λ _. some true;
    servers = λ _. some 1;
    connections = λ _. some "server-0-1";
    count = 0;
    bytes = 0;
  };
  srvs = server 0 ∷ server 1 ∷ server 2 ∷ [];
  servernames = [];
  connected = true ∷ true ∷ true ∷ [];
}

three_rows : (i j : ℕ) → i < 3 → j < 3 → end_name group i j ≡ some (file_name i j)
unfolding end_name
three_rows zero zero h k = refl
three_rows zero (suc zero) h k = refl
three_rows zero (suc (suc zero)) h k = refl
three_rows (suc zero) zero h k = refl
three_rows (suc zero) (suc zero) h k = refl
three_rows (suc zero) (suc (suc zero)) h k = refl
three_rows (suc (suc zero)) zero h k = refl
three_rows (suc (suc zero)) (suc zero) h k = refl
three_rows (suc (suc zero)) (suc (suc zero)) h k = refl
three_rows (suc (suc (suc i))) j h k = absurd (omega arith)
three_rows zero (suc (suc (suc j))) h k = absurd (omega arith)
three_rows (suc zero) (suc (suc (suc j))) h k = absurd (omega arith)
three_rows (suc (suc zero)) (suc (suc (suc j))) h k = absurd (omega arith)

group-IsWired : IsWired 3 file_name group
group-IsWired = record { rows = three_rows; size = refl }

make_partition-IsParted_example :
    (parts : List ℕ × List ℕ) × (make_partition 3 0 ≡ some parts)
    × IsSplit 3 0 parts
    × Returns (partition parts.0 parts.1 group) (IsParted 3 file_name parts.0 parts.1)
make_partition-IsParted_example =
    make_partition-IsParted 1 0 file_name group file_name-IsDistinct group-IsWired (omega arith)
      (omega arith)

abbrev reply : ReplyMsg
reply = record { ok = true; reply = 5 ∷ [] }

abbrev dice : Dice
dice = record { request = 50; reply = 50; reorder = 0 }

-- A timer fires once while the handler runs.
abbrev events : List Event
events = fired group.net ∷ replied reply ∷ []

events-Returned : Returned "end" "server-0-1" 1 reply events
unfolding is_server_dead
events-Returned = later refl now

group-IsReached : IsReached group.net "end" "server-0-1" 1
group-IsReached = record { enabled = refl; connected = refl; listed = refl }

process_req-delivers_example :
    (late : Bool) × (process_req group.net dice events group.net "end" ≡ (true, some (reply, late)))
    × (group.net.long_reordering ≡ false → late ≡ false)
unfolding is_server_dead
process_req-delivers_example =
    process_req-delivers group.net dice events group.net "end" "server-0-1" 1 reply refl
      group-IsReached events-Returned refl

delivered : process_req group.net dice events group.net "end" ≡ (true, some (reply, false))
unfolding process_req
delivered = refl

process_req-IsServed_example :
    (◌≡◌ {A = Bool} true true) × IsServed group.net dice events group.net "end" reply
process_req-IsServed_example =
    process_req-IsServed group.net dice events group.net "end" true false reply delivered refl

-- In a group of four, `MakePartition` puts server 0 into both parts.
make_partition_even : make_partition 4 2 ≡ some (0 ∷ 1 ∷ 3 ∷ [], 0 ∷ 2 ∷ [])
unfolding make_partition
make_partition_even = refl
