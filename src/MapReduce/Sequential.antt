-- ===== src/MapReduce/Sequential.antt =====
-- main/mrsequential.go: MapReduce without tasks, in one process.
pub mod Orders
pub mod Equal
use Prim.Native.String.{String}
use my.Prelude.{
  ℕ, Bool, true, false, Option, none, some, List, [], ◌∷◌, ◌++◌, ◌>>=◌, length, if◌then◌else◌,
}
use my.Prelude.Maps.{◌=?◌, string_eq}
use my.MapReduce.Worker.{KeyValue, reduce_loop}

-- `for _, filename := range os.Args[2:]`, where `read_file` opens and reads a file; none is the
-- `log.Fatalf` for one that cannot be read.
unfoldable pub gather :
    (String → Option String)
    → (String → String → List KeyValue)
    → List String
    → Option (List KeyValue)
gather read_file mapf [] = some []
gather read_file mapf (filename ∷ rest) = do
  content ← read_file filename
  intermediate ← gather read_file mapf rest
  some (mapf filename content ++ intermediate)

-- The lines that `main` prints to "mr-out-0". Its loop over the sorted pairs is that of a worker's
-- reduce task.
unfoldable pub sequential :
    (String → Option String)
    → (String → String → List KeyValue)
    → (String → List String → String)
    → (List KeyValue → List KeyValue)
    → List String
    → Option (List (String × String))
unfolding gather
sequential read_file mapf reducef sort filenames = do
  intermediate ← gather read_file mapf filenames
  reduce_loop reducef (length intermediate) (sort intermediate)
