-- ===== src/MapReduce/Files/Laws.antt =====
-- What a disk does whose calls succeed: the documented behaviour of the packages os and
-- encoding/json that mr/worker.go relies on.
use Prim.Native.String.{String}
use mathlib.Core.List.{append_assoc, append-nil}
use my.Prelude.{ℕ, ◌≡◌, ◌≢◌, refl, sym, ap, ◌∙◌, Bool, true, false, some, List, [], ◌∷◌, ◌++◌}
use my.MapReduce.Worker.{KeyValue}
use my.MapReduce.Files.{Os, Job, write_pairs, write_lines}

-- `is_temp` tells the names that `CreateTemp` makes; `lines` is what was printed into a file.
pub record IsReliable {D : Type 0} (os : Os D) (is_temp : String → Bool)
    (lines : D → String → List (String × String)) : Type 0 where
  pub created :
      (d : D)
      → (temp : String) × ((os.create_temp d).1 ≡ some temp)
        × (is_temp temp ≡ true)
        × (os.read_pairs (os.create_temp d).0 temp ≡ some [])
        × (lines (os.create_temp d).0 temp ≡ [])
        × ((name : String)
            → is_temp name ≡ false
            → os.read_pairs (os.create_temp d).0 name ≡ os.read_pairs d name)
  pub written :
      (d : D) (temp : String) (kvs : List KeyValue) (kv : KeyValue)
      → os.read_pairs d temp ≡ some kvs
      → os.read_pairs (os.write_pair d temp kv) temp ≡ some (kvs ++ kv ∷ [])
  pub written_other :
      (d : D) (temp name : String) (kv : KeyValue)
      → temp ≢ name
      → os.read_pairs (os.write_pair d temp kv) name ≡ os.read_pairs d name
  pub printed :
      (d : D) (temp : String) (line : String × String)
      → lines (os.write_line d temp line) temp ≡ lines d temp ++ line ∷ []
  pub renamed :
      (d : D) (temp name : String)
      → (os.read_pairs (os.rename d temp name) name ≡ os.read_pairs d temp)
        × (lines (os.rename d temp name) name ≡ lines d temp)
  pub renamed_other :
      (d : D) (temp to name : String)
      → temp ≢ name
      → to ≢ name
      → os.read_pairs (os.rename d temp to) name ≡ os.read_pairs d name

-- Intermediate files have different names, and none is that of a temporary file.
pub record IsNamed (job : Job) (is_temp : String → Bool) : Type 0 where
  pub distinct : (id i j : ℕ) → i ≢ j → job.file_name id i ≢ job.file_name id j
  pub apart : (id id' i j : ℕ) → id ≢ id' → job.file_name id i ≢ job.file_name id' j
  pub not_temp : (id i : ℕ) → is_temp (job.file_name id i) ≡ false

pub temp_other :
    (is_temp : String → Bool) (temp name : String)
    → is_temp temp ≡ true
    → is_temp name ≡ false
    → temp ≢ name
temp_other is_temp temp name t f p = cc (t, f, ap is_temp p)

module _ {D : Type 0} (os : Os D) (is_temp : String → Bool)
    (lines : D → String → List (String × String)) (reliable : IsReliable os is_temp lines) where
  pub write_pairs_lem :
      (d : D) (temp : String) (old kvs : List KeyValue)
      → os.read_pairs d temp ≡ some old
      → os.read_pairs (write_pairs os temp kvs d) temp ≡ some (old ++ kvs)
  write_pairs_lem d temp old [] h = h ∙ ap some (sym (append-nil old))
  write_pairs_lem d temp old (kv ∷ rest) h =
      write_pairs_lem (os.write_pair d temp kv) temp (old ++ kv ∷ []) rest
        (reliable.written d temp old kv h)
      ∙ ap some (append_assoc old (kv ∷ []) rest)

  pub write_pairs-other :
      (d : D) (temp name : String) (kvs : List KeyValue)
      → temp ≢ name
      → os.read_pairs (write_pairs os temp kvs d) name ≡ os.read_pairs d name
  write_pairs-other d temp name [] n = refl
  write_pairs-other d temp name (kv ∷ rest) n =
      write_pairs-other (os.write_pair d temp kv) temp name rest n
      ∙ reliable.written_other d temp name kv n

  pub write_lines_lem :
      (d : D) (temp : String) (ls : List (String × String))
      → lines (write_lines os temp ls d) temp ≡ lines d temp ++ ls
  write_lines_lem d temp [] = sym (append-nil (lines d temp))
  write_lines_lem d temp (line ∷ rest) =
      write_lines_lem (os.write_line d temp line) temp rest
      ∙ ap (λ l. l ++ rest) (reliable.printed d temp line)
      ∙ append_assoc (lines d temp) (line ∷ []) rest
