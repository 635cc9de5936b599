-- ===== src/MapReduce/Files/Maps.antt =====
-- The intermediate files of a map task of mr/worker.go, on a disk whose calls succeed.
use Prim.Native.String.{String}
use my.Prelude.{
  ℕ, zero, suc, ◌+◌, ◌<◌, ◌≤◌, ◌≡◌, ◌≢◌, ◌⊎◌, refl, sym, ap, ◌∙◌, subst, Bool, true, false, some,
  List, [], ◌∷◌, arith, length, get_or, get_elem?, Option-cases, inl, inr,
}
use my.MapReduce.Coordinator.{Task, map_task}
use my.MapReduce.Worker.{KeyValue, make_buckets}
use my.MapReduce.Worker.Buckets.{pairs_of, make_buckets-pairs_of}
use my.MapReduce.Files.{Os, Job, report, write_pairs, write_files, run_map}
use my.MapReduce.Files.Laws.{IsReliable, IsNamed, temp_other, write_pairs_lem, write_pairs-other}

nat_cases : (j : ℕ) → (j ≡ 0) ⊎ ((k : ℕ) × (j ≡ suc k))
nat_cases zero = inl refl
nat_cases (suc k) = inr (k, refl)

module _ {D : Type 0} (os : Os D) (is_temp : String → Bool)
    (lines : D → String → List (String × String)) (reliable : IsReliable os is_temp lines)
    (job : Job) (named : IsNamed job is_temp) where
  -- The disk after one bucket.
  abbrev stored : ℕ → ℕ → List KeyValue → D → String → D
  stored id i bucket d temp =
      os.rename (write_pairs os temp bucket (os.create_temp d).0) temp (job.file_name id i)

  write_files-cons :
      (id i : ℕ) (bucket : List KeyValue) (rest : List (List KeyValue)) (d : D) (temp : String)
      → (os.create_temp d).1 ≡ some temp
      → write_files os job id i (bucket ∷ rest) d
        ≡ write_files os job id (suc i) rest (stored id i bucket d temp)
  unfolding write_files
  write_files-cons id i bucket rest d temp e = ground arith

  -- The buckets from `i` on are in their files, and nothing else changed.
  pub record AreWritten (id i : ℕ) (buckets : List (List KeyValue)) (d : D) (out : D × Bool)
      : Type 0 where
    pub done : out.1 ≡ true
    pub files :
        (j : ℕ)
        → j < length buckets
        → os.read_pairs out.0 (job.file_name id (i + j)) ≡ some (get_or buckets j [])
    pub others :
        (name : String)
        → is_temp name ≡ false
        → ((j : ℕ) → i ≤ j → job.file_name id j ≢ name)
        → os.read_pairs out.0 name ≡ os.read_pairs d name

  stored_self :
      (id i : ℕ) (bucket : List KeyValue) (d : D) (temp : String)
      → os.read_pairs (os.create_temp d).0 temp ≡ some []
      → os.read_pairs (stored id i bucket d temp) (job.file_name id i) ≡ some bucket
  stored_self id i bucket d temp h =
      (reliable.renamed (write_pairs os temp bucket (os.create_temp d).0) temp
        (job.file_name id i)).0
      ∙ write_pairs_lem os is_temp lines reliable (os.create_temp d).0 temp [] bucket h

  stored_other :
      (id i : ℕ) (bucket : List KeyValue) (d : D) (temp name : String)
      → is_temp temp ≡ true
      → is_temp name ≡ false
      → job.file_name id i ≢ name
      → os.read_pairs (os.create_temp d).0 name ≡ os.read_pairs d name
      → os.read_pairs (stored id i bucket d temp) name ≡ os.read_pairs d name
  stored_other id i bucket d temp name t f n same =
      let p = temp_other is_temp temp name t f in
      reliable.renamed_other _ temp (job.file_name id i) name p n
      ∙ write_pairs-other os is_temp lines reliable (os.create_temp d).0 temp name bucket p
      ∙ same

  AreWritten-cons :
      (id i : ℕ) (bucket : List KeyValue) (rest : List (List KeyValue)) (d : D) (temp : String)
      (out : D × Bool)
      → is_temp temp ≡ true
      → os.read_pairs (os.create_temp d).0 temp ≡ some []
      → ((name : String)
          → is_temp name ≡ false
          → os.read_pairs (os.create_temp d).0 name ≡ os.read_pairs d name)
      → AreWritten id (suc i) rest (stored id i bucket d temp) out
      → AreWritten id i (bucket ∷ rest) d out
  AreWritten-cons id i bucket rest d temp out t empty others w = record {
    done = w.done;
    files = λ j l. elim (nat_cases j) [
      | inl z ↦ subst (λ (k : ℕ). IsFile k j) (omega (arith, z)) (subst (IsFile i) (sym z) first)
      | inr (k, z) ↦
          subst (λ (x : ℕ). IsFile x j) (omega (arith, z))
            (subst (IsFile (suc i + k)) (sym z) (w.files k (omega (arith, l, z))))
    ];
    others = λ name f n.
        w.others name f (λ j l. n j (omega arith))
        ∙ stored_other id i bucket d temp name t f (n i (omega arith)) (others name f);
  }
    where
      IsFile : ℕ → ℕ → Type 0
      IsFile k j = os.read_pairs out.0 (job.file_name id k) ≡ some (get_or (bucket ∷ rest) j [])

      first : os.read_pairs out.0 (job.file_name id i) ≡ some bucket
      first =
          w.others (job.file_name id i) (named.not_temp id i)
            (λ j l. named.distinct id j i (λ e. omega arith))
          ∙ stored_self id i bucket d temp empty

  write_files-AreWritten :
      (id i : ℕ) (buckets : List (List KeyValue)) (d : D)
      → AreWritten id i buckets d (write_files os job id i buckets d)
  unfolding write_files
  write_files-AreWritten id i [] d = record {
    done = refl;
    files = λ j l. absurd (omega (arith, l));
    others = λ name f n. refl;
  }
  write_files-AreWritten id i (bucket ∷ rest) d =
      let (temp, e, t, empty, no_lines, others) = reliable.created d in
      let d₁ = stored id i bucket d temp in
      subst (AreWritten id i (bucket ∷ rest) d) (sym (write_files-cons id i bucket rest d temp e)) (
        AreWritten-cons id i bucket rest d temp (write_files os job id (suc i) rest d₁) t empty
          others (write_files-AreWritten id (suc i) rest d₁))

  -- A map task that can read its file reports, and then every intermediate file of its number has
  -- the pairs of its part, in their order; files of other names, and not of temporary ones, are as
  -- they were.
  pub run_map-files :
      (task : Task) (d : D) (filename content : String)
      → get_elem? task.filenames 0 ≡ some filename
      → os.read_file d filename ≡ some content
      → 0 < task.n_reduce
      → (d' : D) × (run_map os job task d
          ≡ some (d', report (record { type = map_task; id = task.id })))
        × ((i : ℕ)
            → i < task.n_reduce
            → os.read_pairs d' (job.file_name task.id i)
              ≡ some (pairs_of job.sum32 task.n_reduce i (job.mapf filename content)))
        × ((name : String)
            → is_temp name ≡ false
            → ((i : ℕ) → job.file_name task.id i ≢ name)
            → os.read_pairs d' name ≡ os.read_pairs d name)
  unfolding run_map
  run_map-files task d filename content f c n =
      let h = make_buckets-pairs_of job.sum32 task.n_reduce (job.mapf filename content) n in
      elim (Option-cases (make_buckets job.sum32 task.n_reduce (job.mapf filename content))) [
        | inl e ↦ absurd (rw e at h)
        | inr (buckets, e) ↦
            let (len, own) = rw e at h in
            let w = write_files-AreWritten task.id 0 buckets d in
            (
              (write_files os job task.id 0 buckets d).0,
              ground (arith, w.done),
              λ i l.
                  subst
                    (λ (k : ℕ).
                      os.read_pairs (write_files os job task.id 0 buckets d).0
                        (job.file_name task.id k)
                      ≡ some (get_or buckets i []))
                    (omega arith) (w.files i (omega (arith, l, len)))
                  ∙ ap some (own i),
              λ name t o. w.others name t (λ j l. o j),
            )
      ]
