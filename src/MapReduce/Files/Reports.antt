-- ===== src/MapReduce/Files/Reports.antt =====
-- What a worker of mr/worker.go reports to the coordinator.
use my.Prelude.{
  ◌≡◌, ◌⊎◌, inl, inr, refl, sym, ap, ◌∙◌, subst, Option, none, some, List, [], ◌∷◌, arith, length,
  Option-cases, Bool-cases, get_elem?,
}
use my.Raft.Cluster.{In}
use my.MapReduce.Coordinator.{Task, TaskType, map_task, reduce_task, wait_task, exit_task, DoneArgs}
use my.MapReduce.Worker.{make_buckets, reduce_loop}
use my.MapReduce.Files.{
  Os, Job, After, go_on, leave, report, write_files, read_all, run_map, run_reduce, worker,
}

-- A report about one of the tasks that were handed out.
abbrev pub IsGiven : List (Option Task) → DoneArgs → Type 0
IsGiven replies args =
    (task : Task) × In (some task) replies × (args ≡ record { type = task.type; id = task.id })

abbrev pub AreGiven : List (Option Task) → List DoneArgs → Type 0
AreGiven replies [] = Unit
AreGiven replies (args ∷ rest) = IsGiven replies args × AreGiven replies rest

module _ {D : Type 0} (os : Os D) (job : Job) where
  run_map-report :
      (task : Task) (d d' : D) (args : DoneArgs)
      → run_map os job task d ≡ some (d', report args)
      → args ≡ record { type = map_task; id = task.id }
  unfolding run_map
  run_map-report task d d' args h = elim (Option-cases (get_elem? task.filenames 0)) [
    | inl e ↦ absurd (ground arith)
    | inr (filename, e) ↦ elim (Option-cases (os.read_file d filename)) [
      | inl n ↦ absurd (ground arith)
      | inr (content, c) ↦
          elim (Option-cases (make_buckets job.sum32 task.n_reduce (job.mapf filename content))) [
            | inl n ↦ absurd (ground arith)
            | inr (buckets, b) ↦ elim (Bool-cases (write_files os job task.id 0 buckets d).1) [
              | inl t ↦ ground arith
              | inr f ↦ absurd (ground arith)
            ]
          ]
    ]
  ]

  run_reduce-report :
      (task : Task) (d d' : D) (after : After)
      → run_reduce os job task d ≡ some (d', after)
      → after ≡ report (record { type = reduce_task; id = task.id })
  unfolding run_reduce
  run_reduce-report task d d' after h =
      let kvs = read_all os d task.filenames in
      elim (Option-cases (reduce_loop job.reducef (length kvs) (job.sort kvs))) [
        | inl e ↦ absurd (ground arith)
        | inr (ls, e) ↦ elim (Option-cases (os.create_temp d).1) [
          | inl n ↦ absurd (ground arith)
          | inr (temp, n) ↦ ground arith
        ]
      ]

  AreGiven-later :
      (reply : Option Task) (replies : List (Option Task)) (reports : List DoneArgs)
      → AreGiven replies reports
      → AreGiven (reply ∷ replies) reports
  AreGiven-later reply replies [] g = tt
  AreGiven-later reply replies (args ∷ rest) ((task, i, e), g) =
      ((task, inr i, e), AreGiven-later reply replies rest g)

  type_cases :
      (t : TaskType) → (t ≡ map_task) ⊎ (t ≡ reduce_task) ⊎ (t ≡ wait_task) ⊎ (t ≡ exit_task)
  type_cases map_task = inl refl
  type_cases reduce_task = inr (inl refl)
  type_cases wait_task = inr (inr (inl refl))
  type_cases exit_task = inr (inr (inr refl))

  -- The worker goes on as what follows the task says.
  unfoldable Continued : List (Option Task) → After → D → D → List DoneArgs → Type 0
  Continued rest leave d₁ d' reports = reports ≡ []
  Continued rest go_on d₁ d' reports = worker os job rest d₁ ≡ some (d', reports)
  Continued rest (report args) d₁ d' reports =
      (later : List DoneArgs) × (worker os job rest d₁ ≡ some (d', later))
      × (reports ≡ args ∷ later)

  -- What a task leads to.
  module _ (task : Task) (rest : List (Option Task)) (d d' : D) (reports : List DoneArgs) where
    worker-map :
        task.type ≡ map_task
        → worker os job (some task ∷ rest) d ≡ some (d', reports)
        → (d₁ : D) × (after : After) × (run_map os job task d ≡ some (d₁, after))
          × Continued rest after d₁ d' reports
    unfolding worker Continued
    worker-map t h = elim (Option-cases (run_map os job task d)) [
      | inl e ↦ absurd (ground arith)
      | inr ((d₁, leave), e) ↦ (d₁, leave, e, ground arith)
      | inr ((d₁, go_on), e) ↦ (d₁, go_on, e, ground arith)
      | inr ((d₁, report args), e) ↦ elim (Option-cases (worker os job rest d₁)) [
        | inl n ↦ absurd (ground arith)
        | inr ((d₂, later), n) ↦ (d₁, report args, e, (later, ground arith, ground arith))
      ]
    ]

    worker-reduce :
        task.type ≡ reduce_task
        → worker os job (some task ∷ rest) d ≡ some (d', reports)
        → (d₁ : D) × (after : After) × (run_reduce os job task d ≡ some (d₁, after))
          × Continued rest after d₁ d' reports
    unfolding worker Continued
    worker-reduce t h = elim (Option-cases (run_reduce os job task d)) [
      | inl e ↦ absurd (ground arith)
      | inr ((d₁, leave), e) ↦ (d₁, leave, e, ground arith)
      | inr ((d₁, go_on), e) ↦ (d₁, go_on, e, ground arith)
      | inr ((d₁, report args), e) ↦ elim (Option-cases (worker os job rest d₁)) [
        | inl n ↦ absurd (ground arith)
        | inr ((d₂, later), n) ↦ (d₁, report args, e, (later, ground arith, ground arith))
      ]
    ]

    worker-wait :
        task.type ≡ wait_task
        → worker os job (some task ∷ rest) d ≡ some (d', reports)
        → worker os job rest d ≡ some (d', reports)
    unfolding worker
    worker-wait t h = ground arith

    worker-exit :
        task.type ≡ exit_task
        → worker os job (some task ∷ rest) d ≡ some (d', reports)
        → reports ≡ []
    unfolding worker
    worker-exit t h = ground arith

  stops :
      (rest : List (Option Task)) (d d' : D) (reports : List DoneArgs)
      → (worker os job (none ∷ rest) d ≡ some (d', reports) → reports ≡ [])
        × (worker os job [] d ≡ some (d', reports) → reports ≡ [])
  unfolding worker
  stops rest d d' reports = (λ h. ground arith, λ h. ground arith)

  continued :
      (task : Task) (rest : List (Option Task)) (after : After) (d₁ d' : D)
      (reports : List DoneArgs)
      → Continued rest after d₁ d' reports
      → ((args : DoneArgs) → after ≡ report args → args ≡ record { type = task.type; id = task.id })
      → ((later : List DoneArgs) → worker os job rest d₁ ≡ some (d', later) → AreGiven rest later)
      → AreGiven (some task ∷ rest) reports
  unfolding Continued
  continued task rest leave d₁ d' reports c own ih = subst (AreGiven (some task ∷ rest)) (sym c) tt
  continued task rest go_on d₁ d' reports c own ih =
      AreGiven-later (some task) rest reports (ih reports c)
  continued task rest (report args) d₁ d' reports (later, k, e) own ih =
      subst (AreGiven (some task ∷ rest)) (sym e)
        ((task, inl refl, own args refl), AreGiven-later (some task) rest later (ih later k))

  -- Whatever the disk does, every report of a worker whose loop has come through the replies of
  -- the coordinator without a panic is about a task among the replies, with its type and number.
  pub worker-reports :
      (replies : List (Option Task)) (d d' : D) (reports : List DoneArgs)
      → worker os job replies d ≡ some (d', reports)
      → AreGiven replies reports
  worker-reports [] d d' reports h = subst (AreGiven []) (sym ((stops [] d d' reports).1 h)) tt
  worker-reports (none ∷ rest) d d' reports h =
      subst (AreGiven (none ∷ rest)) (sym ((stops rest d d' reports).0 h)) tt
  worker-reports (some task ∷ rest) d d' reports h = elim (type_cases task.type) [
    | inl t ↦
        let (d₁, after, e, c) = worker-map task rest d d' reports t h in
        continued task rest after d₁ d' reports c
          (λ args p.
            run_map-report task d d₁ args (e ∙ ap (λ a. some (d₁, a)) p)
            ∙ ap (λ x. record { type = x; id = task.id }) (sym t))
          (λ later k. worker-reports rest d₁ d' later k)
    | inr (inl t) ↦
        let (d₁, after, e, c) = worker-reduce task rest d d' reports t h in
        continued task rest after d₁ d' reports c
          (λ args p.
            let q : report args ≡ report (record { type = reduce_task; id = task.id }) =
              sym p ∙ run_reduce-report task d d₁ after e in
            cc q ∙ ap (λ x. record { type = x; id = task.id }) (sym t))
          (λ later k. worker-reports rest d₁ d' later k)
    | inr (inr (inl t)) ↦
        AreGiven-later (some task) rest reports
          (worker-reports rest d d' reports (worker-wait task rest d d' reports t h))
    | inr (inr (inr t)) ↦
        subst (AreGiven (some task ∷ rest)) (sym (worker-exit task rest d d' reports t h)) tt
  ]
