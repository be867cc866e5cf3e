-- ===== src/Collector/LogDirs/Refusals.antt =====
-- What `buildLogDirs` of internal/collector/logdirs.go says of directories that could not be read and of
-- brokers that answered with nothing.
use mathlib.Core.List.{Permᴰ}
unfoldable use mathlib.Core.List.{flatten}
use streamsight_agent.Base.{
  subst, sym, ap, ◌++◌, some, pos, lookup, Forall₂, sort_by-permutes, ◌≡◌, ◌⊎◌, inl, inr, refl,
  false, none, List, [], ◌∷◌, int_eq, All, Bool-cases, Option-cases, arith, map,
}
use streamsight_agent.Collector.GoError.{GoErrors}
use streamsight_agent.Collector.Section.{Section}
use streamsight_agent.Collector.Request.{error_code, record_log_dir}
use streamsight_agent.Collector.Request.Told.{Admits, Worsens, record_log_dir-Admits}
use streamsight_agent.Collector.Wire.{Broker, ClusterMetrics, LogDir}
use streamsight_agent.Collector.LogDirs.{
  api_describe_log_dirs, DescribedDir, LogDirReport, all_dirs, dir_ltb, sorted_dirs, record_dirs,
  is_silent, record_silent, dir_row, build_log_dirs,
}

module _ (G : GoErrors) where
  open G use {GoError, no_log_dirs}

  -- A directory that its broker read.
  pub IsRead : DescribedDir GoError → Type 0
  IsRead d = d.err ≡ none

  record_dirs-Admits :
      (sec : Section) (ds : List (DescribedDir GoError))
      → Worsens sec (record_dirs G sec ds) × (All IsRead ds ⊎ Admits (record_dirs G sec ds))
  unfolding record_dirs IsRead
  record_dirs-Admits sec [] = (omega arith, inl tt)
  record_dirs-Admits sec (d ∷ ds) = elim (Option-cases d.err) [
    | inl h ↦ rw (h, record_dirs) (ground (arith, h, record_dirs-Admits sec ds))
    | inr (e, h) ↦
        let (a, w) = record_log_dir-Admits G sec api_describe_log_dirs d.broker d.dir e in
        let (w', b) =
          record_dirs-Admits (record_log_dir G sec api_describe_log_dirs d.broker d.dir e) ds in
        rw (h, record_dirs) (omega (arith, w, w'), inr (omega (arith, a, w')))
  ]

  -- A broker that is missing from the report, or named a directory.
  pub IsHeard : LogDirReport GoError → Broker → Type 0
  IsHeard described b =
      (lookup b.id described ≡ none)
      ⊎ ((d : DescribedDir GoError) × (ds : List (DescribedDir GoError)) × (lookup b.id described
            ≡ some (d ∷ ds)))

  is_silent-IsHeard :
      (described : LogDirReport GoError) (b : Broker)
      → is_silent G described b.id ≡ false
      → IsHeard described b
  unfolding IsHeard
  is_silent-IsHeard described b h = elim (Option-cases (lookup b.id described)) [
    | inl e ↦ inl e
    | inr ([], e) ↦ absurd (ground (arith, h, e))
    | inr (d ∷ ds, e) ↦ inr (d, ds, e)
  ]

  -- The row of a directory: what its broker said of it, and if it was refused the code of the error and
  -- no partitions.
  pub IsDirRow : DescribedDir GoError → LogDir → Type 0
  IsDirRow d row =
      (row.broker ≡ d.broker)
      × (row.dir ≡ d.dir)
      × (row.total_bytes ≡ d.total_bytes)
      × (row.usable_bytes ≡ d.usable_bytes)
      × (((d.err ≡ none) × (row.error_code ≡ pos 0) × (row.partitions ≡ d.partitions))
          ⊎ ((e : GoError) × (d.err ≡ some e)
              × (row.error_code ≡ error_code G e)
              × (row.partitions ≡ none)))

  dir_row-IsDirRow : (d : DescribedDir GoError) → IsDirRow d (dir_row G d)
  unfolding dir_row IsDirRow
  dir_row-IsDirRow d = elim (Option-cases d.err) [
    | inl h ↦ (refl, refl, refl, refl, inl (h, rw h refl, rw h refl))
    | inr (e, h) ↦ (refl, refl, refl, refl, inr (e, h, rw h refl, rw h refl))
  ]

  dir_rows-IsDirRow : (ds : List (DescribedDir GoError)) → Forall₂ IsDirRow ds (map (dir_row G) ds)
  dir_rows-IsDirRow [] = tt
  dir_rows-IsDirRow (d ∷ ds) = (dir_row-IsDirRow d, dir_rows-IsDirRow ds)

  record_silent-Admits :
      (described : LogDirReport GoError) (sec : Section) (bs : List Broker)
      → Worsens sec (record_silent G described sec bs)
        × (All (IsHeard described) bs ⊎ Admits (record_silent G described sec bs))
  unfolding record_silent
  record_silent-Admits described sec [] = (omega arith, inl tt)
  record_silent-Admits described sec (b ∷ bs) =
      let sec' = record_log_dir G sec api_describe_log_dirs b.id "" no_log_dirs in
      let (a, w) = record_log_dir-Admits G sec api_describe_log_dirs b.id "" no_log_dirs in
      let told = record_silent-Admits described sec' bs in
      let skip = record_silent-Admits described sec bs in
      elim (Bool-cases (is_silent G described b.id)) [
        | inl h ↦ rw (h, record_silent) (omega (arith, w, told.0), inr (omega (arith, a, told.0)))
        | inr h ↦
            rw (h, record_silent)
              (
                skip.0,
                elim skip.1 [ inl x ↦ inl (is_silent-IsHeard described b h, x) | inr x ↦ inr x ],
              )
      ]

  all_dirs-flatten :
      (described : LogDirReport GoError) → flatten (map (λ r. r.1) described) ≡ all_dirs G described
  unfolding all_dirs flatten
  all_dirs-flatten [] = refl
  all_dirs-flatten ((broker, dirs) ∷ described) = ap (λ ds. dirs ++ ds) (all_dirs-flatten described)

  -- Unless every described directory was read and each broker of the cluster is missing from the report
  -- or named a directory, the section is at least `partial`. There is a row for each directory of the
  -- report, in some order: with its broker, path and sizes; with the code 0 and its partitions if it
  -- was read, and otherwise with the code of its error and no partitions.
  pub build_log_dirs-Admits :
      (described : LogDirReport GoError) (cluster : ClusterMetrics) (sec : Section)
      → (ds : List (DescribedDir GoError)) × Permᴰ (flatten (map (λ r. r.1) described)) ds
        × Forall₂ IsDirRow ds (build_log_dirs G described cluster sec).0
        × ((All IsRead ds × All (IsHeard described) cluster.brokers)
            ⊎ Admits (build_log_dirs G described cluster sec).1)
  unfolding build_log_dirs sorted_dirs
  build_log_dirs-Admits described cluster sec =
      let (w, a) = record_dirs-Admits sec (sorted_dirs G described) in
      let sec' = record_dirs G sec (sorted_dirs G described) in
      let (w', b) = record_silent-Admits described sec' cluster.brokers in
      (
        sorted_dirs G described,
        subst (λ ds. Permᴰ ds (sorted_dirs G described)) (sym (all_dirs-flatten described))
            (sort_by-permutes (dir_ltb G) (all_dirs G described)),
        dir_rows-IsDirRow (sorted_dirs G described),
        elim b [
          | inr y ↦ inr y
          | inl y ↦ elim a [ inl x ↦ inl (x, y) | inr x ↦ inr (omega (arith, x, w')) ]
        ],
      )
