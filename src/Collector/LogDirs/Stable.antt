-- ===== src/Collector/LogDirs/Stable.antt =====
-- `buildLogDirs` of internal/collector/logdirs.go does not depend on the order of the map's iteration.
use streamsight_agent.Base.{
  ◌≡◌, refl, sym, ap, subst, Bool, false, Option, none, some, List, [], ◌∷◌, ◌++◌, ℤ, length, ◌==◌,
  lookup, int_eq, AllApart, sort_by-perm, IsOrder, number_text_ltb-IsOrder,
}
use mathlib.Core.List.{Permᴰ, append_assoc}
use mathlib.Core.List.Permᴰ as PermD
use streamsight_agent.Collector.GoError.{GoErrors}
use streamsight_agent.Collector.Section.{Section}
use streamsight_agent.Collector.Request.{record_log_dir}
use streamsight_agent.Collector.Wire.{Broker, ClusterMetrics}
use streamsight_agent.Collector.LogDirs.{
  api_describe_log_dirs, DescribedDir, LogDirReport, dir_ltb, all_dirs, sorted_dirs, record_silent,
  build_log_dirs,
}

module _ (G : GoErrors) where
  open G use {GoError}

  -- Two iterations over one map: the same entries in some order, and the same answer for every key.
  abbrev pub IsSameMap : LogDirReport GoError → LogDirReport GoError → Type 0
  IsSameMap r r' = Permᴰ r r' × ((k : ℤ) → lookup k r ≡ lookup k r')

  dir_ltb-IsOrder : IsOrder (dir_ltb G)
  dir_ltb-IsOrder = record {
    asym = λ l r. number_text_ltb-IsOrder.asym (l.broker, l.dir) (r.broker, r.dir);
    trans = λ l m r.
        number_text_ltb-IsOrder.trans (l.broker, l.dir) (m.broker, m.dir) (r.broker, r.dir);
  }

  all_dirs-perm : {r r' : LogDirReport GoError} → Permᴰ r r' → Permᴰ (all_dirs G r) (all_dirs G r')
  unfolding all_dirs
  all_dirs-perm PermD.nil = PermD.nil
  all_dirs-perm (PermD.cons {a = (i, ds)} {b = (j, es)} {l₁ = l₁} {l₂ = l₂} e d) =
      subst (λ x. Permᴰ (ds ++ all_dirs G l₁) (x ++ all_dirs G l₂)) (ap (λ p. p.1) e)
        (PermD.append_left ds (all_dirs-perm d))
  all_dirs-perm (PermD.swap {a = (i, ds)} {b = (j, es)} {b' = b'} {l = l} e f) =
      subst (λ x. Permᴰ (ds ++ (es ++ all_dirs G l)) (x ++ (b'.1 ++ all_dirs G l)))
        (ap (λ p. p.1) f)
        (subst (λ x. Permᴰ (ds ++ (es ++ all_dirs G l)) (es ++ (x ++ all_dirs G l)))
          (ap (λ p. p.1) e)
          (rw (sym (append_assoc ds es (all_dirs G l)), sym (append_assoc es ds (all_dirs G l)))
            (PermD.append_right (all_dirs G l) (PermD.append_comm ds es))))
  all_dirs-perm (PermD.trans d e) = PermD.trans (all_dirs-perm d) (all_dirs-perm e)

  record_silent-same :
      (r r' : LogDirReport GoError) (sec : Section) (bs : List Broker)
      → ((k : ℤ) → lookup k r ≡ lookup k r')
      → record_silent G r sec bs ≡ record_silent G r' sec bs
  unfolding record_silent
  record_silent-same r r' sec [] h = refl
  record_silent-same r r' sec (b ∷ bs) h =
      let sec' = record_log_dir G sec api_describe_log_dirs b.id "" G.no_log_dirs in
      let same = ap (λ o. heard o) (h b.id) in
      rw (record_silent, same, record_silent-same r r' sec bs h, record_silent-same r r' sec' bs h)
        refl
    where
      heard : Option (List (DescribedDir GoError)) → Bool
      heard o = elim o [ none ↦ false | some dirs ↦ length dirs == 0 ]

  -- For two iterations over one map, with the same entries in any order and the same answer for every key,
  -- the rows and the section are the same, if no two directories have the same broker and name.
  pub build_log_dirs-stable :
      (r r' : LogDirReport GoError) (cluster : ClusterMetrics) (sec : Section)
      → IsSameMap r r'
      → AllApart (dir_ltb G) (all_dirs G r)
      → build_log_dirs G r cluster sec ≡ build_log_dirs G r' cluster sec
  unfolding build_log_dirs sorted_dirs
  build_log_dirs-stable r r' cluster sec (p, h) apart =
      rw
        (
          sort_by-perm (dir_ltb G) dir_ltb-IsOrder (all_dirs-perm p) apart,
          record_silent-same r r' _ cluster.brokers h,
        )
        refl
