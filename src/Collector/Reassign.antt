-- ===== src/Collector/Reassign.antt =====
-- internal/collector/reassign.go: the question to the controller about the under-replicated partitions.
-- The set of the question is a list: the topics phase ships each partition once.
pub mod Trigger
use streamsight_agent.Base.{
  ℕ, zero, suc, ◌+◌, Bool, true, false, not, ◌&&◌, ◌||◌, Option, none, some, List, [], ◌∷◌, ◌++◌,
  String, leb, ◌==◌, ℤ, length, if◌then◌else◌,
}
use streamsight_agent.Collector.GoError.{GoErrors}
use streamsight_agent.Collector.Section.{Section, skipped, downgrade}
use streamsight_agent.Collector.Request.{request}
use streamsight_agent.Collector.Wire.{Partition, TopicMetrics, Reassignment}

abbrev pub max_reassign_partitions : ℕ
max_reassign_partitions = 1000

-- A partition whose metadata failed has no replicas, and does not count.
abbrev pub lacks_replicas : Partition → Bool
lacks_replicas p = not (length p.replicas == 0 || leb (length p.replicas) (length p.isr))

-- The inner loop over the partitions of one topic, on the set and the count so far; the Boolean is the
-- early return at the cap.
unfoldable pub ask_partitions :
    String → List Partition → List (String × ℤ) → ℕ → List (String × ℤ) × ℕ × Bool
ask_partitions name [] asked n = (asked, n, false)
ask_partitions name (p ∷ ps) asked n =
    let skip = ask_partitions name ps asked n in
    let keep = ask_partitions name ps (asked ++ (name, p.id) ∷ []) (n + 1) in
    if not (lacks_replicas p)
    then skip
    else (if leb max_reassign_partitions n then (asked, n, true) else keep)

unfoldable pub ask_topics : List TopicMetrics → List (String × ℤ) → ℕ → List (String × ℤ) × Bool
unfolding ask_partitions
ask_topics [] asked n = (asked, false)
ask_topics (t ∷ ts) asked n =
    let (asked', n', full) = ask_partitions t.name t.partitions asked n in
    let rest = ask_topics ts asked' n' in if full then (asked', true) else rest

-- `underReplicated`, with whether the cap cut it short.
unfoldable pub under_replicated : List TopicMetrics → List (String × ℤ) × Bool
unfolding ask_topics
under_replicated topics = ask_topics topics [] 0

-- A row of the controller's sorted answer; a nil list of replicas is the empty one.
unfoldable pub build_reassignments : List Reassignment → List Reassignment
build_reassignments [] = []
build_reassignments (r ∷ rs) =
    let rest = build_reassignments rs in
    if length r.adding_replicas == 0 && length r.removing_replicas == 0 then rest else r ∷ rest

module _ (G : GoErrors) where
  open G use {GoError}

  -- `collectReassignments` on a fresh section: the controller's answer is a function of the question,
  -- and the first component of the result is what was asked, if anything was.
  unfoldable pub collect_reassignments :
      (List (String × ℤ) → List Reassignment × Option GoError)
      → Section
      → List TopicMetrics
      → Bool
      → Option (List (String × ℤ)) × List Reassignment × Section
  unfolding under_replicated build_reassignments request downgrade
  collect_reassignments controller sec topics run =
      if not run
      then (none, [], downgrade sec skipped)
      else (let (set, cut) = under_replicated topics in
          let sec' : Section = record sec { truncated = cut } in
          if length set == 0
          then (none, [], downgrade sec' skipped)
          else (let (listed, err) = controller set in
              let (sec'', went) = request G sec' "ListPartitionReassignments" err in
              if not went
              then (some set, [], sec'')
              else (some set, build_reassignments listed, sec'')))
