-- ===== src/Collector/Phases.antt =====
-- internal/collector/collector.go: the goroutines of one `Collect` and the channels between them, each
-- goroutine as the list of its visible actions. A request is two actions, so that another goroutine
-- can run while it is under way; that it returns is the client's part. A deferred close runs before the
-- deferred `wg.Done` of its goroutine. The caller is the goroutine `collect`.
pub mod Order
pub mod Progress
use streamsight_agent.Base.{
  ℕ, zero, suc, ◌+◌, ◌-◌, ◌<◌, ◌≡◌, ◌⊎◌, Bool, true, false, ◌&&◌, ◌||◌, Option, none, some, List,
  [], ◌∷◌, ltb, ◌==◌, get_elem?, length, if◌then◌else◌,
}

-- The channels, which are only ever closed.
pub data Chan : Type 0 where
  meta_done groups_listed window_done committed_done end_done : Chan

pub data Request : Type 0 where
  metadata list_groups describe_groups fetch_offsets list_after_milli : Request
  list_start list_committed list_end : Request
  list_max_timestamp list_local_start list_latest_remote : Request
  describe_log_dirs describe_share_groups : Request
  describe_topic_configs describe_broker_configs list_reassignments offset_for_leader_epoch :
      Request

-- `receive` on a channel, the `select` of a channel and the context, the two ends of a request, `close`,
-- `wg.Done`, `wg.Wait` and the caller's work after it. A request of a phase that does not run is
-- neither sent nor received, which orders nothing. Requests that one phase sends in a row, with nothing
-- in between that waits, are one.
pub data Action : Type 0 where
  await await_or_done close : Chan → Action
  send receive : Request → Action
  wg_done wg_wait report : Action

-- The goroutines, in the order in which `Collect` starts them, and the caller last.
abbrev pub cluster_phase : ℕ
cluster_phase = 0

abbrev pub list_phase : ℕ
list_phase = 1

abbrev pub groups_phase : ℕ
groups_phase = 2

abbrev pub offsets_phase : ℕ
offsets_phase = 3

abbrev pub window_phase : ℕ
window_phase = 4

abbrev pub topics_phase : ℕ
topics_phase = 5

abbrev pub log_dirs_phase : ℕ
log_dirs_phase = 6

abbrev pub collect : ℕ
collect = 12

abbrev pub programs : List (List Action)
programs =
    (send metadata ∷ receive metadata ∷ close meta_done ∷ wg_done ∷ [])
    ∷ (send list_groups ∷ receive list_groups ∷ close groups_listed ∷ [])
    ∷ (await groups_listed ∷ send describe_groups ∷ receive describe_groups ∷ wg_done ∷ [])
    ∷ (await meta_done
        ∷ await groups_listed
        ∷ send fetch_offsets
        ∷ receive fetch_offsets
        ∷ close committed_done
        ∷ wg_done
        ∷ [])
    ∷ (await meta_done
        ∷ send list_after_milli
        ∷ receive list_after_milli
        ∷ close window_done
        ∷ wg_done
        ∷ [])
    ∷ (await meta_done
        ∷ send list_start
        ∷ receive list_start
        ∷ await_or_done committed_done
        ∷ await_or_done window_done
        ∷ send list_committed
        ∷ receive list_committed
        ∷ send list_end
        ∷ receive list_end
        ∷ send list_max_timestamp
        ∷ receive list_max_timestamp
        ∷ send list_local_start
        ∷ receive list_local_start
        ∷ send list_latest_remote
        ∷ receive list_latest_remote
        ∷ close end_done
        ∷ wg_done
        ∷ [])
    ∷ (await meta_done
        ∷ await end_done
        ∷ send describe_log_dirs
        ∷ receive describe_log_dirs
        ∷ wg_done
        ∷ [])
    ∷ (await groups_listed
        ∷ send describe_share_groups
        ∷ receive describe_share_groups
        ∷ wg_done
        ∷ [])
    ∷ (await end_done ∷ send describe_topic_configs ∷ receive describe_topic_configs ∷ wg_done ∷ [])
    ∷ (await meta_done
        ∷ await end_done
        ∷ send describe_broker_configs
        ∷ receive describe_broker_configs
        ∷ wg_done
        ∷ [])
    ∷ (await end_done ∷ send list_reassignments ∷ receive list_reassignments ∷ wg_done ∷ [])
    ∷ (await committed_done
        ∷ await end_done
        ∷ send offset_for_leader_epoch
        ∷ receive offset_for_leader_epoch
        ∷ wg_done
        ∷ [])
    ∷ (wg_wait ∷ report ∷ [])
    ∷ []

abbrev or_nil : Option (List Action) → List Action
or_nil none = []
or_nil (some p) = p

abbrev pub program : ℕ → List Action
program g = or_nil (get_elem? programs g)

-- How far each goroutine is, whether the context is done, whether the topics phase is of the cycles in
-- which it returns early, the counter of the WaitGroup, and the sends that neither forestalled, each as its
-- goroutine and its place there. A topics phase that returns early, because there are no topics,
-- passes over its requests and its waits: they neither send nor wait.
pub record State : Type 0 where
  pub pos : ℕ → ℕ
  pub expired : Bool
  pub early : Bool
  pub running : ℕ
  pub sent : List (ℕ × ℕ)

-- `wg.Add(11)`.
abbrev pub added : ℕ
added = 11

abbrev pub start : Bool → State
start early = record { pos = λ g. 0; expired = false; early = early; running = added; sent = [] }

-- Where a channel is closed: by which goroutine, and at which place.
abbrev pub closer : Chan → ℕ × ℕ
closer meta_done = (0, 2)
closer groups_listed = (1, 2)
closer committed_done = (3, 4)
closer window_done = (4, 3)
closer end_done = (5, 15)

abbrev pub is_closed : State → Chan → Bool
is_closed s c = ltb (closer c).1 (s.pos (closer c).0)

abbrev pub has_finished : State → ℕ → Bool
has_finished s g = s.pos g == length (program g)

-- Whether an action can be done: everything but the waiting can, and a `wg.Done` that finds the counter
-- at 0, which panics.
unfoldable pub is_enabled : State → Action → Bool
is_enabled s (await c) = is_closed s c
is_enabled s (await_or_done c) = is_closed s c || (s.expired || s.early)
is_enabled s wg_wait = s.running == 0
is_enabled s (close c) = true
is_enabled s (send r) = true
is_enabled s (receive r) = true
is_enabled s wg_done = ltb 0 s.running
is_enabled s report = true

abbrev pub advance : (ℕ → ℕ) → ℕ → ℕ → ℕ
advance pos g h = if h == g then suc (pos g) else pos h

-- `wg.Done` takes one from the counter.
unfoldable pub count_down : State → Action → ℕ
count_down s wg_done = s.running - 1
count_down s (await c) = s.running
count_down s (await_or_done c) = s.running
count_down s (close c) = s.running
count_down s (send r) = s.running
count_down s (receive r) = s.running
count_down s wg_wait = s.running
count_down s report = s.running

abbrev pub passes_over : State → ℕ → Bool
passes_over s g = s.early && g == topics_phase

-- A send on a context that is done fails, and samples nothing; one that is passed over is no send.
unfoldable pub note_send : State → ℕ → Action → List (ℕ × ℕ)
note_send s g (send r) = if s.expired || passes_over s g then s.sent else (g, s.pos g) ∷ s.sent
note_send s g (await c) = s.sent
note_send s g (await_or_done c) = s.sent
note_send s g (close c) = s.sent
note_send s g (receive r) = s.sent
note_send s g wg_done = s.sent
note_send s g wg_wait = s.sent
note_send s g report = s.sent

abbrev pub after : State → ℕ → Action → State
after s g a = record s { pos = advance s.pos g; running = count_down s a; sent = note_send s g a }

-- One goroutine does its next action, or the context expires.
pub data Step (s : State) : State → Type 0 where
  act :
      (g : ℕ) (a : Action)
      → get_elem? (program g) (s.pos g) ≡ some a
      → is_enabled s a ≡ true
      → Step s (after s g a)
  expire : s.expired ≡ false → Step s (record s { expired = true })

-- The states that a cycle reaches, with the number of steps.
pub data Reach : ℕ → State → Type 0 where
  begin : {early : Bool} → Reach 0 (start early)
  later : {n : ℕ} {s t : State} → Reach n s → Step s t → Reach (suc n) t
