-- ===== src/Collector/Phases/Progress.antt =====
-- A cycle ends: no interleaving goes on for ever, none gets stuck, and it returns with every phase over.
use streamsight_agent.Base.{
  ℕ, zero, suc, ◌+◌, ◌≤◌, ◌<◌, ◌≡◌, ◌⊎◌, Bool, true, ◌&&◌, some, List, [], ◌∷◌, ltb, ◌==◌,
  get_elem?, length, All, take, if◌then◌else◌,
}
use streamsight_agent.Collector.Phases.{
  Action, await, await_or_done, close, send, receive, wg_done, wg_wait, report, program, State,
  closer, is_enabled, has_finished, added, collect,
}

-- No goroutine is past its end.
abbrev pub WithinPrograms : State → Type 0
WithinPrograms s = (g : ℕ) → s.pos g ≤ length (program g)

-- The actions done, over the first `k` goroutines.
abbrev pub done_in : ℕ → (ℕ → ℕ) → ℕ
done_in zero pos = 0
done_in (suc k) pos = done_in k pos + pos k

abbrev expiries : State → ℕ
expiries s = if s.expired then 1 else 0

-- Every wait is for a channel that an earlier goroutine closes.
abbrev waits_before : ℕ → List Action → Bool
waits_before g [] = true
waits_before g (await c ∷ as') = ltb (closer c).0 g && waits_before g as'
waits_before g (await_or_done c ∷ as') = ltb (closer c).0 g && waits_before g as'
waits_before g (close c ∷ as') = waits_before g as'
waits_before g (send r ∷ as') = waits_before g as'
waits_before g (receive r ∷ as') = waits_before g as'
waits_before g (wg_done ∷ as') = waits_before g as'
waits_before g (wg_wait ∷ as') = g == collect && waits_before g as'
waits_before g (report ∷ as') = waits_before g as'

abbrev all_wait_before : ℕ → List (List Action) → Bool
all_wait_before g [] = true
all_wait_before g (p ∷ ps) = waits_before g p && all_wait_before (suc g) ps

-- What the check says of one action.
abbrev WaitIsFor : ℕ → Action → Type 0
WaitIsFor g (await c) = (closer c).0 < g
WaitIsFor g (await_or_done c) = (closer c).0 < g
WaitIsFor g wg_wait = g ≡ collect
WaitIsFor g (close c) = Unit
WaitIsFor g (send r) = Unit
WaitIsFor g (receive r) = Unit
WaitIsFor g wg_done = Unit
WaitIsFor g report = Unit

-- All the goroutines before one are over.
abbrev OverBefore : State → ℕ → Type 0
OverBefore s k = (h : ℕ) → h < k → s.pos h ≡ length (program h)

-- The calls of `wg.Done` in a piece of a program.
abbrev is_done : Action → ℕ
is_done wg_done = 1
is_done (await c) = 0
is_done (await_or_done c) = 0
is_done (close c) = 0
is_done (send r) = 0
is_done (receive r) = 0
is_done wg_wait = 0
is_done report = 0

abbrev dones : List Action → ℕ
dones [] = 0
dones (a ∷ p) = is_done a + dones p

-- Those that the first `k` goroutines have made, and those that they make in all.
abbrev made : ℕ → (ℕ → ℕ) → ℕ
made zero pos = 0
made (suc k) pos = made k pos + dones (take (pos k) (program k))

abbrev to_make : ℕ → ℕ
to_make zero = 0
to_make (suc k) = to_make k + dones (program k)

-- The counter and the calls that were made add up to what `wg.Add` was given.
abbrev Counts : State → Type 0
Counts s = s.running + made 13 s.pos ≡ added

-- Some goroutine has an action that it can do.
abbrev pub CanAct : State → Type 0
CanAct s =
    (g : ℕ) × (a : Action) × (get_elem? (program g) (s.pos g) ≡ some a) × (is_enabled s a ≡ true)

-- The caller goes on only after the wait.
abbrev Joined : State → Type 0
Joined s = 0 < s.pos collect → s.running ≡ 0

-- The goroutines other than the caller.
abbrev pub phases : List ℕ
phases = 0 ∷ 1 ∷ 2 ∷ 3 ∷ 4 ∷ 5 ∷ 6 ∷ 7 ∷ 8 ∷ 9 ∷ 10 ∷ 11 ∷ []

-- The caller still waits, or the counter of the WaitGroup is at 0 and every other goroutine is over.
abbrev pub ReturnsJoined : State → Type 0
ReturnsJoined s =
    (s.pos collect ≡ 0) ⊎ ((s.running ≡ 0) × All (λ h. has_finished s h ≡ true) phases)
