-- ===== src/Export/Http/Retry.antt =====
-- What becomes of one batch in the HTTP exporter's worker.
use native.Mathlib.Numerals.{add-one}
use streamsight_agent.Base.{
  ℕ, zero, suc, ◌+◌, ◌%◌, ◌^◌, ◌≤◌, ◌<◌, ◌≡◌, refl, sym, ◌∙◌, ap, ◌⊎◌, inl, inr, true, false,
  Option, none, some, List, [], ◌∷◌, arith, length, ◌==◌, Bool-cases, Option-cases, if◌then◌else◌,
  ℤ, pos, subst,
}
use streamsight_agent.Export.Counters.{Counters, inc, drop_batch, record_err}
use streamsight_agent.Export.Http.{
  HttpExporter, Queued, ExportError, Sent, send_error, is_terminal, Surroundings, Outcome, delay_of,
  retry_after_of, before_retry, attempts, conclude, or_abandon, sent_once, send_with_retry, drain,
  close,
}

-- Of the three final counters only `exported` moves, and some attempt below `n` was delivered.
abbrev pub Delivered : Surroundings → ℕ → Counters ExportError → Counters ExportError → Type 0
Delivered w n c c' =
    (c'.exported ≡ inc c.exported)
    × (c'.dropped ≡ c.dropped)
    × (c'.rejected ≡ c.rejected)
    × ((j : ℕ) × (j < n) × (send_error (w.send j) ≡ none))

-- Only `rejected` moves, and some attempt below `n` met an error that no retry can mend.
abbrev pub Rejected : Surroundings → ℕ → Counters ExportError → Counters ExportError → Type 0
Rejected w n c c' =
    (c'.rejected ≡ inc c.rejected)
    × (c'.exported ≡ c.exported)
    × (c'.dropped ≡ c.dropped)
    × ((j : ℕ) × (j < n) × (is_terminal (w.send j) ≡ true))

-- Only `dropped` moves.
abbrev pub Dropped : Counters ExportError → Counters ExportError → Type 0
Dropped c c' =
    (c'.dropped ≡ inc c.dropped) × (c'.exported ≡ c.exported) × (c'.rejected ≡ c.rejected)

abbrev pub Settled : Surroundings → ℕ → Counters ExportError → Counters ExportError → Type 0
Settled w n c c' = Delivered w n c c' ⊎ Rejected w n c c' ⊎ Dropped c c'

-- Nothing but the retries and the waiting has moved.
abbrev Waiting : Outcome → Outcome → Type 0
Waiting o o' =
    (o'.counters.exported ≡ o.counters.exported)
    × (o'.counters.dropped ≡ o.counters.dropped)
    × (o'.counters.rejected ≡ o.counters.rejected)
    × (o'.sends ≡ o.sends)

Settled-Waiting :
    (w : Surroundings) (n : ℕ) (o p : Outcome) (c : Counters ExportError)
    → Waiting o p
    → Settled w n p.counters c
    → Settled w n o.counters c
Settled-Waiting w n o p c (e, d, r, _) (inl (a, b, c', j)) = inl (a ∙ ap inc e, b ∙ d, c' ∙ r, j)
Settled-Waiting w n o p c (e, d, r, _) (inr (inl (a, b, c', j))) =
    inr (inl (a ∙ ap inc r, b ∙ e, c' ∙ d, j))
Settled-Waiting w n o p c (e, d, r, _) (inr (inr (a, b, c'))) =
    inr (inr (a ∙ ap inc d, b ∙ e, c' ∙ r))

record_err_lem :
    (c : Counters ExportError) (e : Option ExportError)
    → ((record_err c e).exported ≡ c.exported)
      × ((record_err c e).dropped ≡ c.dropped)
      × ((record_err c e).rejected ≡ c.rejected)
unfolding record_err
record_err_lem c none = (refl, refl, refl)
record_err_lem c (some e) = (refl, refl, refl)

-- Settled, and by at most `k` further requests.
abbrev SettledIn : Surroundings → ℕ → ℕ → Outcome → Outcome → Type 0
SettledIn w n k o r = Settled w n o.counters r.counters × (r.sends ≤ o.sends + k)

conclude-SettledIn :
    (w : Surroundings) (n k j : ℕ) (p rest : Outcome)
    → j < n
    → SettledIn w n k p rest
    → SettledIn w n k p (conclude (w.send j) p rest)
unfolding conclude record_err
conclude-SettledIn w n k j p rest lt h = elim (Option-cases (send_error (w.send j))) [
  | inl fine ↦ rw (fine, conclude) (inl (refl, refl, refl, (j, lt, fine)), omega arith)
  | inr (err, e) ↦
      rw (e, conclude)
        (elim (Bool-cases (is_terminal (w.send j))) [
          | inl final ↦ rw final (inr (inl (refl, refl, refl, (j, lt, final))), omega arith)
          | inr again ↦ rw again h
        ])
]

or_abandon-SettledIn :
    (w : Surroundings) (n k : ℕ) (o p : Outcome) (abandoned : Option ExportError) (next : Outcome)
    → Waiting o p
    → SettledIn w n k (sent_once p) next
    → SettledIn w n (suc k) o (or_abandon p abandoned next)
unfolding or_abandon drop_batch
or_abandon-SettledIn w n k o p none next same (h, sends) =
    (Settled-Waiting w n o p next.counters same h, omega arith)
or_abandon-SettledIn w n k o p (some e) next same h = (
  Settled-Waiting w n o p (drop_batch p.counters e) same (inr (inr (refl, refl, refl))),
  omega arith,
)

module _ (base_delay deadline : ℕ) (w : Surroundings) where
  first_or_retry : ℕ → ℤ → Outcome → Outcome × Option ExportError
  first_or_retry attempt retry_after o =
      if attempt == 0 then (o, none) else before_retry base_delay deadline w attempt retry_after o

  first_or_retry-Waiting :
      (attempt : ℕ) (retry_after : ℤ) (o : Outcome)
      → Waiting o (first_or_retry attempt retry_after o).0
  unfolding first_or_retry before_retry
  first_or_retry-Waiting attempt retry_after o = ground arith

  attempts-step :
      (rounds attempt : ℕ) (last_err : Option ExportError) (retry_after : ℤ) (o : Outcome)
      → let pre = first_or_retry attempt retry_after o in
        attempts base_delay deadline w (suc rounds) attempt last_err retry_after o
        ≡ or_abandon pre.0 pre.1 (
            conclude (w.send attempt) (sent_once pre.0) (
              attempts base_delay deadline w rounds
                (attempt + 1)
                (send_error (w.send attempt))
                (retry_after_of (w.send attempt))
                (sent_once pre.0)))
  unfolding attempts first_or_retry
  attempts-step rounds attempt last_err retry_after o = refl

  attempts-SettledIn :
      (n rounds attempt : ℕ) (last_err : Option ExportError) (retry_after : ℤ) (o : Outcome)
      → attempt + rounds ≤ n
      → SettledIn w n rounds o
          (attempts base_delay deadline w rounds attempt last_err retry_after o)
  attempts-SettledIn n zero attempt last_err retry_after o le =
      unfold attempts in
      (let same =
          record_err_lem (record o.counters { dropped = inc o.counters.dropped }) last_err in
        (inr (inr (same.1, same.0, same.2)), omega arith))
  attempts-SettledIn n (suc rounds) attempt last_err retry_after o le =
      let pre = first_or_retry attempt retry_after o in
      let p = sent_once pre.0 in
      subst (SettledIn w n (suc rounds) o)
        (sym (attempts-step rounds attempt last_err retry_after o))
        (or_abandon-SettledIn w n rounds o pre.0 pre.1 _
          (first_or_retry-Waiting attempt retry_after o)
          (conclude-SettledIn w n rounds attempt p _ (omega arith) (
            attempts-SettledIn n rounds (attempt + 1) (send_error (w.send attempt))
              (retry_after_of (w.send attempt)) p (omega arith))))

-- Every batch that the worker takes is settled exactly once: counted as exported, and then some
-- attempt was delivered; or as rejected, and then some attempt met a response that no retry can mend;
-- or as dropped. It takes one request and one more for each retry that is configured, at most.
pub send_with_retry-Settled :
    {B : Type 0} (e : HttpExporter B) (start : ℕ) (w : Surroundings)
    → Settled w (suc e.max_retries) e.counters (send_with_retry e start w).counters
      × ((send_with_retry e start w).sends ≤ suc e.max_retries)
unfolding send_with_retry
send_with_retry-Settled e start w =
    let (settled, sends) =
      attempts-SettledIn e.base_delay (start + e.retry_budget) w (suc e.max_retries)
        (suc e.max_retries) 0 none (pos 0) (record { counters = e.counters; sends = 0; waited = 0 })
        (omega arith) in
    (settled, omega arith)

-- The batches that the counters account for, as the wrapping counters add up.
abbrev pub tally : Counters ExportError → ℕ
tally c = (c.exported + c.dropped + c.rejected) % 2 ^ 64

tally-Settled :
    (w : Surroundings) (n : ℕ) (c c' : Counters ExportError)
    → Settled w n c c'
    → tally c' ≡ (tally c + 1) % 2 ^ 64
unfolding inc
tally-Settled w n c c' (inl (a, b, d, _)) = omega arith
tally-Settled w n c c' (inr (inl (a, b, d, _))) = omega arith
tally-Settled w n c c' (inr (inr (a, b, d))) = omega arith

module _ {B : Type 0} (start : ℕ → ℕ) (w : ℕ → Surroundings) where
  drain_lem :
      (e : HttpExporter B) (queue : List (Queued B))
      → ((drain e start w queue).queue ≡ [])
        × (tally (drain e start w queue).counters ≡ (tally e.counters + length queue) % 2 ^ 64)
        × ((drain e start w queue).closed ≡ e.closed)
  unfolding drain
  drain_lem e [] = (refl, omega arith, refl)
  drain_lem e (q ∷ queue) =
      let o = send_with_retry e (start q.seq) (w q.seq) in
      let (empty, sum, closed) = drain_lem (record e { counters = o.counters }) queue in
      (
        empty,
        omega (
          arith,
          sum,
          tally-Settled (w q.seq) (suc e.max_retries) e.counters o.counters
              (send_with_retry-Settled e (start q.seq) (w q.seq)).0,
        ),
        closed,
      )

  -- A close of an open exporter that is not cut short leaves nothing in the queue: every batch that
  -- was in it has been exported, rejected or dropped, as the counters say, modulo 2^64.
  pub close-tally :
      (e : HttpExporter B)
      → e.closed ≡ false
      → ((close e start w).queue ≡ [])
        × ((close e start w).closed ≡ true)
        × (tally (close e start w).counters ≡ (tally e.counters + length e.queue) % 2 ^ 64)
  unfolding close
  close-tally e o =
      let (empty, sum, closed) = drain_lem (record e { closed = true }) e.queue in
      ground (arith, empty, sum, closed)

module _ (base_delay start budget : ℕ) (w : Surroundings) where
  conclude-waited :
      (sent : Sent) (p rest : Outcome)
      → p.waited ≤ budget
      → rest.waited ≤ budget
      → (conclude sent p rest).waited ≤ budget
  unfolding conclude
  conclude-waited sent p rest h k = ground arith

  or_abandon-waited :
      (p : Outcome) (abandoned : Option ExportError) (next : Outcome)
      → p.waited ≤ budget
      → (abandoned ≡ none → next.waited ≤ budget)
      → (or_abandon p abandoned next).waited ≤ budget
  unfolding or_abandon
  or_abandon-waited p none next h k = k refl
  or_abandon-waited p (some e) next h k = h

  before_retry-waited :
      (i : ℕ) (retry_after : ℤ) (o : Outcome)
      → start + o.waited ≤ w.clock (suc i)
      → o.waited ≤ budget
      → let pre = before_retry base_delay (start + budget) w (suc i) retry_after o in
        (pre.0.waited ≤ budget)
        × (pre.1 ≡ none
            → start + pre.0.waited ≤ w.clock (suc i) + delay_of base_delay w (suc i) retry_after)
  unfolding before_retry
  before_retry-waited i retry_after o late h = ground arith

-- The clock of the surroundings covers the waits: it does not run back before the first retry, and
-- before each later one it has advanced by the delay of the retry before.
abbrev pub ClockAdvances : ℕ → ℕ → Surroundings → Type 0
ClockAdvances base_delay start w =
    (start ≤ w.clock 1)
    × ((i : ℕ)
        → w.clock (suc i) + delay_of base_delay w (suc i) (retry_after_of (w.send i))
          ≤ w.clock (suc (suc i)))

module _ (base_delay start budget : ℕ) (w : Surroundings)
    (advances : ClockAdvances base_delay start w) where
  attempts_retry :
      (rounds i : ℕ) (last_err : Option ExportError) (ra : ℤ) (o : Outcome)
      → let pre = before_retry base_delay (start + budget) w (suc i) ra o in
        attempts base_delay (start + budget) w (suc rounds) (suc i) last_err ra o
        ≡ or_abandon pre.0 pre.1 (
            conclude (w.send (suc i)) (sent_once pre.0) (
              attempts base_delay
                (start + budget)
                w
                rounds
                (suc (suc i))
                (send_error (w.send (suc i)))
                (retry_after_of (w.send (suc i)))
                (sent_once pre.0)))
  unfolding attempts
  attempts_retry rounds i last_err ra o =
      let later : (suc i == 0) ≡ false = ground arith in rw (add-one (suc i), later)

  attempts-waited :
      (rounds i : ℕ) (last_err : Option ExportError) (o : Outcome)
      → start + o.waited ≤ w.clock (suc i)
      → o.waited ≤ budget
      → (attempts base_delay
          (start + budget)
          w
          rounds
          (suc i)
          last_err
          (retry_after_of (w.send i))
          o).waited
        ≤ budget
  attempts-waited zero i last_err o late h = unfold attempts in h
  attempts-waited (suc rounds) i last_err o late h =
      let ra = retry_after_of (w.send i) in
      let pre = before_retry base_delay (start + budget) w (suc i) ra o in
      let next =
        attempts base_delay (start + budget) w rounds (suc (suc i)) (send_error (w.send (suc i)))
          (retry_after_of (w.send (suc i))) (sent_once pre.0) in
      let before = before_retry-waited base_delay start budget w i ra o late h in
      subst (λ r. r.waited ≤ budget) (sym (attempts_retry rounds i last_err ra o))
        (or_abandon-waited base_delay start budget w pre.0 pre.1
          (conclude (w.send (suc i)) (sent_once pre.0) next) before.0
          (λ go.
            conclude-waited base_delay start budget w (w.send (suc i)) (sent_once pre.0) next
              before.0
              (attempts-waited rounds (suc i) (send_error (w.send (suc i))) (sent_once pre.0)
                (omega (arith, before.1 go, advances.1 i)) before.0)))

-- On a clock that advances by at least each delay between two attempts, the retries of one batch
-- wait no longer in all than the retry budget, whatever the server asks for.
send_with_retry-waited :
    {B : Type 0} (e : HttpExporter B) (start : ℕ) (w : Surroundings)
    → ClockAdvances e.base_delay start w
    → (send_with_retry e start w).waited ≤ e.retry_budget
unfolding send_with_retry first_or_retry or_abandon
send_with_retry-waited e start w advances =
    let o : Outcome = record { counters = e.counters; sends = 0; waited = 0 } in
    subst (λ r. r.waited ≤ e.retry_budget)
      (sym (attempts-step e.base_delay (start + e.retry_budget) w e.max_retries 0 none (pos 0) o))
      (conclude-waited e.base_delay start e.retry_budget w (w.send 0) (sent_once o)
        (attempts e.base_delay (start + e.retry_budget) w e.max_retries (0 + 1)
          (send_error (w.send 0)) (retry_after_of (w.send 0)) (sent_once o))
        (omega arith)
        (attempts-waited e.base_delay start e.retry_budget w advances e.max_retries 0
          (send_error (w.send 0)) (sent_once o) (omega (arith, advances.0)) (omega arith)))
