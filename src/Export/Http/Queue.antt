-- ===== src/Export/Http/Queue.antt =====
-- The bounded queue of the HTTP exporter.
use streamsight_agent.Base.{
  ℕ, zero, suc, ◌+◌, ◌≤◌, ◌<◌, ◌≡◌, refl, sym, ◌∙◌, ap, ◌⊎◌, inl, inr, true, false, Option, none,
  List, [], ◌∷◌, ◌++◌, arith, length, length-append, drop, Bool-cases, zero-add, suc-add, subst,
}
use streamsight_agent.Export.Counters.{drop_batch}
use streamsight_agent.Export.Http.{
  HttpExporter, Queued, ExportError, queue_full, has_room, push, taken, evict, push_or_drop,
  enqueue,
}

module _ {B : Type 0} where
  -- The queue fits its channel, which has room for one entry at least.
  abbrev pub IsBounded : HttpExporter B → Type 0
  IsBounded e = (0 < e.queue_size) × (length e.queue ≤ e.queue_size)

  length-drop_le : (n : ℕ) (xs : List (Queued B)) → length (drop n xs) ≤ length xs
  length-drop_le zero xs = omega arith
  length-drop_le (suc n) [] = omega arith
  length-drop_le (suc n) (x ∷ xs) = omega (arith, length-drop_le n xs)

  drop-nil : (m : ℕ) → drop {A = Queued B} m [] ≡ []
  drop-nil zero = refl
  drop-nil (suc m) = refl

  drop-drop : (m n : ℕ) (xs : List (Queued B)) → drop m (drop n xs) ≡ drop (n + m) xs
  drop-drop m zero xs = rw zero-add
  drop-drop m (suc n) [] = drop-nil m ∙ sym (drop-nil (suc n + m))
  drop-drop m (suc n) (x ∷ xs) = rw suc-add (drop-drop m n xs)

  -- An eviction drops one entry at most, and leaves room in a queue that fitted.
  abbrev Evicted : HttpExporter B → HttpExporter B → Type 0
  Evicted e e' =
      ((j : ℕ) × (e'.queue ≡ drop j e.queue))
      × (length e'.queue < e.queue_size)
      × (e'.queue_size ≡ e.queue_size)
      × ((e'.counters ≡ e.counters) ⊎ (e'.counters ≡ drop_batch e.counters queue_full))

  evict-Evicted :
      (e : HttpExporter B) (q : List (Queued B)) → e.queue ≡ q → IsBounded e → Evicted e (evict e)
  unfolding evict
  evict-Evicted e [] h v = rw (h, evict) ((0, h), ground arith, refl, inl refl)
  evict-Evicted e (stale ∷ rest) h v = rw (h, evict) ((1, refl), ground arith, refl, inr refl)

  -- A worker that takes entries keeps the queue bounded.
  taken-IsBounded : (e : HttpExporter B) (n : ℕ) → IsBounded e → IsBounded (taken e n)
  taken-IsBounded e n v = (v.0, omega (arith, v.1, length-drop_le n e.queue))

  -- A batch that is accepted stands at the end of the queue, behind the entries that are left in their
  -- order; one entry at most was dropped for it.
  abbrev pub Accepts : HttpExporter B → Queued B → HttpExporter B × Option ExportError → Type 0
  Accepts e q r =
      (r.1 ≡ none)
      × ((k : ℕ) × (r.0.queue ≡ drop k e.queue ++ q ∷ []))
      × (length r.0.queue ≤ e.queue_size)
      × ((r.0.counters ≡ e.counters) ⊎ (r.0.counters ≡ drop_batch e.counters queue_full))

  push_or_drop-room :
      (e : HttpExporter B) (q : Queued B)
      → length e.queue < e.queue_size
      → push_or_drop e q ≡ (push e q, none)
  unfolding push_or_drop
  push_or_drop-room e q lt = ground arith

  make_room :
      (e e' : HttpExporter B) (q : Queued B) (n m : ℕ)
      → Evicted (taken e n) e'
      → Accepts e q (push_or_drop (taken e' m) q)
  make_room e e' q n m ((j, from), lt, size, counts) =
      rw (push_or_drop-room (taken e' m) q (omega (arith, length-drop_le m e'.queue))) (
        refl,
        (
          n + j + m,
          ap (λ (xs : List (Queued B)). xs ++ q ∷ [])
              (ap (drop m) (from ∙ drop-drop j n e.queue) ∙ drop-drop m (n + j) e.queue),
        ),
        omega (arith, length-append (drop m e'.queue) (q ∷ []), length-drop_le m e'.queue),
        counts,
      )

  enqueue_room :
      (e : HttpExporter B) (q : Queued B) (n m : ℕ)
      → e.closed ≡ false
      → has_room e ≡ true
      → enqueue e q n m ≡ (push e q, none)
  unfolding enqueue
  enqueue_room e q n m o room = ground arith

  enqueue_no_room :
      (e : HttpExporter B) (q : Queued B) (n m : ℕ)
      → e.closed ≡ false
      → has_room e ≡ false
      → enqueue e q n m ≡ push_or_drop (taken (evict (taken e n)) m) q
  unfolding enqueue
  enqueue_no_room e q n m o full = ground arith

  -- However the worker takes entries between its steps, `Export` on an open exporter whose queue is
  -- within a bound of at least one accepts the batch: the third select never fails, the queue keeps
  -- its bound, and the entries that make room for the newest are the oldest ones.
  pub enqueue-Accepts :
      (e : HttpExporter B) (q : Queued B) (n m : ℕ)
      → IsBounded e
      → e.closed ≡ false
      → Accepts e q (enqueue e q n m)
  enqueue-Accepts e q n m v o = elim (Bool-cases (has_room e)) [
    | inl room ↦
        subst (Accepts e q) (sym (enqueue_room e q n m o room))
          (refl, (0, refl), ground (arith, length-append e.queue (q ∷ [])), inl refl)
    | inr full ↦ subst (Accepts e q) (sym (enqueue_no_room e q n m o full)) (
        make_room e (evict (taken e n)) q n m
          (evict-Evicted (taken e n) (drop n e.queue) refl (taken-IsBounded e n v)))
  ]

  -- On an open exporter with a full queue that the worker leaves alone, exactly the oldest entry
  -- goes, and it is counted.
  enqueue-full :
      (e : HttpExporter B) (old : Queued B) (rest : List (Queued B)) (q : Queued B)
      → e.closed ≡ false
      → e.queue ≡ old ∷ rest
      → length e.queue ≡ e.queue_size
      → ((enqueue e q 0 0).0.queue ≡ rest ++ q ∷ [])
        × ((enqueue e q 0 0).0.counters ≡ drop_batch e.counters queue_full)
        × ((enqueue e q 0 0).1 ≡ none)
  unfolding enqueue evict push_or_drop
  enqueue-full e old rest q o h full = ground arith
