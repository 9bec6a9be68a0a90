-- ===== src/WQueue/Order.antt =====
-- Runs of a wqueue under any schedule: first in, first out, and never longer than its bound.
use mathlib.Core.List.{append_assoc}
use network_simulation.Common.{
  ℕ, ◌+◌, ◌-◌, ◌≤◌, ◌<◌, ◌≡◌, refl, none, some, List, [], ◌∷◌, ◌++◌, ok, if◌then◌else◌, leb, length,
  length-append, arith,
}
use network_simulation.WQueue.{WQueue, new_wqueue, set_max_size, add, remove, resume}

module _ {ℓ} {A : Type ℓ} where
  -- `k` threads call `remove`, each one call at a time, and any thread calls `add`: `Trace k n ins outs q`
  -- leads from a new queue of bound `n` to `q`, has accepted `ins` and has handed out `outs`.
  pub data Trace (k n : ℕ) : List A → List A → WQueue A → Type ℓ where
    start : Trace k n [] [] (set_max_size n new_wqueue)
    adds :
        {ins outs : List A} {q : WQueue A} (x : A)
        → Trace k n ins outs q
        → Trace k n
            (if leb q.max_entries (length q.m_queue) then ins else ins ++ x ∷ [])
            outs
            (add x q)
    -- `wait` may return for no reason.
    wakes :
        {ins outs : List A} {q : WQueue A}
        → Trace k n ins outs q
        → 0 < q.waiting
        → Trace k n ins outs (record q { waiting = q.waiting - 1; woken = q.woken + 1 })
    parks :
        {ins outs : List A} {q q' : WQueue A}
        → Trace k n ins outs q
        → q.waiting + q.woken < k
        → remove q ≡ ok (none, q')
        → Trace k n ins outs q'
    takes :
        {ins outs : List A} {q q' : WQueue A} (x : A)
        → Trace k n ins outs q
        → q.waiting + q.woken < k
        → remove q ≡ ok (some x, q')
        → Trace k n ins (outs ++ x ∷ []) q'
    resumes :
        {ins outs : List A} {q q' : WQueue A} (x : A)
        → Trace k n ins outs q
        → 0 < q.woken
        → resume q ≡ ok (x, q')
        → Trace k n ins (outs ++ x ∷ []) q'

  -- What the two ways through `remove` do.
  pub remove-eq-some :
      (q q' : WQueue A) (x : A)
      → remove q ≡ ok (some x, q')
      → (q.m_queue ≡ x ∷ q'.m_queue)
        × (q'.max_entries ≡ q.max_entries)
        × (q'.waiting ≡ q.waiting)
        × (q'.woken ≡ q.woken)
  unfolding remove
  remove-eq-some q q' x e = ground arith

  pub remove-eq-none :
      (q q' : WQueue A)
      → remove q ≡ ok (none, q')
      → (q.m_queue ≡ []) × (q' ≡ record q { waiting = q.waiting + 1 })
  unfolding remove
  remove-eq-none q q' e = ground arith

  pub resume-eq-ok :
      (q q' : WQueue A) (x : A)
      → resume q ≡ ok (x, q')
      → (q.m_queue ≡ x ∷ q'.m_queue)
        × (q'.max_entries ≡ q.max_entries)
        × (q'.waiting ≡ q.waiting)
        × (q'.woken ≡ q.woken - 1)
  unfolding resume
  resume-eq-ok q q' x e = ground arith

  abbrev IsFifo : ℕ → List A → List A → WQueue A → Type ℓ
  IsFifo n ins outs q = (ins ≡ outs ++ q.m_queue) × (length q.m_queue ≤ n) × (q.max_entries ≡ n)

  add-IsFifo :
      (n : ℕ) (ins outs : List A) (q : WQueue A) (x : A)
      → IsFifo n ins outs q
      → IsFifo n
          (if leb q.max_entries (length q.m_queue) then ins else ins ++ x ∷ [])
          outs
          (add x q)
  unfolding add
  add-IsFifo n ins outs q x (e, l, m) =
      ground (arith, append_assoc outs q.m_queue (x ∷ []), length-append q.m_queue (x ∷ []))

  take-IsFifo :
      (n : ℕ) (ins outs : List A) (q q' : WQueue A) (x : A)
      → IsFifo n ins outs q
      → q.m_queue ≡ x ∷ q'.m_queue
      → q'.max_entries ≡ q.max_entries
      → IsFifo n ins (outs ++ x ∷ []) q'
  take-IsFifo n ins outs q q' x (e, l, m) split same =
      (ground (arith, append_assoc outs (x ∷ []) q'.m_queue), ground arith, ground arith)

  -- Whatever the schedule, with spurious wake-ups, and however many threads, what was accepted is what was handed out and then
  -- what is queued, in order, and the queue keeps within its bound.
  pub Trace-fifo :
      {k n : ℕ} {ins outs : List A} {q : WQueue A}
      → Trace k n ins outs q
      → (ins ≡ outs ++ q.m_queue) × (length q.m_queue ≤ n) × (q.max_entries ≡ n)
  Trace-fifo start = unfold set_max_size new_wqueue in (refl, omega arith, refl)
  Trace-fifo {n = n} (adds {ins = ins} {outs = outs} {q = q} x t) =
      add-IsFifo n ins outs q x (Trace-fifo t)
  Trace-fifo (parks {q = q} {q' = q'} t h e) =
      let (i, l, m) = Trace-fifo t in rw ((remove-eq-none q q' e).1) (i, l, m)
  Trace-fifo (wakes t h) = Trace-fifo t
  Trace-fifo {n = n} (takes {ins = ins} {outs = outs} {q = q} {q' = q'} x t h e) =
      let (split, same, _, _) = remove-eq-some q q' x e in
      take-IsFifo n ins outs q q' x (Trace-fifo t) split same
  Trace-fifo {n = n} (resumes {ins = ins} {outs = outs} {q = q} {q' = q'} x t h e) =
      let (split, same, _, _) = resume-eq-ok q q' x e in
      take-IsFifo n ins outs q q' x (Trace-fifo t) split same
