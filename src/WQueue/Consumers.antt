-- ===== src/WQueue/Consumers.antt =====
-- One consumer that is woken by `add` only never takes from an empty queue. One that wakes for no
-- reason does, and one of two may, since `remove` tests for emptiness only once.
use network_simulation.Common.{
  ℕ, ◌+◌, ◌-◌, ◌≤◌, ◌<◌, ◌≡◌, ◌⊎◌, inl, inr, refl, ap, none, List, [], ◌∷◌, ok, fault, length,
  length-append, arith,
}
use network_simulation.WQueue.{WQueue, new_wqueue, set_max_size, add, pop, remove, resume}
use native.Mathlib.Decide.{dec_lt}
use network_simulation.WQueue.Order.{
  Trace, start, adds, wakes, parks, takes, resumes, remove-eq-some, remove-eq-none, resume-eq-ok,
  Trace-fifo,
}

module _ {ℓ} {A : Type ℓ} where
  -- How many wake-ups of a run had no reason.
  abbrev pub spurious : {k n : ℕ} {ins outs : List A} {q : WQueue A} → Trace k n ins outs q → ℕ
  spurious start = 0
  spurious (adds x t) = spurious t
  spurious (wakes t h) = spurious t + 1
  spurious (parks t h e) = spurious t
  spurious (takes x t h e) = spurious t
  spurious (resumes x t h e) = spurious t

  -- The one consumer is outside, asleep over an empty queue, or let go with an item waiting for it.
  pub record IsSingle (q : WQueue A) : Type ℓ where
    pub one : q.waiting + q.woken ≤ 1
    pub asleep : 0 < q.waiting → length q.m_queue ≡ 0
    pub supplied : 0 < q.woken → 0 < length q.m_queue

  add-IsSingle : (x : A) (q : WQueue A) → 0 < q.max_entries → IsSingle q → IsSingle (add x q)
  unfolding add
  add-IsSingle x q pos s = record {
    one = ground (arith, s.one);
    asleep = λ h. ground (arith, s.asleep, s.one, length-append q.m_queue (x ∷ []));
    supplied = λ h. ground (arith, s.supplied, length-append q.m_queue (x ∷ []));
  }

  park-IsSingle :
      (q q' : WQueue A)
      → IsSingle q
      → q.waiting + q.woken < 1
      → remove q ≡ ok (none, q')
      → IsSingle q'
  park-IsSingle q q' s h e =
      let (empty, shape) = remove-eq-none q q' e in
      let len : length q.m_queue ≡ 0 = ap length empty in
      rw shape
        (record { one = omega arith; asleep = λ _. len; supplied = λ p. absurd (omega arith) })

  leave-IsSingle : (q : WQueue A) → q.waiting ≡ 0 → q.woken ≡ 0 → IsSingle q
  leave-IsSingle q w k = record {
    one = omega arith;
    asleep = λ h. absurd (omega arith);
    supplied = λ h. absurd (omega arith);
  }

  Trace-IsSingle :
      {n : ℕ} {ins outs : List A} {q : WQueue A}
      → 0 < n
      → (t : Trace 1 n ins outs q) → spurious t ≡ 0
      → IsSingle q
  Trace-IsSingle pos start real = unfold set_max_size new_wqueue in leave-IsSingle _ refl refl
  Trace-IsSingle pos (adds {q = q} x t) real =
      add-IsSingle x q (rw ((Trace-fifo t).2) pos) (Trace-IsSingle pos t real)
  Trace-IsSingle pos (wakes t h) real = absurd (omega arith)
  Trace-IsSingle pos (parks {q = q} {q' = q'} t h e) real =
      park-IsSingle q q' (Trace-IsSingle pos t real) h e
  Trace-IsSingle pos (takes {q = q} {q' = q'} x t h e) real =
      let (_, _, w, k) = remove-eq-some q q' x e in leave-IsSingle q' (omega arith) (omega arith)
  Trace-IsSingle pos (resumes {q = q} {q' = q'} x t h e) real =
      let (_, _, w, k) = resume-eq-ok q q' x e in
      let one = (Trace-IsSingle pos t real).one in leave-IsSingle q' (omega arith) (omega arith)

  length-zero : (xs : List A) → length xs ≡ 0 → xs ≡ []
  length-zero [] h = refl
  length-zero (x ∷ xs) h = absurd (omega arith)

  resume_nonempty :
      (q : WQueue A) (xs : List A)
      → q.m_queue ≡ xs
      → 0 < length q.m_queue
      → (x : A) × (q' : WQueue A) × (resume q ≡ ok (x, q'))
  unfolding resume pop
  resume_nonempty q [] e h = absurd (omega (arith, ap length e))
  resume_nonempty q (x ∷ xs) e h = (x, record q { woken = q.woken - 1; m_queue = xs }, rw (e, pop))

  resume_or_none :
      (q : WQueue A)
      → (0 < q.woken → 0 < length q.m_queue)
      → (q.woken ≡ 0) ⊎ ((x : A) × (q' : WQueue A) × (resume q ≡ ok (x, q')))
  resume_or_none q h = elim (dec_lt 0 q.woken) [
    | yes woken ↦ inr (resume_nonempty q q.m_queue refl (h woken))
    | no none_woken ↦ inl (omega arith)
  ]

  asleep_or_none :
      (q : WQueue A) → (0 < q.waiting → length q.m_queue ≡ 0) → (q.waiting ≡ 0) ⊎ (q.m_queue ≡ [])
  asleep_or_none q h = elim (dec_lt 0 q.waiting) [
    | yes waits ↦ inr (length-zero q.m_queue (h waits))
    | no awake ↦ inl (omega arith)
  ]

  -- With one consumer and room for an item, under any schedule without spurious wake-ups: if a thread
  -- has been let go, it finds an item, and if a thread sleeps, the queue is empty.
  pub single_consumer_safe :
      {n : ℕ} {ins outs : List A} {q : WQueue A}
      → 0 < n
      → (t : Trace 1 n ins outs q) → spurious t ≡ 0
      → ((q.woken ≡ 0) ⊎ ((x : A) × (q' : WQueue A) × (resume q ≡ ok (x, q'))))
        × ((q.waiting ≡ 0) ⊎ (q.m_queue ≡ []))
  single_consumer_safe {q = q} pos t real =
      let s = Trace-IsSingle pos t real in (resume_or_none q s.supplied, asleep_or_none q s.asleep)

  -- One consumer alone, with any bound: one spurious wake-up, and it takes from an empty list.
  pub spurious_wake_takes_nothing :
      (n : ℕ)
      → (q : WQueue A) × (t : Trace 1 n [] [] q) × (spurious t ≡ 1)
        × (0 < q.woken)
        × (resume q ≡ fault)
  unfolding new_wqueue set_max_size remove resume pop
  spurious_wake_takes_nothing n =
      (_, wakes (parks start (omega arith) refl) (omega arith), refl, omega arith, refl)

  -- With two consumers: whatever the item, one thread may sleep and be let go, and the other take the
  -- item first, so that the first takes from an empty list.
  pub second_consumer_steals :
      (x : A) → (q : WQueue A) × Trace 2 1 (x ∷ []) (x ∷ []) q × (0 < q.woken) × (resume q ≡ fault)
  unfolding new_wqueue set_max_size add remove resume
  second_consumer_steals x =
      (_, takes x (adds x (parks start (omega arith) refl)) (omega arith) refl, omega arith, refl)
