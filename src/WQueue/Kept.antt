-- ===== src/WQueue/Kept.antt =====
-- What holds of every item in a queue goes on to hold, and holds of what it hands out.
use network_simulation.Common.{
  ◌+◌, ◌≡◌, refl, ◌⊎◌, inl, inr, Bool-cases, none, some, List, [], ◌∷◌, ◌++◌, ok, leb, length, All,
  All-append, arith,
}
use network_simulation.WQueue.{WQueue, add, remove, notify_one, pop}

module _ {A : Type 0} where
  m_queue-notify_one : (q : WQueue A) → (notify_one q).m_queue ≡ q.m_queue
  unfolding notify_one
  m_queue-notify_one q = ground arith

  pub add-All :
      (P : A → Type 0) (x : A) (q : WQueue A) → P x → All P q.m_queue → All P (add x q).m_queue
  unfolding add
  add-All P x q h all = elim (Bool-cases (leb q.max_entries (length q.m_queue))) [
    | inl full ↦ rw full all
    | inr room ↦
        rw (room, m_queue-notify_one (record q { m_queue = q.m_queue ++ x ∷ [] }))
          (All-append P q.m_queue (x ∷ []) all (h, tt))
  ]

  remove-All_of :
      (P : A → Type 0) (q : WQueue A) (xs : List A)
      → q.m_queue ≡ xs
      → All P xs
      → ((q' : WQueue A) × (remove q ≡ ok (none, q')) × All P q'.m_queue)
        ⊎ ((x : A) × (q' : WQueue A) × (remove q ≡ ok (some x, q')) × P x × All P q'.m_queue)
  unfolding remove pop
  remove-All_of P q [] e all = inl (record q { waiting = q.waiting + 1 }, rw e refl, rw e tt)
  remove-All_of P q (x ∷ xs) e (h, all) =
      inr (x, record q { m_queue = xs }, rw e (ground arith), h, all)

  -- A queue hands out an item, or none.
  pub remove-All :
      (P : A → Type 0) (q : WQueue A)
      → All P q.m_queue
      → ((q' : WQueue A) × (remove q ≡ ok (none, q')) × All P q'.m_queue)
        ⊎ ((x : A) × (q' : WQueue A) × (remove q ≡ ok (some x, q')) × P x × All P q'.m_queue)
  remove-All P q all = remove-All_of P q q.m_queue refl all
