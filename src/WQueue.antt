-- ===== src/WQueue.antt =====
-- wqueue.h: a bounded queue shared by threads, as a monitor. The lock makes each critical section one
-- step; `waiting` counts the threads asleep in `wait`, `woken` those that a `notify_one` has let go,
-- or that have woken for no reason, and that have not had the lock again.
pub mod Order
pub mod Consumers
pub mod Kept
use network_simulation.Common.{
  ℕ, ◌+◌, ◌-◌, Bool, true, false, Option, none, some, List, [], ◌∷◌, ◌++◌, Run, ok, fault, ◌>>=◌,
  if◌then◌else◌, leb, ◌==◌, length,
}

abbrev pub max_queue_length : ℕ
max_queue_length = 20

pub record WQueue {ℓ} (A : Type ℓ) : Type ℓ where
  pub m_queue : List A
  pub max_entries : ℕ
  pub waiting : ℕ
  pub woken : ℕ

module _ {ℓ} {A : Type ℓ} where
  unfoldable pub new_wqueue : WQueue A
  new_wqueue = record { m_queue = []; max_entries = max_queue_length; waiting = 0; woken = 0 }

  unfoldable pub set_max_size : ℕ → WQueue A → WQueue A
  set_max_size max_value q = record q { max_entries = max_value }

  -- `m_condv->notify_one()`.
  notify_one : WQueue A → WQueue A
  notify_one q =
      if q.waiting == 0 then q else record q { waiting = q.waiting - 1; woken = q.woken + 1 }

  -- A full queue drops the item.
  unfoldable pub add : A → WQueue A → WQueue A
  unfolding notify_one
  add item q =
      if leb q.max_entries (length q.m_queue)
      then q
      else notify_one (record q { m_queue = q.m_queue ++ item ∷ [] })

  -- `front` and `pop_front`, which an empty list does not have.
  pop : WQueue A → Run (A × WQueue A)
  pop q = elim q.m_queue [ [] ↦ fault | x ∷ xs ↦ ok (x, record q { m_queue = xs }) ]

  -- `remove` up to its end, or up to the `wait`.
  unfoldable pub remove : WQueue A → Run (Option A × WQueue A)
  unfolding pop
  remove q =
      if length q.m_queue == 0
      then ok (none, record q { waiting = q.waiting + 1 })
      else (do (x, q') ← pop q; ok (some x, q'))

  -- `remove` from the return of `wait` on: the test is not repeated.
  unfoldable pub resume : WQueue A → Run (A × WQueue A)
  unfolding pop
  resume q = pop (record q { woken = q.woken - 1 })

  unfoldable pub size : WQueue A → ℕ
  size q = length q.m_queue
