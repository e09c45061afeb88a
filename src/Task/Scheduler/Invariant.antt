-- ===== src/Task/Scheduler/Invariant.antt =====
-- Well-formedness of the scheduler of kernel/task/schedule.c.
use quark_os.Members.{has, Distinct}
use quark_os.Prelude.{ℕ, ◌≤◌, ◌≡◌, ◌≢◌, ◌⊎◌, Bool, true}
use quark_os.Task.Scheduler.{Scheduler, is_running, task_max_priority}

abbrev pub is_ready : Scheduler → ℕ → Bool
is_ready s t = is_running (s.tcb t).state

abbrev pub priority_of : Scheduler → ℕ → ℕ
priority_of s t = (s.tcb t).priority

-- The queues hold exactly the tasks that can run and do not, each once, at its priority.
pub record IsScheduled (s : Scheduler) : Type 0 where
  pub queued :
      (i t : ℕ)
      → has t (s.queue i) ≡ true
      → (i ≤ task_max_priority) × (priority_of s t ≡ i) × (is_ready s t ≡ true) × (t ≢ s.cur)
  pub distinct : (i : ℕ) → Distinct (s.queue i)
  -- no task that can run is lost
  pub ready :
      (t : ℕ)
      → is_ready s t ≡ true
      → (t ≡ s.cur) ⊎ (t ≡ s.idle) ⊎ (has t (s.queue (priority_of s t)) ≡ true)
  pub idle_ready : is_ready s s.idle ≡ true
  pub bounded : (t : ℕ) → priority_of s t ≤ task_max_priority
