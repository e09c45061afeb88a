-- ===== src/Task/Scheduler/Tests.antt =====
-- Concrete runs of kernel/task/schedule.c and of the sleeping and waking of kernel/task/fork.c.
use quark_os.Prelude.{
  ℕ, store, ◌≢◌, ◌≡◌, refl, ◌||◌, true, List, [], ◌∷◌, arith, ◌==◌, if◌then◌else◌, some,
}
use quark_os.Task.Scheduler.{
  Scheduler, running, sleeping, schedule, refresh, task_sleep, task_wakeup, step, clock, yield_cpu,
  sleep_on, wake, Event,
}
use quark_os.Task.Scheduler.Invariant.{IsScheduled, is_ready}
use quark_os.Task.Scheduler.Choice.{Choice}
use quark_os.Task.Scheduler.Schedule.{
  schedule-IsScheduled, task_sleep-IsScheduled, task_wakeup-IsScheduled,
}
use quark_os.Task.Scheduler.Waiting.Events.{switches, Runs, waiting-Runs}

-- The idle task runs and all others sleep.
abbrev calm : Scheduler
calm = record {
  tcb = λ t.
      if t == 0
      then record { state = running; priority = 3; timer_slice = 0 }
      else record { state = sleeping; priority = 3; timer_slice = 100 };
  queue = λ i. [];
  asleep = λ l. [];
  cur = 0;
  idle = 0;
  time_since_boot = 0;
  update_priority_time = 2000;
}

calm-IsScheduled : IsScheduled calm
calm-IsScheduled = record {
  queued = λ i t m. ground arith;
  distinct = λ i. ground arith;
  ready = λ t r. ground arith;
  idle_ready = refl;
  bounded = λ t. ground arith;
}

abbrev one : Scheduler
one = task_wakeup calm 5

abbrev two : Scheduler
two = task_wakeup one 6

one-IsScheduled : IsScheduled one
one-IsScheduled = task_wakeup-IsScheduled calm 5 calm-IsScheduled refl

task_wakeup-IsScheduled_example : IsScheduled two
unfolding task_wakeup
task_wakeup-IsScheduled_example = task_wakeup-IsScheduled one 6 one-IsScheduled refl

schedule-IsScheduled_example :
    (s' : Scheduler) × (schedule two ≡ some s')
    × IsScheduled s'
    × (is_ready s' s'.cur ≡ true)
    × ((left : Scheduler) × Choice (refresh two) s'.cur left)
schedule-IsScheduled_example = schedule-IsScheduled two task_wakeup-IsScheduled_example

-- Task 7 runs.
abbrev busy : Scheduler
busy = record calm {
  tcb = λ t.
      if t == 0 || t == 7
      then record { state = running; priority = 3; timer_slice = 0 }
      else record { state = sleeping; priority = 3; timer_slice = 100 };
  cur = 7;
}

busy-IsScheduled : IsScheduled busy
busy-IsScheduled = record {
  queued = λ i t m. ground arith;
  distinct = λ i. ground arith;
  ready = λ t r. ground arith;
  idle_ready = refl;
  bounded = λ t. ground arith;
}

task_sleep-IsScheduled_example :
    (s' : Scheduler) × (task_sleep busy 100 ≡ some s')
    × IsScheduled s'
    × (is_ready s' s'.cur ≡ true)
    × (s'.asleep ≡ store busy.asleep 100 (busy.cur ∷ busy.asleep 100))
    × ((s'.tcb busy.cur).state ≡ sleeping)
    × ((t : ℕ) → t ≢ busy.cur → (s'.tcb t).state ≡ (busy.tcb t).state)
task_sleep-IsScheduled_example =
    task_sleep-IsScheduled busy 100 busy-IsScheduled (λ e. absurd (omega (arith, e)))

abbrev events : List Event
events = yield_cpu ∷ clock ∷ wake 8 ∷ sleep_on 100 ∷ []

waiting-Runs_example : Runs 6 events two
unfolding task_wakeup switches step
waiting-Runs_example =
    waiting-Runs events two 6 1 (record { valid = task_wakeup-IsScheduled_example; can_run = refl })
      (record { before = 5 ∷ []; after = []; place = refl; count = refl }) (omega arith)
