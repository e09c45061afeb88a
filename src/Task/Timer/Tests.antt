-- ===== src/Task/Timer/Tests.antt =====
-- A concrete run of kernel/task/timer.c.
use quark_os.Prelude.{◌+◌, ◌%◌, ◌^◌, ◌≡◌, refl, [], ◌∷◌, arith, ◌==◌, if◌then◌else◌, some}
use quark_os.Task.Scheduler.{Scheduler, running, sleeping}
use quark_os.Task.Scheduler.Waiting.{IsLive}
use quark_os.Task.Timer.{TimerPool, clock_isr}
use quark_os.Task.Timer.Pool.{IsPool, pending, clock_isr-IsPool}

-- The idle task runs, and one of the timers does.
abbrev idling : Scheduler
idling = record {
  tcb = λ t.
      if t == 0
      then record { state = running; priority = 3; timer_slice = 0 }
      else record { state = sleeping; priority = 3; timer_slice = 100 };
  queue = λ i. [];
  asleep = λ l. [];
  cur = 0;
  idle = 0;
  time_since_boot = 0;
  update_priority_time = 2000;
}

abbrev timers : TimerPool
timers = record {
  slot = λ i. i + 100;
  header = 119 ∷ [];
  top = 19;
  size = 20;
  timer = λ t. record { thread = 5; time = 10 };
}

idling-IsLive : IsLive idling
idling-IsLive = record {
  valid = record {
    queued = λ i t m. ground arith;
    distinct = λ i. ground arith;
    ready = λ t r. ground arith;
    idle_ready = refl;
    bounded = λ t. ground arith;
  };
  can_run = refl;
}

timers-IsPool : IsPool timers
timers-IsPool = record {
  once = (refl, tt);
  idle = λ i h. ground (arith, h);
  apart = λ i j h k e. omega (arith, e);
  total = refl;
}

clock_isr-IsPool_example :
    (p' : TimerPool) × ((s' : Scheduler) × (clock_isr timers idling ≡ some (p', s'))
      × IsPool p'
      × IsLive s'
      × (p'.header ≡ pending timers.timer ((0 + 10) % 2 ^ 64) (119 ∷ [])))
clock_isr-IsPool_example = clock_isr-IsPool timers idling timers-IsPool idling-IsLive
