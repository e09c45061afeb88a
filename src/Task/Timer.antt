-- ===== src/Task/Timer.antt =====
-- kernel/task/timer.c: the pool of timers, sleeping until a time, and the clock interrupt on the first processor.
-- A timer goes by its address; the list of timers that run is its timers in order.
pub mod Pool
mod Tests
use quark_os.Members.{without}
use quark_os.Prelude.{
  ℕ, zero, suc, ◌+◌, ◌-◌, Bool, true, false, Option, none, some, List, [], ◌∷◌, ◌++◌, leb, ◌==◌,
  ◌!=◌, if◌then◌else◌, ◌>>=◌, store,
}
use quark_os.Task.Scheduler.{Scheduler, task_sleep, task_wakeup, run_down, pass_time}

abbrev pub timer_count : ℕ
timer_count = 20

pub record Timer : Type 0 where
  pub thread : ℕ
  pub time : ℕ

-- `struct timer_pool` and the timers
pub record TimerPool : Type 0 where
  pub slot : ℕ → ℕ
  pub header : List ℕ
  pub top : ℕ
  pub size : ℕ
  pub timer : ℕ → Timer

pub alloc_timer : TimerPool → Option (ℕ × TimerPool)
alloc_timer p = if p.top != 0 then some (p.slot (p.top - 1), record p { top = p.top - 1 }) else none

pub free_timer : TimerPool → ℕ → TimerPool
free_timer p t =
    if p.top != p.size then record p { slot = store p.slot p.top t; top = p.top + 1 } else p

-- `thread_timer_init`; `first` gives the addresses in the array `_timer`.
pub thread_timer_init : TimerPool → (ℕ → ℕ) → TimerPool
thread_timer_init p first = record p {
  top = timer_count;
  size = timer_count;
  header = [];
  slot = first;
}

-- `ms_sleep_until`; `block_list` is the list of sleeping tasks.
pub ms_sleep_until : TimerPool → Scheduler → ℕ → ℕ → Option (Bool × (TimerPool × Scheduler))
ms_sleep_until p s block_list msc = elim (alloc_timer p) [
  | none ↦ some (false, (p, s))
  | some (t, p') ↦
      let timer = store p'.timer t (record { thread = s.cur; time = msc }) in
      let p'' = record p' { timer = timer; header = p'.header ++ (t ∷ []) } in
      task_sleep s block_list >>= λ s'. some (true, (p'', s'))
]

-- A timer whose time has come
pub expire : TimerPool → ℕ → TimerPool
expire p t = free_timer (record p { header = without t p.header }) t

-- The loop of `clock_isr` over the timers that are left.
pub fire_loop : List ℕ → TimerPool → Scheduler → TimerPool × Scheduler
fire_loop [] p s = (p, s)
fire_loop (t ∷ ts) p s =
    let fired = fire_loop ts (expire p t) (task_wakeup s (p.timer t).thread) in
    let kept = fire_loop ts p s in if leb (p.timer t).time s.time_since_boot then fired else kept

pub clock_isr : TimerPool → Scheduler → Option (TimerPool × Scheduler)
clock_isr p s = let r = fire_loop p.header p (pass_time s) in run_down r.1 >>= λ s'. some (r.0, s')
