-- ===== src/Task/Scheduler.antt =====
-- kernel/task/schedule.c, with the sleeping, waking and exiting of kernel/task/fork.c: a feedback
-- scheduler with four queues, on one processor. A task is the address of its `run_list`, which is also
-- that of its control block; a queue is the list of its tasks, head first. The locks are not modelled. Every
-- task is taken to be a control block: that it is not NULL (`sched_task_add`), is aligned and has its magic
-- (`tcb_entry` of kernel/include/task/task.h, with DEBUG) is not checked here.
pub mod Invariant
pub mod Reset
pub mod Choice
pub mod Switch
pub mod Kept
pub mod Schedule
pub mod Waiting
mod Tests
use mathlib.Core.List.{reverse}
use quark_os.Members.{without}
use quark_os.Prelude.{
  ℕ, zero, suc, ◌+◌, ◌-◌, ◌*◌, ◌%◌, ◌^◌, Bool, true, false, ◌&&◌, Option, none, some, List, [], ◌∷◌,
  ◌++◌, ltb, leb, ◌==◌, ◌!=◌, if◌then◌else◌, ◌>>=◌, ◌>>◌, assertk, store,
}

abbrev pub task_max_priority : ℕ
task_max_priority = 3

abbrev pub time_slice_length : ℕ
time_slice_length = 100

-- in milliseconds, as it is used
abbrev pub reset_priority_interval : ℕ
reset_priority_interval = 2

pub data TaskState : Type 0 where
  running : TaskState
  sleeping : TaskState
  zombie : TaskState

abbrev pub is_running : TaskState → Bool
is_running running = true
is_running sleeping = false
is_running zombie = false

-- The fields of `struct task_struct` that the scheduler uses.
pub record Tcb : Type 0 where
  pub state : TaskState
  pub priority : ℕ
  pub timer_slice : ℕ

-- `struct scheduler`, the control blocks, the sleeping lists by the address of their heads, the current
-- and the idle task of the processor, and the clock.
pub record Scheduler : Type 0 where
  pub tcb : ℕ → Tcb
  pub queue : ℕ → List ℕ
  pub asleep : ℕ → List ℕ
  pub cur : ℕ
  pub idle : ℕ
  pub time_since_boot : ℕ
  pub update_priority_time : ℕ

abbrev pub set_tcb : Scheduler → ℕ → Tcb → Scheduler
set_tcb s task t = record s { tcb = store s.tcb task t }

pub scheduler_init : Scheduler → Scheduler
scheduler_init s = record s {
  queue = λ i. if leb i task_max_priority then [] else s.queue i;
  update_priority_time = (s.time_since_boot + reset_priority_interval * 1000) % 2 ^ 64;
}

pub sched_task_add : Scheduler → ℕ → Scheduler
sched_task_add s task =
    let i = (s.tcb task).priority in record s { queue = store s.queue i (s.queue i ++ (task ∷ [])) }

-- The loop from queue `n - 1` down; the queues before `queue_get` are empty.
pub chose_loop : Scheduler → ℕ → ℕ × Scheduler
chose_loop s zero = (s.idle, s)
chose_loop s (suc n) = elim (s.queue n) [
  | [] ↦ chose_loop s n
  | task ∷ rest ↦ (task, record s { queue = store s.queue n rest })
]

pub chose_next_task : Scheduler → ℕ × Scheduler
unfolding chose_loop
chose_next_task s = chose_loop s (task_max_priority + 1)

-- Queue `n` goes behind the queue of the highest priority, then queue `n - 1`.
pub splice_loop : (ℕ → List ℕ) → ℕ → (ℕ → List ℕ)
splice_loop queue zero = queue
splice_loop queue (suc n) =
    splice_loop (store (store queue task_max_priority (queue task_max_priority ++ queue n)) n []) n

-- The loop from the tail on, over the tasks in reverse.
pub raise_loop : (ℕ → Tcb) → List ℕ → (ℕ → Tcb)
raise_loop tcb [] = tcb
raise_loop tcb (task ∷ tasks) =
    let rest =
      raise_loop (store tcb task (record (tcb task) { priority = task_max_priority })) tasks in
    if (tcb task).priority == task_max_priority then tcb else rest

pub reset_priority : Scheduler → Scheduler
unfolding splice_loop raise_loop
reset_priority s =
    let queue = splice_loop s.queue task_max_priority in
    record s { queue = queue; tcb = raise_loop s.tcb (reverse (queue task_max_priority)) }

-- `if (G_TIME_SINCE_BOOT >= update_priority_time)`
pub refresh : Scheduler → Scheduler
unfolding reset_priority
refresh s =
    let reset = reset_priority s in
    if leb s.update_priority_time s.time_since_boot
    then record reset {
      update_priority_time = (s.time_since_boot + reset_priority_interval * 1000) % 2 ^ 64;
    }
    else s

-- The current task's new slice and priority.
pub demoted : Tcb → Tcb
demoted t =
    if t.priority != 0
    then if t.timer_slice == 0
      then record t { timer_slice = time_slice_length; priority = t.priority - 1 }
      else t
    else record t { timer_slice = time_slice_length }

-- What happens to the current task when another one is to run.
pub retire : Scheduler → ℕ → Scheduler
unfolding sched_task_add demoted
retire s cur =
    let t = demoted (s.tcb cur) in
    let put = sched_task_add (set_tcb s cur t) cur in
    if cur == s.idle then s else if is_running t.state then put else set_tcb s cur t

-- The switch to `next`.
pub switch : ℕ → Scheduler → Option Scheduler
unfolding retire
switch next s = if next == s.idle && s.cur == s.idle then some s else do
  let s' = retire s s.cur
  assertk (is_running (s'.tcb next).state)
  some (record s' { cur = next })

pub schedule : Scheduler → Option Scheduler
unfolding refresh chose_next_task switch
schedule s = let r = chose_next_task (refresh s) in switch r.0 r.1

-- `list_del(&task->run_list)`: the task leaves the list that it is on.
abbrev pub unlink : Scheduler → ℕ → Scheduler
unlink s task = record s {
  queue = λ i. without task (s.queue i);
  asleep = λ l. without task (s.asleep l);
}

abbrev pub set_state : Scheduler → ℕ → TaskState → Scheduler
set_state s task state = set_tcb s task (record (s.tcb task) { state = state })

-- `task_sleep` on the list `l`, up to the switch; the caller's lock is not modelled.
pub task_sleep : Scheduler → ℕ → Option Scheduler
unfolding schedule
task_sleep s l =
    let listed = record s { asleep = store s.asleep l (s.cur ∷ s.asleep l) } in
    schedule (set_state listed s.cur sleeping)

unfoldable pub task_wakeup : Scheduler → ℕ → Scheduler
unfolding sched_task_add
task_wakeup s task =
    let woken = sched_task_add (unlink (set_state s task running) task) task in
    if is_running (s.tcb task).state then s else woken

-- The end of `clock_isr` in kernel/task/timer.c: the current task's slice runs down.
unfoldable pub run_down : Scheduler → Option Scheduler
unfolding schedule
run_down s =
    let t = s.tcb s.cur in
    let shorter = record t { timer_slice = (t.timer_slice + 2 ^ 16 - 10) % 2 ^ 16 } in
    if t.timer_slice == 0 then schedule s else some (set_tcb s s.cur shorter)

-- `G_TIME_SINCE_BOOT += 10`
unfoldable pub pass_time : Scheduler → Scheduler
pass_time s = record s { time_since_boot = (s.time_since_boot + 10) % 2 ^ 64 }

-- What can happen to the scheduler, and whether it makes a choice then.
pub data Event : Type 0 where
  clock : Event
  yield_cpu : Event
  sleep_on : ℕ → Event
  wake : ℕ → Event

abbrev counted : ℕ → Option Scheduler → Option (ℕ × Scheduler)
counted n r = r >>= λ s. some (n, s)

pub step : Event → Scheduler → Option (ℕ × Scheduler)
unfolding run_down pass_time schedule task_sleep task_wakeup
step clock s = counted (if (s.tcb s.cur).timer_slice == 0 then 1 else 0) (run_down (pass_time s))
step yield_cpu s = counted 1 (schedule s)
step (sleep_on l) s = do assertk (s.cur != s.idle); counted 1 (task_sleep s l)
step (wake u) s = some (0, task_wakeup s u)
