-- ===== src/Task/Scheduler/Waiting.antt =====
-- How long a task waits in the queue of the highest priority of kernel/task/schedule.c.
pub mod Events
use quark_os.Members.{has, Distinct, without, has-append}
use quark_os.Prelude.{
  ℕ, zero, suc, ◌+◌, ◌-◌, ◌*◌, ◌%◌, ◌^◌, ◌≤◌, ◌<◌, ◌≡◌, ◌≢◌, refl, inl, inr, ◌⊎◌, Bool, true, false,
  ◌||◌, ◌&&◌, List, [], ◌∷◌, ◌++◌, append_assoc, append-nil, arith, ◌==◌, ◌!=◌, if◌then◌else◌,
  store, store_self, store_ne, eq_or_ne, sym, ◌∙◌, ap, leb, Bool-cases, subst, Option, some, none,
  ◌>>=◌, ◌>>◌, assertk, length, List-cases,
}
use quark_os.Task.Scheduler.{
  Scheduler, Tcb, TaskState, running, sleeping, is_running, task_max_priority,
  reset_priority_interval, demoted, set_tcb, set_state, chose_loop, chose_next_task, retire, switch,
  schedule, refresh, reset_priority, task_sleep, task_wakeup, run_down, pass_time, Event, clock,
  yield_cpu, sleep_on, wake, step,
}
use quark_os.Task.Scheduler.Invariant.{IsScheduled, is_ready, priority_of}
use quark_os.Task.Scheduler.Reset.{reset-IsScheduled, reset-queue, lower}
use quark_os.Task.Scheduler.Switch.{requeued, Retires, at_idle, stopped, put_back, retire-Retires}
use quark_os.Task.Scheduler.Schedule.{
  refresh-IsScheduled, schedule-IsScheduled, asleep-IsScheduled, woken, wakeup-woken, wakeup-awake,
  task_wakeup-IsScheduled, task_sleep-IsScheduled,
}

-- `t` stands in the queue of the highest priority behind `n` others.
pub record Ahead (s : Scheduler) (t n : ℕ) : Type 0 where
  pub before : List ℕ
  pub after : List ℕ
  pub place : s.queue 3 ≡ before ++ (t ∷ after)
  pub count : length before ≡ n

-- The scheduler is between two events.
pub record IsLive (s : Scheduler) : Type 0 where
  pub valid : IsScheduled s
  pub can_run : is_ready s s.cur ≡ true

pub Ahead-append :
    (s s' : Scheduler) (t n : ℕ) (more : List ℕ)
    → s'.queue 3 ≡ s.queue 3 ++ more
    → Ahead s t n
    → Ahead s' t n
Ahead-append s s' t n more e a = record {
  before = a.before;
  after = a.after ++ more;
  place = e ∙ ap (λ (q : List ℕ). q ++ more) a.place ∙ append_assoc a.before (t ∷ a.after) more;
  count = a.count;
}

refresh-Ahead : (s : Scheduler) (t n : ℕ) → IsScheduled s → Ahead s t n → Ahead (refresh s) t n
unfolding refresh
refresh-Ahead s t n ok a = elim (Bool-cases (leb s.update_priority_time s.time_since_boot)) [
  | inl due ↦
      let later = (s.time_since_boot + reset_priority_interval * 1000) % 2 ^ 64 in
      rw due (
        Ahead-append s (record (reset_priority s) { update_priority_time = later }) t n (lower s ok)
          (reset-queue s ok 3) a)
  | inr early ↦ rw early a
]

Retires-top :
    (s : Scheduler) {s' : Scheduler}
    → Retires s s'
    → (more : List ℕ) × (s'.queue 3 ≡ s.queue 3 ++ more)
Retires-top s (at_idle at) = ([], sym (append-nil (s.queue 3)))
Retires-top s (stopped ne stop) = ([], sym (append-nil (s.queue 3)))
Retires-top s (put_back ne go) =
    let p = (demoted (s.tcb s.cur)).priority in
    elim (eq_or_ne p 3) [
      | inl e ↦ (s.cur ∷ [], ground arith)
      | inr other ↦
          ([], store_ne s.queue (s.queue p ++ (s.cur ∷ [])) other ∙ sym (append-nil (s.queue 3)))
    ]

switch-top :
    (u : ℕ) (s s' : Scheduler)
    → switch u s ≡ some s'
    → (s'.cur ≡ u) × ((more : List ℕ) × (s'.queue 3 ≡ s.queue 3 ++ more))
unfolding switch
switch-top u s s' runs = elim (Bool-cases (u == s.idle && s.cur == s.idle)) [
  | inl stay ↦
      let at : s.cur ≡ u = ground arith in
      (ground arith, ([], ground (arith, append-nil (s.queue 3))))
  | inr go ↦
      let (more, e) = Retires-top s (retire-Retires s) in (ground arith, (more, ground (arith, e)))
]

-- The first task of the top queue is chosen.
chose_top :
    (r : Scheduler) (t : ℕ) (rest : List ℕ)
    → r.queue 3 ≡ t ∷ rest
    → chose_next_task r ≡ (t, record r { queue = store r.queue 3 rest })
unfolding chose_next_task chose_loop
chose_top r t rest top = rw (top, chose_loop) refl

schedule-top :
    (s : Scheduler) (t : ℕ) (rest : List ℕ)
    → (refresh s).queue 3 ≡ t ∷ rest
    → schedule s ≡ switch t (record (refresh s) { queue = store (refresh s).queue 3 rest })
unfolding schedule
schedule-top s t rest top =
    ap (λ (p : ℕ × Scheduler). switch p.0 p.1) (chose_top (refresh s) t rest top)

after_choice :
    (s s' : Scheduler) (u : ℕ) (rest : List ℕ)
    → (refresh s).queue 3 ≡ u ∷ rest
    → schedule s ≡ some s'
    → (s'.cur ≡ u) × ((more : List ℕ) × (s'.queue 3 ≡ rest ++ more))
after_choice s s' u rest top runs =
    switch-top u (record (refresh s) { queue = store (refresh s).queue 3 rest }) s'
      (sym (schedule-top s u rest top) ∙ runs)

-- What one choice does to a task of the top queue.
schedule-Ahead :
    (s s' : Scheduler) (t n : ℕ)
    → IsScheduled s
    → Ahead s t n
    → schedule s ≡ some s'
    → (s'.cur ≡ t) ⊎ ((m : ℕ) × (n ≡ 1 + m) × Ahead s' t m)
schedule-Ahead s s' t n ok a runs =
    let b = refresh-Ahead s t n ok a in
    elim (List-cases b.before) [
      | inl none_before ↦
          let top = b.place ∙ ap (λ (q : List ℕ). q ++ (t ∷ b.after)) none_before in
          inl (after_choice s s' t b.after top runs).0
      | inr (u, us, first) ↦
          let rest = us ++ (t ∷ b.after) in
          let top = b.place ∙ ap (λ (q : List ℕ). q ++ (t ∷ b.after)) first in
          let (c, (more, e)) = after_choice s s' u rest top runs in
          inr (
            length us,
            omega (arith, b.count, ap (λ (q : List ℕ). length q) first),
            record {
              before = us;
              after = b.after ++ more;
              place = e ∙ append_assoc us (t ∷ b.after) more;
              count = refl;
            },
          )
    ]

-- What one event does: it is impossible, or the scheduler stays live, and with `c` choices the task `t`
-- has come to run or has `c` fewer tasks before it.
pub record Served (t k c : ℕ) (s' : Scheduler) : Type 0 where
  pub live : IsLive s'
  pub served : (s'.cur ≡ t) ⊎ ((m : ℕ) × (k ≡ c + m) × Ahead s' t m)

pub chosen-Served :
    (s : Scheduler) (t k : ℕ)
    → IsScheduled s
    → Ahead s t k
    → (s' : Scheduler) × (schedule s ≡ some s') × Served t k 1 s'
chosen-Served s t k ok a =
    let (s', runs, valid, can_run, pick) = schedule-IsScheduled s ok in
    (
      s',
      runs,
      record {
        live = record { valid = valid; can_run = can_run };
        served = elim (schedule-Ahead s s' t k ok a runs) [
          | inl now ↦ inl now
          | inr (m, e, a') ↦ inr (m, omega (arith, e), a')
        ];
      },
    )
