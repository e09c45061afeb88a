-- ===== src/Task/Scheduler/Waiting/Events.antt =====
-- What the events of kernel/task/schedule.c do to a task that waits.
use quark_os.Members.{has}
use quark_os.Prelude.{
  ℕ, ◌+◌, ◌-◌, ◌%◌, ◌^◌, ◌<◌, ◌≡◌, ◌≢◌, refl, inl, inr, ◌⊎◌, true, false, List, [], ◌∷◌, ◌++◌,
  arith, ◌==◌, ◌!=◌, store, store_ne, eq_or_ne, sym, ◌∙◌, Bool-cases, subst, some, none,
}
use quark_os.Task.Scheduler.{
  Scheduler, Tcb, sleeping, set_tcb, set_state, task_sleep, task_wakeup, run_down, pass_time, Event,
  clock, yield_cpu, sleep_on, wake, step,
}
use quark_os.Task.Scheduler.Invariant.{IsScheduled, is_ready, priority_of}
use quark_os.Task.Scheduler.Schedule.{
  asleep-IsScheduled, woken, wakeup-woken, wakeup-awake, task_wakeup-IsScheduled,
}
use quark_os.Task.Scheduler.Waiting.{Ahead, IsLive, Ahead-append, Served, chosen-Served}

-- The slice of the current task runs down.
pub ticked-IsScheduled :
    (s : Scheduler) (b : Tcb)
    → IsScheduled s
    → (b.priority ≡ priority_of s s.cur)
    → (b.state ≡ (s.tcb s.cur).state)
    → IsScheduled (set_tcb s s.cur b)
ticked-IsScheduled s b ok p q = record {
  queued =
      λ i t m. let (small, at, r, ne) = ok.queued i t m in (small, ground arith, ground arith, ne);
  distinct = ok.distinct;
  ready = λ t r. elim (eq_or_ne t s.cur) [
    | inl e ↦ inl e
    | inr ne ↦ elim (ok.ready t (ground arith)) [
      | inl e ↦ inl e
      | inr (inl e) ↦ inr (inl e)
      | inr (inr m) ↦
          let e : priority_of (set_tcb s s.cur b) t ≡ priority_of s t = ground arith in
          inr (inr (subst (λ (i : ℕ). has t (s.queue i) ≡ true) (sym e) m))
    ]
  ];
  idle_ready = ground (arith, ok.idle_ready);
  bounded = λ t. ground (arith, ok.bounded t);
}

pub passed-IsScheduled : (s : Scheduler) → IsScheduled s → IsScheduled (pass_time s)
unfolding pass_time
passed-IsScheduled s ok = record {
  queued = ok.queued;
  distinct = ok.distinct;
  ready = ok.ready;
  idle_ready = ok.idle_ready;
  bounded = ok.bounded;
}

-- A task's place in the top queue depends on that queue only.
same-Ahead : (s s' : Scheduler) (t n : ℕ) → s'.queue 3 ≡ s.queue 3 → Ahead s t n → Ahead s' t n
same-Ahead s s' t n e a = record {
  before = a.before;
  after = a.after;
  place = e ∙ a.place;
  count = a.count;
}

clock-Served :
    (s : Scheduler) (t k : ℕ)
    → IsLive s
    → Ahead s t k
    → (c : ℕ) × ((s' : Scheduler) × (step clock s ≡ some (c, s')) × Served t k c s')
unfolding step run_down pass_time
clock-Served s t k l a =
    let p = pass_time s in
    let ok = passed-IsScheduled s l.valid in
    let a' = same-Ahead s p t k refl a in
    elim (Bool-cases ((s.tcb s.cur).timer_slice == 0)) [
      | inl out ↦
          let (s', runs, served) = chosen-Served p t k ok a' in
          (1, (s', rw (out, runs) refl, served))
      | inr more ↦
          let b = record (s.tcb s.cur) {
            timer_slice = ((s.tcb s.cur).timer_slice + 2 ^ 16 - 10) % 2 ^ 16;
          } in
          (
            0,
            (
              set_tcb p s.cur b,
              rw more refl,
              record {
                live = record {
                  valid = ticked-IsScheduled p b ok refl refl;
                  can_run = ground (arith, l.can_run);
                };
                served = inr (k, omega arith, same-Ahead s (set_tcb p s.cur b) t k refl a);
              },
            ),
          )
    ]

yield-Served :
    (s : Scheduler) (t k : ℕ)
    → IsLive s
    → Ahead s t k
    → (c : ℕ) × ((s' : Scheduler) × (step yield_cpu s ≡ some (c, s')) × Served t k c s')
unfolding step
yield-Served s t k l a =
    let (s', runs, served) = chosen-Served s t k l.valid a in (1, (s', rw runs refl, served))

sleep-Served :
    (s : Scheduler) (t k i : ℕ)
    → IsLive s
    → Ahead s t k
    → s.cur ≢ s.idle
    → (c : ℕ) × ((s' : Scheduler) × (step (sleep_on i) s ≡ some (c, s')) × Served t k c s')
unfolding step task_sleep
sleep-Served s t k i l a ne =
    let asleep = store s.asleep i (s.cur ∷ s.asleep i) in
    let z = set_state (record s { asleep = asleep }) s.cur sleeping in
    let ok = asleep-IsScheduled s asleep l.valid ne in
    let other : (s.cur != s.idle) ≡ true = ground (arith, ne) in
    let (s', runs, served) = chosen-Served z t k ok (same-Ahead s z t k refl a) in
    (1, (s', rw (other, runs) refl, served))

woken_top :
    (s : Scheduler) (u : ℕ) → priority_of s u ≡ 3 → (woken s u).queue 3 ≡ s.queue 3 ++ (u ∷ [])
woken_top s u e = ground (arith, e)

woken-Ahead : (s : Scheduler) (u t k : ℕ) → IsLive s → Ahead s t k → Ahead (task_wakeup s u) t k
woken-Ahead s u t k l a = elim (Bool-cases (is_ready s u)) [
  | inl awake ↦ rw (wakeup-awake s u awake) a
  | inr stop ↦ rw (wakeup-woken s u l.valid stop) (elim (eq_or_ne (priority_of s u) 3) [
    | inl e ↦ Ahead-append s (woken s u) t k (u ∷ []) (woken_top s u e) a
    | inr ne ↦
        same-Ahead s (woken s u) t k (store_ne s.queue (s.queue (priority_of s u) ++ (u ∷ [])) ne) a
  ])
]

pub woken-IsLive : (s : Scheduler) (u : ℕ) → IsLive s → IsLive (task_wakeup s u)
woken-IsLive s u l = elim (Bool-cases (is_ready s u)) [
  | inl awake ↦ rw (wakeup-awake s u awake) l
  | inr stop ↦ record {
    valid = task_wakeup-IsScheduled s u l.valid l.can_run;
    can_run = rw (wakeup-woken s u l.valid stop) (ground (arith, l.can_run));
  }
]

-- An event is a sleep of the idle task, which the code refuses, or `c` choices are made in it.
step-Served :
    (e : Event) (s : Scheduler) (t k : ℕ)
    → IsLive s
    → Ahead s t k
    → (step e s ≡ none)
      ⊎ ((c : ℕ) × ((s' : Scheduler) × (step e s ≡ some (c, s')) × Served t k c s'))
unfolding step
step-Served clock s t k l a = inr (clock-Served s t k l a)
step-Served yield_cpu s t k l a = inr (yield-Served s t k l a)
step-Served (sleep_on i) s t k l a = elim (eq_or_ne s.cur s.idle) [
  | inl e ↦ let same : (s.cur != s.idle) ≡ false = ground (arith, e) in inl (rw same refl)
  | inr ne ↦ inr (sleep-Served s t k i l a ne)
]
step-Served (wake u) s t k l a = inr (
  0,
  (
    task_wakeup s u,
    refl,
    record { live = woken-IsLive s u l; served = inr (k, omega arith, woken-Ahead s u t k l a) },
  ),
)

-- The number of choices that the events make, up to one that is impossible.
unfoldable pub switches : List Event → Scheduler → ℕ
switches [] s = 0
switches (e ∷ es) s = elim (step e s) [ none ↦ 0 | some (c, s') ↦ c + switches es s' ]

-- The task `t` is the current one after one of the events.
unfoldable pub Runs : ℕ → List Event → Scheduler → Type 0
Runs t [] s = ⊥
Runs t (e ∷ es) s = elim (step e s) [ none ↦ ⊥ | some (c, s') ↦ (s'.cur ≡ t) ⊎ Runs t es s' ]

-- In a well-formed state whose current task can run, a task that stands behind `k` others in the queue of
-- the highest priority comes to run within the next `k + 1` choices of a next task, whatever clock ticks,
-- yields, sleeps and wakes of other tasks come between them.
pub waiting-Runs :
    (es : List Event) (s : Scheduler) (t k : ℕ)
    → IsLive s
    → Ahead s t k
    → k < switches es s
    → Runs t es s
unfolding switches Runs
waiting-Runs [] s t k l a more = absurd (omega (arith, more))
waiting-Runs (e ∷ es) s t k l a more = elim (step-Served e s t k l a) [
  | inl stuck ↦
      let zero_choices : switches (e ∷ es) s ≡ 0 = rw (stuck, switches) refl in
      absurd (omega (arith, more, zero_choices))
  | inr (c, (s', runs, v)) ↦
      let count : switches (e ∷ es) s ≡ c + switches es s' = rw (runs, switches) refl in
      rw (runs, Runs)
        (elim v.served [
          | inl now ↦ inl now
          | inr (m, left, a') ↦
              inr (waiting-Runs es s' t m v.live a' (omega (arith, more, count, left)))
        ])
]
