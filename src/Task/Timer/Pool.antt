-- ===== src/Task/Timer/Pool.antt =====
-- The clock interrupt of kernel/task/timer.c keeps the timers and the scheduler in order.
use quark_os.Members.{
  has, Distinct, without, Distinct-middle, has-append, has-without_self, has-without_ne,
  length-without,
}
use quark_os.Prelude.{
  ℕ, ◌+◌, ◌-◌, ◌%◌, ◌^◌, ◌<◌, ◌≡◌, ◌≢◌, refl, inl, inr, true, false, some, List, [], ◌∷◌, ◌++◌, leb,
  ◌==◌, ◌!=◌, if◌then◌else◌, store, store_ne, arith, sym, ◌∙◌, ap, length, length-append,
  Bool-cases, eq_or_ne, append_assoc, subst,
}
use quark_os.Task.Scheduler.{Scheduler, task_wakeup, run_down, pass_time, set_tcb, Tcb}
use quark_os.Task.Scheduler.Schedule.{schedule-IsScheduled}
use quark_os.Task.Scheduler.Waiting.{IsLive}
use quark_os.Task.Scheduler.Waiting.Events.{woken-IsLive, ticked-IsScheduled, passed-IsScheduled}
use quark_os.Task.Timer.{Timer, TimerPool, free_timer, expire, fire_loop, clock_isr}

-- Each timer is on the stack or runs, once.
pub record IsPool (p : TimerPool) : Type 0 where
  pub once : Distinct p.header
  pub idle : (i : ℕ) → i < p.top → has (p.slot i) p.header ≡ false
  pub apart : (i j : ℕ) → i < p.top → j < p.top → p.slot i ≡ p.slot j → i ≡ j
  pub total : length p.header + p.top ≡ p.size

-- The timers whose time has not come.
abbrev pub pending : (ℕ → Timer) → ℕ → List ℕ → List ℕ
pending timer now [] = []
pending timer now (t ∷ ts) =
    if leb (timer t).time now then pending timer now ts else t ∷ pending timer now ts

without-middle : (x : ℕ) (xs ys : List ℕ) → has x xs ≡ false → without x (xs ++ (x ∷ ys)) ≡ xs ++ ys
without-middle x [] ys out = ground arith
without-middle x (y ∷ xs) ys out = ground (arith, without-middle x xs ys)

expire-IsPool :
    (p : TimerPool) (t : ℕ) (kept ts : List ℕ)
    → IsPool p
    → p.header ≡ kept ++ (t ∷ ts)
    → IsPool (expire p t) × ((expire p t).header ≡ kept ++ ts) × ((expire p t).timer ≡ p.timer)
unfolding expire free_timer
expire-IsPool p t kept ts ok at =
    let (whole, out, left, right, sep) =
      Distinct-middle kept ts t (subst (λ l. Distinct l) at ok.once) in
    let absent : has t kept ≡ false = ground (arith, out, has-append t kept ts) in
    let gone : without t p.header ≡ kept ++ ts =
      ap (λ l. without t l) at ∙ without-middle t kept ts absent in
    let room : (p.top != p.size) ≡ true =
      ground (arith, ok.total, ap (λ (l : List ℕ). length l) at, length-append kept (t ∷ ts)) in
    let on : has t p.header ≡ true =
      ap (λ l. has t l) at ∙ ground (arith, has-append t kept (t ∷ ts)) in
    rw room (
      record {
        once = rw gone whole;
        idle = λ i h. elim (eq_or_ne i p.top) [
          | inl e ↦
              let same : store p.slot p.top t i ≡ t = ground (arith, e) in
              rw same (has-without_self t p.header ok.once)
          | inr ne ↦
              let same : store p.slot p.top t i ≡ p.slot i = store_ne p.slot t (λ e. ne (sym e)) in
              let low : i < p.top = omega (arith, h, ne) in
              let other : p.slot i ≢ t = λ e. ground (arith, e, ok.idle i low, on) in
              rw same (has-without_ne t (p.slot i) p.header other ∙ ok.idle i low)
        ];
        apart = λ i j h k e. elim (eq_or_ne i p.top) [
          | inl at_top ↦ elim (eq_or_ne j p.top) [
            | inl too ↦ at_top ∙ sym too
            | inr below ↦ ground (arith, e, at_top, ok.idle j (omega (arith, k, below)), on)
          ]
          | inr below ↦ elim (eq_or_ne j p.top) [
            | inl at_top ↦ ground (arith, e, at_top, ok.idle i (omega (arith, h, below)), on)
            | inr too ↦ ok.apart i j (omega (arith, h, below)) (omega (arith, k, too)) (
                sym (store_ne p.slot t (λ x. below (sym x)))
                ∙ e
                ∙ store_ne p.slot t (λ x. too (sym x)))
          ]
        ];
        total = omega (arith, ok.total, length-without t p.header on);
      },
      gone,
      refl,
    )

wakeup_time : (s : Scheduler) (u : ℕ) → (task_wakeup s u).time_since_boot ≡ s.time_since_boot
unfolding task_wakeup
wakeup_time s u = ground arith

-- What the loop does to the timers and the scheduler.
record Fires (p : TimerPool) (left : List ℕ) (r : TimerPool × Scheduler) : Type 0 where
  pool : IsPool r.0
  live : IsLive r.1
  header : r.0.header ≡ left

fire_loop-Fires :
    (kept ts : List ℕ) (p : TimerPool) (s : Scheduler)
    → IsPool p
    → IsLive s
    → p.header ≡ kept ++ ts
    → Fires p (kept ++ pending p.timer s.time_since_boot ts) (fire_loop ts p s)
unfolding fire_loop
fire_loop-Fires kept [] p s ok l at = record { pool = ok; live = l; header = at }
fire_loop-Fires kept (t ∷ ts) p s ok l at =
    elim (Bool-cases (leb (p.timer t).time s.time_since_boot)) [
      | inl due ↦
          let (ok', at', same) = expire-IsPool p t kept ts ok at in
          let s' = task_wakeup s (p.timer t).thread in
          let f =
            fire_loop-Fires kept ts (expire p t) s' ok' (woken-IsLive s (p.timer t).thread l) at' in
          let e : pending (expire p t).timer s'.time_since_boot ts
              ≡ pending p.timer s.time_since_boot ts =
            ap (λ (x : ℕ → Timer). pending x s'.time_since_boot ts) same
            ∙ ap (λ (x : ℕ). pending p.timer x ts) (wakeup_time s (p.timer t).thread) in
          rw due (record {
            pool = f.pool;
            live = f.live;
            header = f.header ∙ ap (λ (l : List ℕ). kept ++ l) e;
          })
      | inr early ↦
          let assoc = append_assoc kept (t ∷ []) ts in
          let f = fire_loop-Fires (kept ++ (t ∷ [])) ts p s ok l (at ∙ sym assoc) in
          rw early (record {
            pool = f.pool;
            live = f.live;
            header = f.header ∙ append_assoc kept (t ∷ []) (pending p.timer s.time_since_boot ts);
          })
    ]

run_down-IsLive : (s : Scheduler) → IsLive s → (s' : Scheduler) × (run_down s ≡ some s') × IsLive s'
unfolding run_down
run_down-IsLive s l = elim (Bool-cases ((s.tcb s.cur).timer_slice == 0)) [
  | inl out ↦
      let (s', runs, valid, can_run, pick) = schedule-IsScheduled s l.valid in
      (s', rw (out, runs) refl, record { valid = valid; can_run = can_run })
  | inr more ↦
      let b : Tcb = record (s.tcb s.cur) {
        timer_slice = ((s.tcb s.cur).timer_slice + 2 ^ 16 - 10) % 2 ^ 16;
      } in
      (
        set_tcb s s.cur b,
        rw more refl,
        record {
          valid = ticked-IsScheduled s b l.valid refl refl;
          can_run = ground (arith, l.can_run);
        },
      )
]

passed-IsLive : (s : Scheduler) → IsLive s → IsLive (pass_time s)
unfolding pass_time
passed-IsLive s l = record { valid = passed-IsScheduled s l.valid; can_run = l.can_run }

-- From a well-formed scheduler whose current task can run and a well-formed pool of timers, the clock interrupt
-- does not panic and leaves both well-formed, with a current task that can run; exactly the timers whose time is
-- later than the new time are left, in order.
pub clock_isr-IsPool :
    (p : TimerPool) (s : Scheduler)
    → IsPool p
    → IsLive s
    → (p' : TimerPool) × ((s' : Scheduler) × (clock_isr p s ≡ some (p', s'))
        × IsPool p'
        × IsLive s'
        × (p'.header ≡ pending p.timer ((s.time_since_boot + 10) % 2 ^ 64) p.header))
unfolding clock_isr pass_time
clock_isr-IsPool p s ok l =
    let f = fire_loop-Fires [] p.header p (pass_time s) ok (passed-IsLive s l) refl in
    let r = fire_loop p.header p (pass_time s) in
    let (s', runs, live) = run_down-IsLive r.1 f.live in
    (r.0, (s', rw runs refl, f.pool, live, f.header))
