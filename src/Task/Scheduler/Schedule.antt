-- ===== src/Task/Scheduler/Schedule.antt =====
-- `schedule` of kernel/task/schedule.c, and `task_sleep` and `task_wakeup` of kernel/task/fork.c.
use quark_os.Members.{has, without, has-append, Distinct-snoc, without-absent}
use quark_os.Prelude.{
  ℕ, ◌≡◌, ◌≢◌, refl, inl, inr, true, false, ◌||◌, ◌&&◌, List, [], ◌∷◌, ◌++◌, arith, ◌==◌, store,
  store_self, eq_or_ne, sym, ◌∙◌, ap, leb, Bool-cases, subst, fun_ext, some,
}
use quark_os.Task.Scheduler.{
  Scheduler, running, sleeping, set_state, sched_task_add, chose_next_task, retire, switch,
  schedule, refresh, task_sleep, task_wakeup,
}
use quark_os.Task.Scheduler.Invariant.{IsScheduled, is_ready, priority_of}
use quark_os.Task.Scheduler.Reset.{reset-IsScheduled}
use quark_os.Task.Scheduler.Choice.{Choice, chose-Choice, Chosen, Choice-Chosen}
use quark_os.Task.Scheduler.Kept.{schedule-Keeps}
use quark_os.Task.Scheduler.Switch.{retire-Retires, idle-IsScheduled, Retires-IsScheduled}

pub refresh-IsScheduled : (s : Scheduler) → IsScheduled s → IsScheduled (refresh s)
unfolding refresh
refresh-IsScheduled s ok = elim (Bool-cases (leb s.update_priority_time s.time_since_boot)) [
  | inl due ↦
      let r = reset-IsScheduled s ok in
      rw due (record {
        queued = r.queued;
        distinct = r.distinct;
        ready = r.ready;
        idle_ready = r.idle_ready;
        bounded = r.bounded;
      })
  | inr early ↦ rw early ok
]

-- After a switch to the chosen task.
pub record Switched (s : Scheduler) (t : ℕ) (queue : ℕ → List ℕ) (s' : Scheduler) : Type 0 where
  pub runs : switch t (record s { queue = queue }) ≡ some s'
  pub valid : IsScheduled s'
  pub current : s'.cur ≡ t
  pub can_run : is_ready s' s'.cur ≡ true

module _ (s : Scheduler) (t : ℕ) (queue : ℕ → List ℕ) (ok : IsScheduled s)
    (c : Chosen s t queue) where
  chosen : Scheduler
  chosen = record s { queue = queue }

  switch-Switched : (s' : Scheduler) × Switched s t queue s'
  unfolding switch chosen
  switch-Switched = elim (Bool-cases (t == s.idle && s.cur == s.idle)) [
    | inl stay ↦
        let at : s.cur ≡ s.idle = ground arith in
        let same : t ≡ s.cur = ground arith in
        (
          chosen,
          record {
            runs = rw stay refl;
            valid = rw same at (idle-IsScheduled s t queue ok c at);
            current = sym same;
            can_run = rw same at c.can_run;
          },
        )
    | inr go ↦
        let s' = retire chosen s.cur in
        let (valid, can_run) = Retires-IsScheduled s t queue ok c (retire-Retires chosen) in
        (
          record s' { cur = t },
          record { runs = rw (go, can_run) refl; valid = valid; current = refl; can_run = can_run },
        )
  ]

-- From a well-formed state `schedule` never panics. The state is well-formed afterwards, so no task that
-- can run is lost, and the new current task can run. It is the first of the highest queue that is not
-- empty once priorities that are due have been reset, or the idle task if all queues are empty.
pub schedule-IsScheduled :
    (s : Scheduler)
    → IsScheduled s
    → (s' : Scheduler) × (schedule s ≡ some s')
      × IsScheduled s'
      × (is_ready s' s'.cur ≡ true)
      × ((left : Scheduler) × Choice (refresh s) s'.cur left)
unfolding schedule
schedule-IsScheduled s ok =
    let ok' = refresh-IsScheduled s ok in
    let pick = chose-Choice (refresh s) in
    let (queue, is, c) = Choice-Chosen (refresh s) ok' pick in
    let t = (chose_next_task (refresh s)).0 in
    let (s', w) = switch-Switched (refresh s) t queue ok' c in
    (
      s',
      ap (switch t) is ∙ w.runs,
      w.valid,
      w.can_run,
      (
        (chose_next_task (refresh s)).1,
        subst (λ (x : ℕ). Choice (refresh s) x (chose_next_task (refresh s)).1) (sym w.current)
            pick,
      ),
    )

-- The current task, if it is not the idle one, falls asleep.
pub asleep-IsScheduled :
    (s : Scheduler) (l : ℕ → List ℕ)
    → IsScheduled s
    → s.cur ≢ s.idle
    → IsScheduled (set_state (record s { asleep = l }) s.cur sleeping)
asleep-IsScheduled s l ok ne = record {
  queued =
      λ i t m. let (small, p, r, ne') = ok.queued i t m in (small, ground arith, ground arith, ne');
  distinct = ok.distinct;
  ready = λ t r. elim (eq_or_ne t s.cur) [
    | inl e ↦ inl e
    | inr ne' ↦ elim (ok.ready t (ground arith)) [
      | inl e ↦ inl e
      | inr (inl e) ↦ inr (inl e)
      | inr (inr m) ↦
          let e : priority_of (set_state (record s { asleep = l }) s.cur sleeping) t
              ≡ priority_of s t =
            ground arith in
          inr (inr (subst (λ (i : ℕ). has t (s.queue i) ≡ true) (sym e) m))
    ]
  ];
  idle_ready = ground (arith, ok.idle_ready);
  bounded = λ t. ground (arith, ok.bounded t);
}

-- From a well-formed state in which the current task is not the idle one, `task_sleep` on the list `l`
-- never panics and leads to a well-formed state whose current task can run. The task that was current
-- sleeps then and is the first of the list `l`; no other list of sleeping tasks changes, and no other
-- task's state.
pub task_sleep-IsScheduled :
    (s : Scheduler) (l : ℕ)
    → IsScheduled s
    → s.cur ≢ s.idle
    → (s' : Scheduler) × (task_sleep s l ≡ some s')
      × IsScheduled s'
      × (is_ready s' s'.cur ≡ true)
      × (s'.asleep ≡ store s.asleep l (s.cur ∷ s.asleep l))
      × ((s'.tcb s.cur).state ≡ sleeping)
      × ((t : ℕ) → t ≢ s.cur → (s'.tcb t).state ≡ (s.tcb t).state)
unfolding task_sleep
task_sleep-IsScheduled s l ok ne =
    let asleep = store s.asleep l (s.cur ∷ s.asleep l) in
    let listed = set_state (record s { asleep = asleep }) s.cur sleeping in
    let ok' = asleep-IsScheduled s asleep ok ne in
    let (s', runs, valid, can_run, pick) = schedule-IsScheduled listed ok' in
    let kept = schedule-Keeps listed s' ok' runs in
    (
      s',
      runs,
      valid,
      can_run,
      kept.asleep,
      ground (arith, kept.state s.cur),
      λ t other. ground (arith, kept.state t),
    )

-- `task_wakeup` of a task that does not run, which is on no queue.
abbrev pub woken : Scheduler → ℕ → Scheduler
woken s u =
    let i = priority_of s u in
    record s {
      tcb = store s.tcb u (record (s.tcb u) { state = running });
      queue = store s.queue i (s.queue i ++ (u ∷ []));
      asleep = λ l. without u (s.asleep l);
    }

unqueued :
    (s : Scheduler) (u i : ℕ) → IsScheduled s → is_ready s u ≡ false → has u (s.queue i) ≡ false
unqueued s u i ok stop = elim (Bool-cases (has u (s.queue i))) [
  | inl m ↦ ground (arith, ok.queued i u m)
  | inr h ↦ h
]

pub wakeup-woken :
    (s : Scheduler) (u : ℕ) → IsScheduled s → is_ready s u ≡ false → task_wakeup s u ≡ woken s u
unfolding task_wakeup sched_task_add
wakeup-woken s u ok stop =
    let e = fun_ext (λ i. without-absent u (s.queue i) (unqueued s u i ok stop)) in
    let at = store_self s.tcb u (record (s.tcb u) { state = running }) in
    let i = priority_of s u in
    let e' = without-absent u (s.queue i) (unqueued s u i ok stop) in rw (stop, e, at, e') refl

pub wakeup-awake : (s : Scheduler) (u : ℕ) → is_ready s u ≡ true → task_wakeup s u ≡ s
unfolding task_wakeup
wakeup-awake s u awake = rw awake refl

woken-IsScheduled :
    (s : Scheduler) (u : ℕ)
    → IsScheduled s
    → is_ready s s.cur ≡ true
    → is_ready s u ≡ false
    → IsScheduled (woken s u)
woken-IsScheduled s u ok live stop =
    let p = priority_of s u in
    let ne : u ≢ s.cur = λ e. ground arith in
    let at = store_self s.tcb u (record (s.tcb u) { state = running }) in
    let has-woken : (i x : ℕ)
        → has x (store s.queue p (s.queue p ++ (u ∷ [])) i)
          ≡ (has x (s.queue i) || ((p == i) && (x == u))) =
      λ i x. ground (arith, has-append x (s.queue p) (u ∷ [])) in
    record {
      queued = λ i x m. elim (eq_or_ne x u) [
        | inl e ↦
            let here : p ≡ i = ground (arith, has-woken i x, unqueued s u i ok stop) in
            (
              omega (arith, here, ok.bounded u),
              ground arith,
              ground arith,
              λ same. ne (sym e ∙ same),
            )
        | inr other ↦
            let old : has x (s.queue i) ≡ true = ground (arith, has-woken i x) in
            let (small, q, r, ne') = ok.queued i x old in (small, ground arith, ground arith, ne')
      ];
      distinct = λ i. elim (eq_or_ne p i) [
        | inl e ↦
            let q : store s.queue p (s.queue p ++ (u ∷ [])) i ≡ s.queue p ++ (u ∷ []) =
              ground arith in
            rw q (Distinct-snoc (s.queue p) u (ok.distinct p) (unqueued s u p ok stop))
        | inr other ↦
            let q : store s.queue p (s.queue p ++ (u ∷ [])) i ≡ s.queue i = ground arith in
            rw q (ok.distinct i)
      ];
      ready = λ x r. elim (eq_or_ne x u) [
        | inl e ↦
            let q : priority_of (woken s u) x ≡ p = ground arith in
            inr (
              inr (
                subst (λ (i : ℕ). has x (store s.queue p (s.queue p ++ (u ∷ [])) i) ≡ true) (sym q)
                  (ground (arith, has-woken p x))))
        | inr other ↦ elim (ok.ready x (ground arith)) [
          | inl e ↦ inl e
          | inr (inl e) ↦ inr (inl e)
          | inr (inr m) ↦
              let q : priority_of (woken s u) x ≡ priority_of s x = ground arith in
              inr (
                inr (
                  subst (λ (i : ℕ). has x (store s.queue p (s.queue p ++ (u ∷ [])) i) ≡ true)
                    (sym q) (ground (arith, has-woken (priority_of s x) x, m))))
        ]
      ];
      idle_ready = ground (arith, ok.idle_ready);
      bounded = λ x. ground (arith, ok.bounded x);
    }

pub task_wakeup-IsScheduled :
    (s : Scheduler) (u : ℕ)
    → IsScheduled s
    → is_ready s s.cur ≡ true
    → IsScheduled (task_wakeup s u)
task_wakeup-IsScheduled s u ok live = elim (Bool-cases (is_ready s u)) [
  | inl awake ↦ rw (wakeup-awake s u awake) ok
  | inr stop ↦ rw (wakeup-woken s u ok stop) (woken-IsScheduled s u ok live stop)
]
