-- ===== src/Task/Scheduler/Switch.antt =====
-- The switch to the chosen task in kernel/task/schedule.c.
use quark_os.Members.{has, has-append, Distinct-snoc}
use quark_os.Prelude.{
  ℕ, ◌≤◌, ◌≡◌, ◌≢◌, refl, inl, inr, ◌⊎◌, true, false, ◌||◌, ◌&&◌, List, [], ◌∷◌, ◌++◌, arith, ◌==◌,
  store, store_self, store_ne, eq_or_ne, sym, ◌∙◌, ap, Bool-cases, subst,
}
use quark_os.Task.Scheduler.{
  Scheduler, Tcb, is_running, task_max_priority, set_tcb, sched_task_add, demoted, retire,
}
use quark_os.Task.Scheduler.Invariant.{IsScheduled, is_ready, priority_of}
use quark_os.Task.Scheduler.Choice.{Chosen}

pub demoted-state : (t : Tcb) → (demoted t).state ≡ t.state
unfolding demoted
demoted-state t = ground arith

demoted-priority : (t : Tcb) → t.priority ≤ 3 → (demoted t).priority ≤ 3
unfolding demoted
demoted-priority t h = ground arith

-- The task that was current goes behind the queue of its new priority.
abbrev pub requeued : Scheduler → Tcb → Scheduler
requeued s t = record s {
  tcb = store s.tcb s.cur t;
  queue = store s.queue t.priority (s.queue t.priority ++ (s.cur ∷ []));
}

-- The three ways that `retire` can go.
pub data Retires (s : Scheduler) : Scheduler → Type 0 where
  at_idle : s.cur ≡ s.idle → Retires s s
  stopped :
      s.cur ≢ s.idle
      → is_ready s s.cur ≡ false
      → Retires s (set_tcb s s.cur (demoted (s.tcb s.cur)))
  put_back :
      s.cur ≢ s.idle → is_ready s s.cur ≡ true → Retires s (requeued s (demoted (s.tcb s.cur)))

add_current : (s : Scheduler) (t : Tcb) → sched_task_add (set_tcb s s.cur t) s.cur ≡ requeued s t
unfolding sched_task_add
add_current s t = let e = store_self s.tcb s.cur t in rw e refl

pub retire-Retires : (s : Scheduler) → Retires s (retire s s.cur)
unfolding retire
retire-Retires s = elim (eq_or_ne s.cur s.idle) [
  | inl e ↦ let same : (s.cur == s.idle) ≡ true = ground arith in rw same (at_idle e)
  | inr ne ↦
      let other : (s.cur == s.idle) ≡ false = ground arith in
      let state = demoted-state (s.tcb s.cur) in
      elim (Bool-cases (is_ready s s.cur)) [
        | inl go ↦ rw (other, state, go, add_current s (demoted (s.tcb s.cur))) (put_back ne go)
        | inr stop ↦ rw (other, state, stop) (stopped ne stop)
      ]
]

module _ (s : Scheduler) (t : ℕ) (queue : ℕ → List ℕ) (ok : IsScheduled s)
    (c : Chosen s t queue) where
  -- The state in which the choice is made.
  abbrev chosen : Scheduler
  chosen = record s { queue = queue }

  queued-chosen :
      (i x : ℕ)
      → has x (queue i) ≡ true
      → (i ≤ task_max_priority)
        × (priority_of s x ≡ i)
        × (is_ready s x ≡ true)
        × (x ≢ s.cur)
        × (x ≢ t)
  queued-chosen i x m =
      let (small, p, r, ne) = ok.queued i x (c.fewer i x m) in
      (small, p, r, ne, λ e. ground (arith, c.gone i))

  -- A task that can run is the chosen one, the current one, the idle one, or on its queue.
  ready-chosen :
      (x : ℕ)
      → is_ready s x ≡ true
      → (x ≡ t) ⊎ (x ≡ s.cur) ⊎ (x ≡ s.idle) ⊎ (has x (queue (priority_of s x)) ≡ true)
  ready-chosen x r = elim (ok.ready x r) [
    | inl e ↦ inr (inl e)
    | inr (inl e) ↦ inr (inr (inl e))
    | inr (inr m) ↦ elim (eq_or_ne x t) [
      | inl e ↦ inl e
      | inr ne ↦ inr (inr (inr (c.others (priority_of s x) x ne m)))
    ]
  ]

  pub idle-IsScheduled : s.cur ≡ s.idle → IsScheduled (record chosen { cur = t })
  idle-IsScheduled at = record {
    queued = λ i x m. let (small, p, r, ne, ne') = queued-chosen i x m in (small, p, r, ne');
    distinct = c.distinct;
    ready = λ x r. elim (ready-chosen x r) [
      | inl e ↦ inl e
      | inr (inl e) ↦ inr (inl (e ∙ at))
      | inr (inr (inl e)) ↦ inr (inl e)
      | inr (inr (inr m)) ↦ inr (inr m)
    ];
    idle_ready = ok.idle_ready;
    bounded = ok.bounded;
  }

  module _ (b : Tcb) (low : b.priority ≤ 3) (state : is_running b.state ≡ is_ready s s.cur) where
    other_tcb : (x : ℕ) → x ≢ s.cur → store s.tcb s.cur b x ≡ s.tcb x
    other_tcb x ne = store_ne s.tcb b (λ e. ne (sym e))

    stopped-IsScheduled :
        s.cur ≢ s.idle
        → is_ready s s.cur ≡ false
        → IsScheduled (record (set_tcb chosen s.cur b) { cur = t })
    stopped-IsScheduled ne stop = record {
      queued = λ i x m.
          let (small, p, r, ne₁, ne') = queued-chosen i x m in
          let e = other_tcb x ne₁ in (small, ground (arith, e, p), ground (arith, e, r), ne');
      distinct = c.distinct;
      ready = λ x r. elim (eq_or_ne x s.cur) [
        | inl e ↦ absurd (ground (arith, state, stop))
        | inr ne₁ ↦
            let e = other_tcb x ne₁ in
            elim (ready-chosen x (ground (arith, e, r))) [
              | inl at ↦ inl at
              | inr (inl at) ↦ absurd (ne₁ at)
              | inr (inr (inl at)) ↦ inr (inl at)
              | inr (inr (inr m)) ↦
                  let p = ap (λ (y : Tcb). y.priority) e in
                  inr (inr (subst (λ (i : ℕ). has x (queue i) ≡ true) (sym p) m))
            ]
      ];
      idle_ready = ground (arith, ok.idle_ready, other_tcb s.idle);
      bounded = λ x. ground (arith, ok.bounded x);
    }

    fresh : s.cur ≢ s.idle → t ≢ s.cur
    fresh ne = elim c.fresh [ inl h ↦ h | inr h ↦ λ e. ne (sym e ∙ h) ]

    has-requeued :
        (i x : ℕ)
        → has x ((requeued chosen b).queue i)
          ≡ (has x (queue i) || ((b.priority == i) && (x == s.cur)))
    has-requeued i x = ground (arith, has-append x (queue b.priority) (s.cur ∷ []))

    unqueued : (i : ℕ) → has s.cur (queue i) ≡ false
    unqueued i = elim (Bool-cases (has s.cur (queue i))) [
      | inl m ↦ ground (arith, queued-chosen i s.cur m)
      | inr h ↦ h
    ]

    put-IsScheduled :
        s.cur ≢ s.idle
        → is_ready s s.cur ≡ true
        → IsScheduled (record (requeued chosen b) { cur = t })
    put-IsScheduled ne go = record {
      queued = λ i x m. elim (eq_or_ne x s.cur) [
        | inl e ↦
            let at : b.priority ≡ i = ground (arith, has-requeued i x, unqueued i) in
            (
              omega (arith, at, low),
              ground arith,
              ground (arith, state, go),
              λ same. fresh ne (sym same ∙ e),
            )
        | inr ne₁ ↦
            let old : has x (queue i) ≡ true = ground (arith, has-requeued i x) in
            let (small, p, r, ne₂, ne') = queued-chosen i x old in
            let e = other_tcb x ne₁ in (small, ground (arith, e, p), ground (arith, e, r), ne')
      ];
      distinct = λ i. elim (eq_or_ne b.priority i) [
        | inl e ↦
            let q : (requeued chosen b).queue i ≡ queue b.priority ++ (s.cur ∷ []) = ground arith in
            rw q
              (Distinct-snoc (queue b.priority) s.cur (c.distinct b.priority) (unqueued b.priority))
        | inr ne₁ ↦
            let q : (requeued chosen b).queue i ≡ queue i = ground arith in rw q (c.distinct i)
      ];
      ready = λ x r. elim (eq_or_ne x s.cur) [
        | inl e ↦
            let p : priority_of (requeued chosen b) x ≡ b.priority = ground arith in
            inr (
              inr (
                subst (λ (i : ℕ). has x ((requeued chosen b).queue i) ≡ true) (sym p)
                  (ground (arith, has-requeued b.priority x))))
        | inr ne₁ ↦
            let e = other_tcb x ne₁ in
            elim (ready-chosen x (ground (arith, e, r))) [
              | inl at ↦ inl at
              | inr (inl at) ↦ absurd (ne₁ at)
              | inr (inr (inl at)) ↦ inr (inl at)
              | inr (inr (inr m)) ↦
                  let p = ap (λ (y : Tcb). y.priority) e in
                  inr (
                    inr (
                      subst (λ (i : ℕ). has x ((requeued chosen b).queue i) ≡ true) (sym p)
                        (ground (arith, has-requeued (priority_of s x) x, m))))
            ]
      ];
      idle_ready = ground (arith, ok.idle_ready, other_tcb s.idle);
      bounded = λ x. ground (arith, ok.bounded x);
    }

  pub Retires-IsScheduled :
      {s' : Scheduler}
      → Retires chosen s'
      → IsScheduled (record s' { cur = t }) × (is_ready s' t ≡ true)
  Retires-IsScheduled (at_idle at) = (idle-IsScheduled at, c.can_run)
  Retires-IsScheduled (stopped ne stop) =
      let state = ap is_running (demoted-state (s.tcb s.cur)) in
      let low = demoted-priority (s.tcb s.cur) (ok.bounded s.cur) in
      (
        stopped-IsScheduled (demoted (s.tcb s.cur)) low state ne stop,
        ground (arith, state, c.can_run),
      )
  Retires-IsScheduled (put_back ne go) =
      let state = ap is_running (demoted-state (s.tcb s.cur)) in
      let low = demoted-priority (s.tcb s.cur) (ok.bounded s.cur) in
      (put-IsScheduled (demoted (s.tcb s.cur)) low state ne go, ground (arith, state, c.can_run))
