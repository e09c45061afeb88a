-- ===== src/Task/Scheduler/Reset.antt =====
-- `reset_priority` of kernel/task/schedule.c.
use mathlib.Core.List.{reverse, reverse-append}
use quark_os.Members.{has, Distinct, has-append, has-reverse, Distinct-append, Distinct-reverse}
use quark_os.Prelude.{
  ℕ, ◌≤◌, ◌<◌, ◌≡◌, ◌≢◌, refl, inl, inr, ◌⊎◌, Bool, true, false, ◌||◌, List, [], ◌∷◌, ◌++◌,
  append_assoc, arith, ◌==◌, if◌then◌else◌, store, eq_or_ne, sym, ◌∙◌, ap, leb, Bool-cases,
}
use quark_os.Task.Scheduler.{
  Scheduler, Tcb, task_max_priority, splice_loop, raise_loop, reset_priority,
}
use quark_os.Task.Scheduler.Invariant.{IsScheduled, is_ready, priority_of}

abbrev raised : Tcb → Tcb
raised t = record t { priority = task_max_priority }

-- Behind the tasks that are raised stand those that have the highest priority already.
raise_loop_lem :
    (tcb : ℕ → Tcb) (xs ys : List ℕ) (t : ℕ)
    → Distinct xs
    → ((a : ℕ) → has a xs ≡ true → (tcb a).priority ≢ task_max_priority)
    → ((a : ℕ) → has a ys ≡ true → (tcb a).priority ≡ task_max_priority)
    → raise_loop tcb (xs ++ ys) t ≡ (if has t xs then raised (tcb t) else tcb t)
unfolding raise_loop
raise_loop_lem tcb [] [] t d low top = refl
raise_loop_lem tcb [] (y ∷ ys) t d low top = ground (arith, top y)
raise_loop_lem tcb (x ∷ xs) ys t d low top =
    let rest =
      raise_loop_lem (store tcb x (raised (tcb x))) xs ys t d.1 (λ a m. ground (arith, low a, d.0))
        (λ a m. ground (arith, top a)) in
    ground (arith, rest, low x, d.0)

module _ (s : Scheduler) (ok : IsScheduled s) where
  -- the tasks below the highest priority, in their new order
  pub lower : List ℕ
  lower = s.queue 2 ++ (s.queue 1 ++ s.queue 0)

  spliced :
      (i : ℕ)
      → splice_loop s.queue 3 i
        ≡ (if i == 3 then s.queue 3 ++ lower else if leb i 3 then [] else s.queue i)
  unfolding splice_loop lower
  spliced i = ground (
    arith,
    append_assoc (s.queue 3) (s.queue 2) (s.queue 1),
    append_assoc (s.queue 3 ++ s.queue 2) (s.queue 1) (s.queue 0),
    append_assoc (s.queue 3) (s.queue 2) (s.queue 1 ++ s.queue 0),
  )

  in_lower : (t : ℕ) → has t lower ≡ (has t (s.queue 2) || has t (s.queue 1) || has t (s.queue 0))
  unfolding lower
  in_lower t = ground (
    arith,
    has-append t (s.queue 2) (s.queue 1 ++ s.queue 0),
    has-append t (s.queue 1) (s.queue 0),
  )

  -- A task that is in a lower queue has a lower priority.
  lower_low : (t : ℕ) → has t lower ≡ true → priority_of s t < 3
  lower_low t m = ground (arith, in_lower t, ok.queued 2 t, ok.queued 1 t, ok.queued 0 t)

  lower-Distinct : Distinct lower
  unfolding lower
  lower-Distinct =
      Distinct-append (s.queue 2) (s.queue 1 ++ s.queue 0) (ok.distinct 2)
        (Distinct-append (s.queue 1) (s.queue 0) (ok.distinct 1) (ok.distinct 0) (λ a m.
          elim (Bool-cases (has a (s.queue 0))) [
            | inl h ↦ ground (arith, ok.queued 1 a, ok.queued 0 a)
            | inr h ↦ h
          ]))
        (λ a m. elim (Bool-cases (has a (s.queue 1 ++ s.queue 0))) [
          | inl h ↦ ground (
            arith,
            ok.queued 2 a,
            ok.queued 1 a,
            ok.queued 0 a,
            has-append a (s.queue 1) (s.queue 0),
          )
          | inr h ↦ h
        ])

  top_reversed : reverse (splice_loop s.queue 3 3) ≡ reverse lower ++ reverse (s.queue 3)
  top_reversed = rw (spliced 3) (reverse-append (s.queue 3) lower)

  -- What `reset_priority` does to the control blocks.
  pub reset-tcb :
      (t : ℕ) → (reset_priority s).tcb t ≡ (if has t lower then raised (s.tcb t) else s.tcb t)
  unfolding reset_priority
  reset-tcb t = rw top_reversed (
      raise_loop_lem s.tcb (reverse lower) (reverse (s.queue 3)) t
        (Distinct-reverse lower lower-Distinct)
        (λ a m. omega (arith, lower_low a (sym (has-reverse a lower) ∙ m)))
        (λ a m. (ok.queued 3 a (sym (has-reverse a (s.queue 3)) ∙ m)).1)
      ∙ ap (λ (b : Bool). if b then raised (s.tcb t) else s.tcb t) (has-reverse t lower))

  pub reset-queue :
      (i : ℕ)
      → (reset_priority s).queue i
        ≡ (if i == 3 then s.queue 3 ++ lower else if leb i 3 then [] else s.queue i)
  unfolding reset_priority
  reset-queue i = spliced i

  ready-reset : (t : ℕ) → is_ready (reset_priority s) t ≡ is_ready s t
  ready-reset t = ground (arith, reset-tcb t)

  queued-reset :
      (i t : ℕ)
      → has t ((reset_priority s).queue i) ≡ true
      → (i ≡ 3) × ((has t (s.queue 3) ≡ true) ⊎ (has t lower ≡ true))
  queued-reset i t m = elim (eq_or_ne i 3) [
    | inl e ↦ (
      e,
      elim (Bool-cases (has t (s.queue 3))) [
        | inl h ↦ inl h
        | inr h ↦ inr (ground (arith, reset-queue i, has-append t (s.queue 3) lower))
      ],
    )
    | inr ne ↦ absurd (ground (arith, reset-queue i, ok.queued i t))
  ]

  cur-reset : (reset_priority s).cur ≡ s.cur
  unfolding reset_priority
  cur-reset = refl

  idle-reset : (reset_priority s).idle ≡ s.idle
  unfolding reset_priority
  idle-reset = refl

  -- Every queued task is one of the highest priority or a raised one.
  somewhere :
      (t p : ℕ)
      → p ≤ 3
      → has t (s.queue p) ≡ true
      → (has t (s.queue 3) ≡ true) ⊎ (has t lower ≡ true)
  somewhere t p small m = elim (eq_or_ne p 3) [
    | inl e ↦ inl (rw e at m)
    | inr ne ↦ elim (eq_or_ne p 2) [
      | inl e ↦ inr (ground (arith, in_lower t, rw e at m))
      | inr ne₂ ↦ elim (eq_or_ne p 1) [
        | inl e ↦ inr (ground (arith, in_lower t, rw e at m))
        | inr ne₁ ↦ let e : p ≡ 0 = omega arith in inr (ground (arith, in_lower t, rw e at m))
      ]
    ]
  ]

  -- Such a task has the highest priority now.
  top_now :
      (t : ℕ)
      → (has t (s.queue 3) ≡ true) ⊎ (has t lower ≡ true)
      → (priority_of (reset_priority s) t ≡ 3)
        × (is_ready s t ≡ true)
        × (t ≢ s.cur)
        × (has t ((reset_priority s).queue 3) ≡ true)
  top_now t (inl m) = (
    ground (arith, reset-tcb t, ok.queued 3 t),
    ground (arith, ok.queued 3 t),
    λ e. ground (arith, ok.queued 3 t),
    ground (arith, reset-queue 3, has-append t (s.queue 3) lower),
  )
  top_now t (inr m) =
      let parts = in_lower t in
      (
        ground (arith, reset-tcb t),
        ground (arith, parts, ok.queued 2 t, ok.queued 1 t, ok.queued 0 t),
        λ e. ground (arith, parts, ok.queued 2 t, ok.queued 1 t, ok.queued 0 t),
        ground (arith, reset-queue 3, has-append t (s.queue 3) lower),
      )

  apart : (a : ℕ) → has a (s.queue 3) ≡ true → has a lower ≡ false
  apart a m = elim (Bool-cases (has a lower)) [
    | inl h ↦ absurd (omega (arith, lower_low a h, ok.queued 3 a m))
    | inr h ↦ h
  ]

  pub reset-IsScheduled : IsScheduled (reset_priority s)
  reset-IsScheduled = record {
    queued = λ i t m.
        let (e, at) = queued-reset i t m in
        let (p, r, ne, there) = top_now t at in
        (omega (arith, e), p ∙ sym e, ready-reset t ∙ r, λ same. ne (same ∙ cur-reset));
    distinct = λ i. elim (eq_or_ne i 3) [
      | inl e ↦
          let q : (reset_priority s).queue i ≡ s.queue 3 ++ lower = ground (arith, reset-queue i) in
          rw q (Distinct-append (s.queue 3) lower (ok.distinct 3) lower-Distinct apart)
      | inr ne ↦ elim (Bool-cases (leb i 3)) [
        | inl small ↦
            let q : (reset_priority s).queue i ≡ [] = ground (arith, reset-queue i) in rw q tt
        | inr big ↦
            let q : (reset_priority s).queue i ≡ s.queue i = ground (arith, reset-queue i) in
            rw q (ok.distinct i)
      ]
    ];
    ready = λ t r. elim (ok.ready t (sym (ready-reset t) ∙ r)) [
      | inl e ↦ inl (e ∙ sym cur-reset)
      | inr (inl e) ↦ inr (inl (e ∙ sym idle-reset))
      | inr (inr m) ↦
          let (p, r', ne, there) = top_now t (somewhere t (priority_of s t) (ok.bounded t) m) in
          inr (inr (rw p there))
    ];
    idle_ready = rw idle-reset (ready-reset s.idle ∙ ok.idle_ready);
    bounded = λ t. ground (arith, reset-tcb t, ok.bounded t);
  }
