-- ===== src/Task/Scheduler/Choice.antt =====
-- The choice of the next task in kernel/task/schedule.c.
use quark_os.Members.{has, Distinct}
use quark_os.Prelude.{
  ℕ, zero, suc, ◌≤◌, ◌<◌, ◌≡◌, ◌≢◌, refl, inl, inr, ◌⊎◌, true, false, List, [], ◌∷◌, arith, store,
  eq_or_ne, sym, ◌∙◌, Bool-cases, subst, List-cases,
}
use quark_os.Task.Scheduler.{Scheduler, task_max_priority, chose_loop, chose_next_task}
use quark_os.Task.Scheduler.Invariant.{IsScheduled, is_ready}

-- What the choice is: the first task of the highest queue that is not empty, or the idle task.
pub data Choice (s : Scheduler) : ℕ → Scheduler → Type 0 where
  pick :
      (i t : ℕ) (rest : List ℕ)
      → i ≤ task_max_priority
      → s.queue i ≡ t ∷ rest
      → ((j : ℕ) → i < j → j ≤ task_max_priority → s.queue j ≡ [])
      → Choice s t (record s { queue = store s.queue i rest })
  idle_left : ((j : ℕ) → j ≤ task_max_priority → s.queue j ≡ []) → Choice s s.idle s

chose_loop-Choice :
    (s : Scheduler) (n : ℕ)
    → n ≤ 4
    → ((j : ℕ) → n ≤ j → j ≤ task_max_priority → s.queue j ≡ [])
    → Choice s (chose_loop s n).0 (chose_loop s n).1
unfolding chose_loop
chose_loop-Choice s zero small empty = idle_left (λ j h. empty j (omega arith) h)
chose_loop-Choice s (suc n) small empty = elim (List-cases (s.queue n)) [
  | inl none_here ↦
      rw (none_here, chose_loop)
        (chose_loop-Choice s n (omega arith) (λ j lo hi. elim (eq_or_ne j n) [
          | inl e ↦ rw e none_here
          | inr ne ↦ empty j (omega (arith, ne)) hi
        ]))
  | inr (t, rest, found) ↦
      rw (found, chose_loop) (pick n t rest (omega arith) found (λ j lo hi. empty j lo hi))
]

pub chose-Choice : (s : Scheduler) → Choice s (chose_next_task s).0 (chose_next_task s).1
unfolding chose_next_task
chose-Choice s = chose_loop-Choice s 4 (omega arith) (λ j lo hi. absurd (omega arith))

-- What a choice leaves: the chosen task is on no queue, and all else is as it was.
pub record Chosen (s : Scheduler) (t : ℕ) (queue : ℕ → List ℕ) : Type 0 where
  pub can_run : is_ready s t ≡ true
  pub fresh : (t ≢ s.cur) ⊎ (t ≡ s.idle)
  pub gone : (i : ℕ) → has t (queue i) ≡ false
  pub fewer : (i x : ℕ) → has x (queue i) ≡ true → has x (s.queue i) ≡ true
  pub others : (i x : ℕ) → x ≢ t → has x (s.queue i) ≡ true → has x (queue i) ≡ true
  pub distinct : (i : ℕ) → Distinct (queue i)

none_queued :
    (s : Scheduler)
    → IsScheduled s
    → ((j : ℕ) → j ≤ task_max_priority → s.queue j ≡ [])
    → (i x : ℕ) → has x (s.queue i) ≡ false
none_queued s ok empty i x = elim (Bool-cases (has x (s.queue i))) [
  | inl h ↦ ground (arith, ok.queued i x h, empty i)
  | inr h ↦ h
]

pub Choice-Chosen :
    (s : Scheduler) {t : ℕ} {s' : Scheduler}
    → IsScheduled s
    → Choice s t s'
    → (queue : ℕ → List ℕ) × (s' ≡ record s { queue = queue }) × Chosen s t queue
Choice-Chosen s ok (pick i t rest small found above) =
    let at = ok.queued i t (ground arith) in
    let d : Distinct (t ∷ rest) = subst (λ l. Distinct l) found (ok.distinct i) in
    (
      store s.queue i rest,
      refl,
      record {
        can_run = at.2;
        fresh = inl at.3;
        gone = λ j. elim (eq_or_ne i j) [
          | inl e ↦ ground (arith, d.0)
          | inr ne ↦ elim (Bool-cases (has t (s.queue j))) [
            | inl h ↦ absurd (ne (sym at.1 ∙ (ok.queued j t h).1))
            | inr h ↦ ground arith
          ]
        ];
        fewer = λ j x m. ground arith;
        others = λ j x ne m. ground arith;
        distinct = λ j. elim (eq_or_ne i j) [
          | inl e ↦ ground (arith, d.1)
          | inr ne ↦ ground (arith, ok.distinct j)
        ];
      },
    )
Choice-Chosen s ok (idle_left empty) = (
  s.queue,
  refl,
  record {
    can_run = ok.idle_ready;
    fresh = inr refl;
    gone = λ i. none_queued s ok empty i s.idle;
    fewer = λ i x m. m;
    others = λ i x ne m. m;
    distinct = ok.distinct;
  },
)
