-- ===== src/Task/Scheduler/Kept.antt =====
-- What `schedule` of kernel/task/schedule.c leaves as it was: which tasks can run, and the lists of the
-- sleeping tasks.
use quark_os.Prelude.{ℕ, ◌≡◌, refl, inl, inr, ◌&&◌, some, arith, ◌==◌, ◌∙◌, Bool-cases, leb}
use quark_os.Task.Scheduler.{Scheduler, chose_next_task, switch, schedule, refresh, reset_priority}
use quark_os.Task.Scheduler.Invariant.{IsScheduled}
use quark_os.Task.Scheduler.Reset.{reset-tcb}
use quark_os.Task.Scheduler.Choice.{Choice, pick, idle_left, chose-Choice}
use quark_os.Task.Scheduler.Switch.{
  Retires, at_idle, stopped, put_back, retire-Retires, demoted-state,
}

pub record Keeps (s s' : Scheduler) : Type 0 where
  pub state : (t : ℕ) → (s'.tcb t).state ≡ (s.tcb t).state
  pub asleep : s'.asleep ≡ s.asleep

Keeps-trans : (s s' s'' : Scheduler) → Keeps s s' → Keeps s' s'' → Keeps s s''
Keeps-trans s s' s'' a b = record {
  state = λ t. b.state t ∙ a.state t;
  asleep = b.asleep ∙ a.asleep;
}

reset-asleep : (s : Scheduler) → (reset_priority s).asleep ≡ s.asleep
unfolding reset_priority
reset-asleep s = refl

refresh-Keeps : (s : Scheduler) → IsScheduled s → Keeps s (refresh s)
unfolding refresh
refresh-Keeps s ok = elim (Bool-cases (leb s.update_priority_time s.time_since_boot)) [
  | inl due ↦
      rw due (record { state = λ t. ground (arith, reset-tcb s ok t); asleep = reset-asleep s })
  | inr early ↦ rw early (record { state = λ t. refl; asleep = refl })
]

Choice-Keeps : (s : Scheduler) {t : ℕ} {s' : Scheduler} → Choice s t s' → Keeps s s'
Choice-Keeps s (pick i t rest small found above) = record { state = λ u. refl; asleep = refl }
Choice-Keeps s (idle_left empty) = record { state = λ u. refl; asleep = refl }

Retires-Keeps : (s : Scheduler) {s' : Scheduler} → Retires s s' → Keeps s s'
Retires-Keeps s (at_idle at) = record { state = λ u. refl; asleep = refl }
Retires-Keeps s (stopped ne stop) = record {
  state = λ u. ground (arith, demoted-state (s.tcb s.cur));
  asleep = refl;
}
Retires-Keeps s (put_back ne go) = record {
  state = λ u. ground (arith, demoted-state (s.tcb s.cur));
  asleep = refl;
}

switch-Keeps : (t : ℕ) (s s' : Scheduler) → switch t s ≡ some s' → Keeps s s'
unfolding switch
switch-Keeps t s s' runs =
    let r = Retires-Keeps s (retire-Retires s) in
    elim (Bool-cases (t == s.idle && s.cur == s.idle)) [
      | inl stay ↦ record { state = λ u. ground arith; asleep = ground arith }
      | inr go ↦ record {
        state = λ u. ground (arith, r.state u);
        asleep = ground (arith, r.asleep);
      }
    ]

pub schedule-Keeps : (s s' : Scheduler) → IsScheduled s → schedule s ≡ some s' → Keeps s s'
unfolding schedule
schedule-Keeps s s' ok runs =
    let r = chose_next_task (refresh s) in
    Keeps-trans s (refresh s) s' (refresh-Keeps s ok) (
      Keeps-trans (refresh s) r.1 s' (Choice-Keeps (refresh s) (chose-Choice (refresh s)))
        (switch-Keeps r.0 r.1 s' runs))
