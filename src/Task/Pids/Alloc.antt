-- ===== src/Task/Pids/Alloc.antt =====
-- `alloc_pid` and `free_pid` of kernel/task/fork.c.
use quark_os.Prelude.{
  ℕ, zero, suc, ◌+◌, ◌≤◌, ◌<◌, ◌≡◌, ◌≢◌, refl, inl, inr, ◌⊎◌, true, false, ◌&&◌, some, ◌==◌, ◌!=◌,
  store, store_self, arith, eq_or_ne, subst, ap, ◌∙◌,
}
use quark_os.Task.Pids.{task_num, pid_loop, alloc_pid, free_pid}

-- The loop gives the first number that is free, if there is one.
pub record Gives (map : ℕ → ℕ) (i n tcb pid : ℕ) (r : ℕ × (ℕ → ℕ)) : Type 0 where
  pub runs : r ≡ (pid, store map pid tcb)
  pub least : (j : ℕ) → i ≤ j → j < pid → map j ≢ 0
  pub free : map pid ≡ 0
  pub from : i ≤ pid
  pub small : pid < i + n

pid_loop_lem :
    (n : ℕ) (map : ℕ → ℕ) (i tcb : ℕ)
    → ((pid_loop n map i tcb ≡ (0, map)) × ((j : ℕ) → i ≤ j → j < i + n → map j ≢ 0))
      ⊎ ((pid : ℕ) × Gives map i n tcb pid (pid_loop n map i tcb))
unfolding pid_loop
pid_loop_lem zero map i tcb = inl (refl, λ j lo hi. absurd (omega (arith, lo, hi)))
pid_loop_lem (suc n) map i tcb = elim (eq_or_ne (map i) 0) [
  | inl e ↦
      let hit : (map i == 0) ≡ true = ground (arith, e) in
      inr (
        i,
        record {
          runs = rw hit refl;
          least = λ j lo hi. absurd (omega (arith, lo, hi));
          free = e;
          from = omega arith;
          small = omega arith;
        },
      )
  | inr ne ↦
      let miss : (map i == 0) ≡ false = ground (arith, ne) in
      let here : (j : ℕ) → i ≤ j → (i + 1 ≤ j → map j ≢ 0) → map j ≢ 0 = λ j lo later.
        elim (eq_or_ne j i) [ inl e ↦ rw e ne | inr other ↦ later (omega (arith, lo, other)) ] in
      elim (pid_loop_lem n map (i + 1) tcb) [
        | inl (full, taken) ↦
            inl (rw miss full, λ j lo hi. here j lo (λ lo'. taken j lo' (omega (arith, hi))))
        | inr (pid, g) ↦ inr (
          pid,
          record {
            runs = rw miss g.runs;
            least = λ j lo hi. here j lo (λ lo'. g.least j lo' hi);
            free = g.free;
            from = omega (arith, g.from);
            small = omega (arith, g.small);
          },
        )
      ]
]

free_fresh :
    (map : ℕ → ℕ) (pid tcb : ℕ)
    → 0 < pid
    → tcb ≢ 0
    → free_pid (store map pid tcb) pid ≡ some (store (store map pid tcb) pid 0)
unfolding free_pid
free_fresh map pid tcb pos some_tcb =
    let ok : (pid != 0 && store map pid tcb pid != 0) ≡ true = ground (arith, pos, some_tcb) in
    rw ok refl

-- While the number 0 is taken, `alloc_pid` gives the least of the other numbers below 1024 that is free, and
-- `free_pid` of that number restores the map; if none is free, it returns 0 and changes nothing.
pub alloc_pid-free_pid :
    (map : ℕ → ℕ) (tcb : ℕ)
    → map 0 ≢ 0
    → tcb ≢ 0
    → ((alloc_pid map tcb ≡ (0, map)) × ((j : ℕ) → j < task_num → map j ≢ 0))
      ⊎ ((pid : ℕ) × ((map' : ℕ → ℕ) × (alloc_pid map tcb ≡ (pid, store map pid tcb))
            × (0 < pid)
            × (pid < task_num)
            × (map pid ≡ 0)
            × ((j : ℕ) → j < pid → map j ≢ 0)
            × (free_pid (alloc_pid map tcb).1 pid ≡ some map')
            × ((j : ℕ) → map' j ≡ map j)))
unfolding alloc_pid
alloc_pid-free_pid map tcb first some_tcb = elim (pid_loop_lem 1024 map 0 tcb) [
  | inl (full, taken) ↦ inl (full, λ j h. taken j (omega arith) (omega (arith, h)))
  | inr (pid, g) ↦
      let positive : 0 < pid = elim (eq_or_ne pid 0) [
        | inl e ↦ absurd (first (subst (λ (x : ℕ). map x ≡ 0) e g.free))
        | inr ne ↦ omega (arith, ne)
      ] in
      let e = store_self map pid tcb in
      inr (
        pid,
        (
          store (store map pid tcb) pid 0,
          g.runs,
          positive,
          omega (arith, g.small),
          g.free,
          λ j h. g.least j (omega arith) h,
          ap (λ (r : ℕ × (ℕ → ℕ)). free_pid r.1 pid) g.runs
              ∙ free_fresh map pid tcb positive some_tcb,
          λ j. ground (arith, g.free),
        ),
      )
]
