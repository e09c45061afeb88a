-- ===== src/Task/Pids/Tests.antt =====
-- A concrete run of kernel/task/fork.c.
use quark_os.Prelude.{ℕ, ◌<◌, ◌≡◌, ◌≢◌, ◌⊎◌, some, arith, ltb, if◌then◌else◌, store}
use quark_os.Task.Pids.{task_num, alloc_pid, free_pid}
use quark_os.Task.Pids.Alloc.{alloc_pid-free_pid}

-- Three tasks have numbers.
abbrev three : ℕ → ℕ
three i = if ltb i 3 then 4096 else 0

alloc_pid-free_pid_example :
    ((alloc_pid three 8192 ≡ (0, three)) × ((j : ℕ) → j < task_num → three j ≢ 0))
    ⊎ ((pid : ℕ) × ((map' : ℕ → ℕ) × (alloc_pid three 8192 ≡ (pid, store three pid 8192))
          × (0 < pid)
          × (pid < task_num)
          × (three pid ≡ 0)
          × ((j : ℕ) → j < pid → three j ≢ 0)
          × (free_pid (alloc_pid three 8192).1 pid ≡ some map')
          × ((j : ℕ) → map' j ≡ three j)))
alloc_pid-free_pid_example =
    alloc_pid-free_pid three 8192 (λ e. absurd (omega (arith, e))) (λ e. absurd (omega (arith, e)))
