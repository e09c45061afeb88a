-- ===== src/Task/Pids.antt =====
-- kernel/task/fork.c: the map from process numbers to control blocks. A control block goes by its address, and its
-- `run_list` stands at that address too; NULL is 0.
pub mod Alloc
mod Tests
use quark_os.Prelude.{
  ℕ, zero, suc, ◌+◌, Bool, true, false, ◌&&◌, Option, none, some, ltb, ◌==◌, ◌!=◌, if◌then◌else◌,
  ◌>>=◌, ◌>>◌, assertk, store,
}

abbrev pub task_num : ℕ
task_num = 1024

-- The loop of `alloc_pid` from `i`, with `n` numbers left.
pub pid_loop : ℕ → (ℕ → ℕ) → ℕ → ℕ → ℕ × (ℕ → ℕ)
pid_loop zero map i tcb = (0, map)
pid_loop (suc n) map i tcb =
    let rest = pid_loop n map (i + 1) tcb in if map i == 0 then (i, store map i tcb) else rest

pub alloc_pid : (ℕ → ℕ) → ℕ → ℕ × (ℕ → ℕ)
alloc_pid map tcb = pid_loop task_num map 0 tcb

pub free_pid : (ℕ → ℕ) → ℕ → Option (ℕ → ℕ)
free_pid map pid = do assertk (pid != 0 && map pid != 0); some (store map pid 0)

pub task_get_run_list : (ℕ → ℕ) → ℕ → Option ℕ
task_get_run_list map pid = do assertk (ltb pid task_num); some (map pid)

-- `pid_of` and `slice` are the fields of the control blocks; the slice is 16 bits wide.
pub task_set_time_slice : (ℕ → ℕ) → (ℕ → ℕ) → (ℕ → ℕ) → ℕ → ℕ → Option (ℕ → ℕ)
task_set_time_slice map pid_of slice pid time_slice = do
  assertk (ltb pid task_num)
  assertk (pid_of (map pid) == pid)
  some (store slice (map pid) time_slice)
