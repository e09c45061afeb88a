-- ===== src/Klib/RwLock.antt =====
-- kernel/include/lib/rwlock.h with the spin locks of kernel/include/lib/spinlock.h: readers and one writer.
-- The threads run interleaved. A thread goes by the place that it has reached, and a step is one access
-- to the lock: `test_and_set` is atomic, as in kernel/lib/klock.s.
pub mod Counts
pub mod Exclusion
mod Tests
use quark_os.Prelude.{ℕ, zero, suc, ◌+◌, ◌-◌, ◌%◌, ◌^◌, List, [], ◌∷◌, ◌++◌, ◌==◌, if◌then◌else◌}

pub record RwLock : Type 0 where
  pub lock : ℕ
  pub writelock : ℕ
  pub readers : ℕ

-- Outside, in `rlock_lock`, between it and `rlock_unlock`, in `rlock_unlock`, in `wlock_lock`, and between it
-- and `wlock_unlock`
pub data Place : Type 0 where
  outside : Place
  read_spin : Place
  read_count : Place
  read_test : Place
  read_first : Place
  read_leave : Place
  reading : Place
  done_spin : Place
  done_count : Place
  done_test : Place
  done_leave : Place
  write_spin : Place
  writing : Place

pub rwlock_init : RwLock
rwlock_init = record { lock = 0; writelock = 0; readers = 0 }

-- One round of `spinlock_lock` on `lk->lock`: the places if it was taken and if it is now.
pub spin_lock : Place → Place → RwLock → Place × RwLock
spin_lock stay on l = if l.lock == 1 then (stay, l) else (on, record l { lock = 1 })

-- One round of `spinlock_lock` on `lk->writelock`.
pub spin_writelock : Place → Place → RwLock → Place × RwLock
spin_writelock stay on l = if l.writelock == 1 then (stay, l) else (on, record l { writelock = 1 })

-- What a thread does next
pub advance : Place → RwLock → Place × RwLock
advance outside l = (outside, l)
advance read_spin l = spin_lock read_spin read_count l
advance read_count l = (read_test, record l { readers = (l.readers + 1) % 2 ^ 16 })
advance read_test l = if l.readers == 1 then (read_first, l) else (read_leave, l)
advance read_first l = spin_writelock read_first read_leave l
advance read_leave l = (reading, record l { lock = 0 })
advance reading l = (done_spin, l)
advance done_spin l = spin_lock done_spin done_count l
advance done_count l = (done_test, record l { readers = (l.readers + (2 ^ 16 - 1)) % 2 ^ 16 })
advance done_test l =
    if l.readers == 0 then (done_leave, record l { writelock = 0 }) else (done_leave, l)
advance done_leave l = (outside, record l { lock = 0 })
advance write_spin l = spin_writelock write_spin writing l
advance writing l = (outside, record l { writelock = 0 })

-- The places of all threads and the lock they share
pub record System : Type 0 where
  pub places : List Place
  pub shared : RwLock

pub all_outside : ℕ → List Place
all_outside zero = []
all_outside (suc n) = outside ∷ all_outside n

-- A thread that is outside asks to read or to write, or some thread takes its next step.
pub data Step : System → System → Type 0 where
  ask_read :
      (xs ys : List Place) (l : RwLock)
      → Step
          (record { places = xs ++ (outside ∷ ys); shared = l })
          (record { places = xs ++ (read_spin ∷ ys); shared = l })
  ask_write :
      (xs ys : List Place) (l : RwLock)
      → Step
          (record { places = xs ++ (outside ∷ ys); shared = l })
          (record { places = xs ++ (write_spin ∷ ys); shared = l })
  go_on :
      (xs ys : List Place) (p : Place) (l : RwLock)
      → Step
          (record { places = xs ++ (p ∷ ys); shared = l })
          (record { places = xs ++ ((advance p l).0 ∷ ys); shared = (advance p l).1 })

-- What `n` threads can reach from a new lock
pub data Reachable (n : ℕ) : System → Type 0 where
  start : Reachable n (record { places = all_outside n; shared = rwlock_init })
  then_step : (s s' : System) → Reachable n s → Step s s' → Reachable n s'
