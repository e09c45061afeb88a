-- ===== src/Klib/RwLock/Tests.antt =====
-- Two threads, one of which comes to write while the other asks to read.
use quark_os.Klib.RwLock.{
  spin_lock, spin_writelock, outside, read_spin, read_count, write_spin, writing, rwlock_init,
  advance, System, all_outside, ask_read, ask_write, go_on, Reachable, start, then_step,
}
use quark_os.Klib.RwLock.Counts.{is_reading, is_writing}
use quark_os.Klib.RwLock.Exclusion.{total, Reachable-Exclusive}
use quark_os.Prelude.{[], ◌∷◌, ◌≤◌, ◌≡◌, arith}

abbrev one_writes : System
one_writes = record {
  places = writing ∷ read_count ∷ [];
  shared = record { lock = 1; writelock = 1; readers = 0 };
}

one_writes-Reachable : Reachable 2 one_writes
unfolding all_outside advance spin_writelock rwlock_init spin_lock
one_writes-Reachable =
    then_step _ _
      (then_step _ _
        (then_step _ _ (then_step _ _ start (ask_read (outside ∷ []) [] rwlock_init))
          (ask_write [] (read_spin ∷ []) rwlock_init))
        (go_on [] (read_spin ∷ []) write_spin rwlock_init))
      (go_on (writing ∷ []) [] read_spin (record rwlock_init { writelock = 1 }))

Reachable-Exclusive_example :
    (total is_writing one_writes.places ≤ 1)
    × (1 ≤ total is_writing one_writes.places → total is_reading one_writes.places ≡ 0)
Reachable-Exclusive_example = Reachable-Exclusive 2 (omega arith) one_writes one_writes-Reachable
