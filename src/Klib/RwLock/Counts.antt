-- ===== src/Klib/RwLock/Counts.antt =====
-- kernel/include/lib/rwlock.h: how many threads are where, and that each step keeps the counts in line with
-- the lock.
use quark_os.Klib.RwLock.{
  RwLock, Place, outside, read_spin, read_count, read_test, read_first, read_leave, reading,
  done_spin, done_count, done_test, done_leave, write_spin, writing, spin_lock, spin_writelock,
  advance,
}
use quark_os.Prelude.{ℕ, ◌+◌, ◌<◌, ◌≤◌, ◌==◌, ◌!=◌, ◌≢◌, if◌then◌else◌, ◌≡◌, arith, if-elim}

-- Whether a thread holds `lk->lock`
abbrev pub holds_lock : Place → ℕ
holds_lock outside = 0
holds_lock read_spin = 0
holds_lock read_count = 1
holds_lock read_test = 1
holds_lock read_first = 1
holds_lock read_leave = 1
holds_lock reading = 0
holds_lock done_spin = 0
holds_lock done_count = 1
holds_lock done_test = 1
holds_lock done_leave = 1
holds_lock write_spin = 0
holds_lock writing = 0

-- Whether `lk->readers` counts a thread
abbrev pub counted : Place → ℕ
counted outside = 0
counted read_spin = 0
counted read_count = 0
counted read_test = 1
counted read_first = 1
counted read_leave = 1
counted reading = 1
counted done_spin = 1
counted done_count = 1
counted done_test = 0
counted done_leave = 0
counted write_spin = 0
counted writing = 0

abbrev pub is_test : Place → ℕ
is_test read_test = 1
is_test p = 0

abbrev pub is_first : Place → ℕ
is_first read_first = 1
is_first p = 0

abbrev pub is_done_test : Place → ℕ
is_done_test done_test = 1
is_done_test p = 0

abbrev pub is_reading : Place → ℕ
is_reading reading = 1
is_reading p = 0

abbrev pub is_writing : Place → ℕ
is_writing writing = 1
is_writing p = 0

-- How many threads of each kind there are
pub record Counts : Type 0 where
  pub holders : ℕ
  pub counts : ℕ
  pub tests : ℕ
  pub firsts : ℕ
  pub done_tests : ℕ
  pub writers : ℕ

abbrev pub with_place : Place → Counts → Counts
with_place p c = record {
  holders = holds_lock p + c.holders;
  counts = counted p + c.counts;
  tests = is_test p + c.tests;
  firsts = is_first p + c.firsts;
  done_tests = is_done_test p + c.done_tests;
  writers = is_writing p + c.writers;
}

-- Whether the readers hold `lk->writelock`
abbrev pub held : ℕ → ℕ → ℕ → ℕ → ℕ
held firsts tests counts done_tests =
    if firsts != 0
    then 0
    else if tests != 0
    then if counts == 1 then 0 else 1
    else if counts != 0
    then 1
    else if done_tests != 0
    then 1
    else 0

pub record Counted (c : Counts) (l : RwLock) : Type 0 where
  pub lock_at : l.lock ≡ c.holders
  pub lock_le : c.holders ≤ 1
  pub readers_at : l.readers ≡ c.counts
  pub first_alone : c.firsts ≢ 0 → c.counts ≡ 1
  pub writelock_at : l.writelock ≡ c.writers + held c.firsts c.tests c.counts c.done_tests
  pub writelock_le : l.writelock ≤ 1

-- The rest of the threads, one of whom holds `lk->lock` at each of these places
abbrev pub Rest : Counts → Type 0
Rest c = c.tests + c.firsts + c.done_tests ≤ c.holders

pub advance-Counted :
    (c : Counts) (p : Place) (l : RwLock)
    → c.counts < 65535
    → Rest c
    → Counted (with_place p c) l
    → Counted (with_place (advance p l).0 c) (advance p l).1
unfolding advance spin_lock spin_writelock
advance-Counted c outside l lt r h =
    let a = h.lock_at in
    let b = h.lock_le in
    let d = h.readers_at in
    let e = h.first_alone in
    let f = h.writelock_at in
    let g = h.writelock_le in
    record {
      lock_at = ground (arith, a, b, r);
      lock_le = ground (arith, a, b, r);
      readers_at = ground (arith, d, lt, a, b);
      first_alone = λ z. ground (arith, z, a, b, d, e, r);
      writelock_at = ground (arith, a, b, d, e, f, g, r);
      writelock_le = ground (arith, a, b, d, e, f, g, r);
    }
advance-Counted c reading l lt r h =
    let a = h.lock_at in
    let b = h.lock_le in
    let d = h.readers_at in
    let e = h.first_alone in
    let f = h.writelock_at in
    let g = h.writelock_le in
    record {
      lock_at = ground (arith, a, b, r);
      lock_le = ground (arith, a, b, r);
      readers_at = ground (arith, d, lt, a, b);
      first_alone = λ z. ground (arith, z, a, b, d, e, r);
      writelock_at = ground (arith, a, b, d, e, f, g, r);
      writelock_le = ground (arith, a, b, d, e, f, g, r);
    }
advance-Counted c read_count l lt r h =
    let a = h.lock_at in
    let b = h.lock_le in
    let d = h.readers_at in
    let e = h.first_alone in
    let f = h.writelock_at in
    let g = h.writelock_le in
    record {
      lock_at = ground (arith, a, b, r);
      lock_le = ground (arith, a, b, r);
      readers_at = ground (arith, d, lt, a, b);
      first_alone = λ z. ground (arith, z, a, b, d, e, r);
      writelock_at = ground (arith, a, b, d, e, f, g, r);
      writelock_le = ground (arith, a, b, d, e, f, g, r);
    }
advance-Counted c read_leave l lt r h =
    let a = h.lock_at in
    let b = h.lock_le in
    let d = h.readers_at in
    let e = h.first_alone in
    let f = h.writelock_at in
    let g = h.writelock_le in
    record {
      lock_at = ground (arith, a, b, r);
      lock_le = ground (arith, a, b, r);
      readers_at = ground (arith, d, lt, a, b);
      first_alone = λ z. ground (arith, z, a, b, d, e, r);
      writelock_at = ground (arith, a, b, d, e, f, g, r);
      writelock_le = ground (arith, a, b, d, e, f, g, r);
    }
advance-Counted c done_count l lt r h =
    let a = h.lock_at in
    let b = h.lock_le in
    let d = h.readers_at in
    let e = h.first_alone in
    let f = h.writelock_at in
    let g = h.writelock_le in
    record {
      lock_at = ground (arith, a, b, r);
      lock_le = ground (arith, a, b, r);
      readers_at = ground (arith, d, lt, a, b);
      first_alone = λ z. ground (arith, z, a, b, d, e, r);
      writelock_at = ground (arith, a, b, d, e, f, g, r);
      writelock_le = ground (arith, a, b, d, e, f, g, r);
    }
advance-Counted c done_leave l lt r h =
    let a = h.lock_at in
    let b = h.lock_le in
    let d = h.readers_at in
    let e = h.first_alone in
    let f = h.writelock_at in
    let g = h.writelock_le in
    record {
      lock_at = ground (arith, a, b, r);
      lock_le = ground (arith, a, b, r);
      readers_at = ground (arith, d, lt, a, b);
      first_alone = λ z. ground (arith, z, a, b, d, e, r);
      writelock_at = ground (arith, a, b, d, e, f, g, r);
      writelock_le = ground (arith, a, b, d, e, f, g, r);
    }
advance-Counted c writing l lt r h =
    let a = h.lock_at in
    let b = h.lock_le in
    let d = h.readers_at in
    let e = h.first_alone in
    let f = h.writelock_at in
    let g = h.writelock_le in
    record {
      lock_at = ground (arith, a, b, r);
      lock_le = ground (arith, a, b, r);
      readers_at = ground (arith, d, lt, a, b);
      first_alone = λ z. ground (arith, z, a, b, d, e, r);
      writelock_at = ground (arith, a, b, d, e, f, g, r);
      writelock_le = ground (arith, a, b, d, e, f, g, r);
    }
advance-Counted c read_spin l lt r h =
    let a = h.lock_at in
    let b = h.lock_le in
    let d = h.readers_at in
    let e = h.first_alone in
    let f = h.writelock_at in
    let g = h.writelock_le in
    if-elim (λ (s : Place × RwLock). Counted (with_place s.0 c) s.1) (l.lock == 1)
      (λ q. record {
        lock_at = ground (arith, a, b, r, q);
        lock_le = ground (arith, a, b, r, q);
        readers_at = ground (arith, d, lt, a, b, q);
        first_alone = λ z. ground (arith, z, a, b, d, e, r, q);
        writelock_at = ground (arith, a, b, d, e, f, g, r, q);
        writelock_le = ground (arith, a, b, d, e, f, g, r, q);
      })
      (λ q. record {
        lock_at = ground (arith, a, b, r, q);
        lock_le = ground (arith, a, b, r, q);
        readers_at = ground (arith, d, lt, a, b, q);
        first_alone = λ z. ground (arith, z, a, b, d, e, r, q);
        writelock_at = ground (arith, a, b, d, e, f, g, r, q);
        writelock_le = ground (arith, a, b, d, e, f, g, r, q);
      })
advance-Counted c done_spin l lt r h =
    let a = h.lock_at in
    let b = h.lock_le in
    let d = h.readers_at in
    let e = h.first_alone in
    let f = h.writelock_at in
    let g = h.writelock_le in
    if-elim (λ (s : Place × RwLock). Counted (with_place s.0 c) s.1) (l.lock == 1)
      (λ q. record {
        lock_at = ground (arith, a, b, r, q);
        lock_le = ground (arith, a, b, r, q);
        readers_at = ground (arith, d, lt, a, b, q);
        first_alone = λ z. ground (arith, z, a, b, d, e, r, q);
        writelock_at = ground (arith, a, b, d, e, f, g, r, q);
        writelock_le = ground (arith, a, b, d, e, f, g, r, q);
      })
      (λ q. record {
        lock_at = ground (arith, a, b, r, q);
        lock_le = ground (arith, a, b, r, q);
        readers_at = ground (arith, d, lt, a, b, q);
        first_alone = λ z. ground (arith, z, a, b, d, e, r, q);
        writelock_at = ground (arith, a, b, d, e, f, g, r, q);
        writelock_le = ground (arith, a, b, d, e, f, g, r, q);
      })
advance-Counted c read_first l lt r h =
    let a = h.lock_at in
    let b = h.lock_le in
    let d = h.readers_at in
    let e = h.first_alone in
    let f = h.writelock_at in
    let g = h.writelock_le in
    if-elim (λ (s : Place × RwLock). Counted (with_place s.0 c) s.1) (l.writelock == 1)
      (λ q. record {
        lock_at = ground (arith, a, b, r, q);
        lock_le = ground (arith, a, b, r, q);
        readers_at = ground (arith, d, lt, a, b, q);
        first_alone = λ z. ground (arith, z, a, b, d, e, r, q);
        writelock_at = ground (arith, a, b, d, e, f, g, r, q);
        writelock_le = ground (arith, a, b, d, e, f, g, r, q);
      })
      (λ q. record {
        lock_at = ground (arith, a, b, r, q);
        lock_le = ground (arith, a, b, r, q);
        readers_at = ground (arith, d, lt, a, b, q);
        first_alone = λ z. ground (arith, z, a, b, d, e, r, q);
        writelock_at = ground (arith, a, b, d, e, f, g, r, q);
        writelock_le = ground (arith, a, b, d, e, f, g, r, q);
      })
advance-Counted c write_spin l lt r h =
    let a = h.lock_at in
    let b = h.lock_le in
    let d = h.readers_at in
    let e = h.first_alone in
    let f = h.writelock_at in
    let g = h.writelock_le in
    if-elim (λ (s : Place × RwLock). Counted (with_place s.0 c) s.1) (l.writelock == 1)
      (λ q. record {
        lock_at = ground (arith, a, b, r, q);
        lock_le = ground (arith, a, b, r, q);
        readers_at = ground (arith, d, lt, a, b, q);
        first_alone = λ z. ground (arith, z, a, b, d, e, r, q);
        writelock_at = ground (arith, a, b, d, e, f, g, r, q);
        writelock_le = ground (arith, a, b, d, e, f, g, r, q);
      })
      (λ q. record {
        lock_at = ground (arith, a, b, r, q);
        lock_le = ground (arith, a, b, r, q);
        readers_at = ground (arith, d, lt, a, b, q);
        first_alone = λ z. ground (arith, z, a, b, d, e, r, q);
        writelock_at = ground (arith, a, b, d, e, f, g, r, q);
        writelock_le = ground (arith, a, b, d, e, f, g, r, q);
      })
advance-Counted c read_test l lt r h =
    let a = h.lock_at in
    let b = h.lock_le in
    let d = h.readers_at in
    let e = h.first_alone in
    let f = h.writelock_at in
    let g = h.writelock_le in
    if-elim (λ (s : Place × RwLock). Counted (with_place s.0 c) s.1) (l.readers == 1)
      (λ q. record {
        lock_at = ground (arith, a, b, r, q);
        lock_le = ground (arith, a, b, r, q);
        readers_at = ground (arith, d, lt, a, b, q);
        first_alone = λ z. ground (arith, z, a, b, d, e, r, q);
        writelock_at = ground (arith, a, b, d, e, f, g, r, q);
        writelock_le = ground (arith, a, b, d, e, f, g, r, q);
      })
      (λ q. record {
        lock_at = ground (arith, a, b, r, q);
        lock_le = ground (arith, a, b, r, q);
        readers_at = ground (arith, d, lt, a, b, q);
        first_alone = λ z. ground (arith, z, a, b, d, e, r, q);
        writelock_at = ground (arith, a, b, d, e, f, g, r, q);
        writelock_le = ground (arith, a, b, d, e, f, g, r, q);
      })
advance-Counted c done_test l lt r h =
    let a = h.lock_at in
    let b = h.lock_le in
    let d = h.readers_at in
    let e = h.first_alone in
    let f = h.writelock_at in
    let g = h.writelock_le in
    if-elim (λ (s : Place × RwLock). Counted (with_place s.0 c) s.1) (l.readers == 0)
      (λ q. record {
        lock_at = ground (arith, a, b, r, q);
        lock_le = ground (arith, a, b, r, q);
        readers_at = ground (arith, d, lt, a, b, q);
        first_alone = λ z. ground (arith, z, a, b, d, e, r, q);
        writelock_at = ground (arith, a, b, d, e, f, g, r, q);
        writelock_le = ground (arith, a, b, d, e, f, g, r, q);
      })
      (λ q. record {
        lock_at = ground (arith, a, b, r, q);
        lock_le = ground (arith, a, b, r, q);
        readers_at = ground (arith, d, lt, a, b, q);
        first_alone = λ z. ground (arith, z, a, b, d, e, r, q);
        writelock_at = ground (arith, a, b, d, e, f, g, r, q);
        writelock_le = ground (arith, a, b, d, e, f, g, r, q);
      })
