-- ===== src/Klib/RwLock/Exclusion.antt =====
-- kernel/include/lib/rwlock.h: a writer is alone.
use quark_os.Klib.RwLock.{
  RwLock, Place, outside, read_spin, read_count, read_test, read_first, read_leave, reading,
  done_spin, done_count, done_test, done_leave, write_spin, writing, rwlock_init, advance, System,
  all_outside, Step, ask_read, ask_write, go_on, Reachable, start, then_step,
}
use quark_os.Klib.RwLock.Counts.{
  Counts, Counted, Rest, with_place, advance-Counted, holds_lock, counted, is_test, is_first,
  is_done_test, is_reading, is_writing,
}
use quark_os.Prelude.{
  ℕ, zero, suc, ◌+◌, ◌^◌, ◌<◌, ◌≤◌, List, [], ◌∷◌, ◌++◌, length, length-append, ◌≡◌, refl, sym,
  subst, arith,
}

-- A count over all threads
abbrev pub total : (Place → ℕ) → List Place → ℕ
total f [] = 0
total f (p ∷ ps) = f p + total f ps

total-middle :
    (f : Place → ℕ) (xs : List Place) (p : Place) (ys : List Place)
    → total f (xs ++ (p ∷ ys)) ≡ f p + total f (xs ++ ys)
total-middle f [] p ys = refl
total-middle f (x ∷ xs) p ys = omega (arith, total-middle f xs p ys)

abbrev pub counts_of : List Place → Counts
counts_of ps = record {
  holders = total holds_lock ps;
  counts = total counted ps;
  tests = total is_test ps;
  firsts = total is_first ps;
  done_tests = total is_done_test ps;
  writers = total is_writing ps;
}

counts_of-middle :
    (xs : List Place) (p : Place) (ys : List Place)
    → counts_of (xs ++ (p ∷ ys)) ≡ with_place p (counts_of (xs ++ ys))
counts_of-middle xs p ys = λ i. record {
  holders = total-middle holds_lock xs p ys i;
  counts = total-middle counted xs p ys i;
  tests = total-middle is_test xs p ys i;
  firsts = total-middle is_first xs p ys i;
  done_tests = total-middle is_done_test xs p ys i;
  writers = total-middle is_writing xs p ys i;
}

-- What the places of a thread have to do with each other
abbrev Bounded : Place → Type 0
Bounded p =
    (is_test p + is_first p + is_done_test p ≤ holds_lock p)
    × ((is_reading p + is_first p + is_test p ≤ counted p) × (counted p ≤ 1))

place-Bounded : (p : Place) → Bounded p
place-Bounded outside = (omega arith, (omega arith, omega arith))
place-Bounded read_spin = (omega arith, (omega arith, omega arith))
place-Bounded read_count = (omega arith, (omega arith, omega arith))
place-Bounded read_test = (omega arith, (omega arith, omega arith))
place-Bounded read_first = (omega arith, (omega arith, omega arith))
place-Bounded read_leave = (omega arith, (omega arith, omega arith))
place-Bounded reading = (omega arith, (omega arith, omega arith))
place-Bounded done_spin = (omega arith, (omega arith, omega arith))
place-Bounded done_count = (omega arith, (omega arith, omega arith))
place-Bounded done_test = (omega arith, (omega arith, omega arith))
place-Bounded done_leave = (omega arith, (omega arith, omega arith))
place-Bounded write_spin = (omega arith, (omega arith, omega arith))
place-Bounded writing = (omega arith, (omega arith, omega arith))

places-Rest : (ps : List Place) → Rest (counts_of ps)
places-Rest [] = omega arith
places-Rest (p ∷ ps) =
    let b = (place-Bounded p).0 in let ih = places-Rest ps in omega (arith, b, ih)

counted-length : (ps : List Place) → total counted ps ≤ length ps
counted-length [] = omega arith
counted-length (p ∷ ps) =
    let b = (place-Bounded p).1.1 in let ih = counted-length ps in omega (arith, b, ih)

reading-counted :
    (ps : List Place)
    → total is_reading ps + total is_first ps + total is_test ps ≤ total counted ps
reading-counted [] = omega arith
reading-counted (p ∷ ps) =
    let b = (place-Bounded p).1.0 in let ih = reading-counted ps in omega (arith, b, ih)

-- `n` threads, whose counts agree with the lock
pub record Agrees (n : ℕ) (s : System) : Type 0 where
  pub threads : length s.places ≡ n
  pub agrees : Counted (counts_of s.places) s.shared

move_one :
    (n : ℕ) (xs ys : List Place) (p q : Place) (l l' : RwLock)
    → (Counted (with_place p (counts_of (xs ++ ys))) l
        → Counted (with_place q (counts_of (xs ++ ys))) l')
    → Agrees n (record { places = xs ++ (p ∷ ys); shared = l })
    → Agrees n (record { places = xs ++ (q ∷ ys); shared = l' })
move_one n xs ys p q l l' f h =
    let t = h.threads in
    let a = length-append xs (p ∷ ys) in
    let b = length-append xs (q ∷ ys) in
    let old = subst (λ (c : Counts). Counted c l) (counts_of-middle xs p ys) h.agrees in
    record {
      threads = omega (arith, t, a, b);
      agrees = subst (λ (c : Counts). Counted c l') (sym (counts_of-middle xs q ys)) (f old);
    }

Step-Agrees : (n : ℕ) → n < 2 ^ 16 → {s s' : System} → Step s s' → Agrees n s → Agrees n s'
Step-Agrees n lt (ask_read xs ys l) h = move_one n xs ys outside read_spin l l (λ c. c) h
Step-Agrees n lt (ask_write xs ys l) h = move_one n xs ys outside write_spin l l (λ c. c) h
Step-Agrees n lt (go_on xs ys p l) h =
    let t = h.threads in
    let a = length-append xs (p ∷ ys) in
    let b = length-append xs ys in
    let m = counted-length (xs ++ ys) in
    move_one n xs ys p (advance p l).0 l (advance p l).1
      (advance-Counted (counts_of (xs ++ ys)) p l (omega (arith, t, a, b, m, lt))
        (places-Rest (xs ++ ys)))
      h

start-total : (f : Place → ℕ) → f outside ≡ 0 → (n : ℕ) → total f (all_outside n) ≡ 0
unfolding all_outside
start-total f e zero = refl
start-total f e (suc n) = omega (arith, e, start-total f e n)

start-length : (n : ℕ) → length (all_outside n) ≡ n
unfolding all_outside
start-length zero = refl
start-length (suc n) = omega (arith, start-length n)

start-Agrees : (n : ℕ) → Agrees n (record { places = all_outside n; shared = rwlock_init })
unfolding rwlock_init
start-Agrees n =
    let a = start-total holds_lock refl n in
    let b = start-total counted refl n in
    let c = start-total is_test refl n in
    let d = start-total is_first refl n in
    let e = start-total is_done_test refl n in
    let f = start-total is_writing refl n in
    record {
      threads = start-length n;
      agrees = record {
        lock_at = omega (arith, a);
        lock_le = omega (arith, a);
        readers_at = omega (arith, b);
        first_alone = λ z. ground (arith, z, d);
        writelock_at = ground (arith, b, c, d, e, f);
        writelock_le = omega arith;
      };
    }

Reachable-Agrees : (n : ℕ) → n < 2 ^ 16 → {s : System} → Reachable n s → Agrees n s
Reachable-Agrees n lt start = start-Agrees n
Reachable-Agrees n lt (then_step s s' r st) = Step-Agrees n lt st (Reachable-Agrees n lt r)

-- In every state that fewer than 2^16 threads reach from a new lock, in whatever order their steps come,
-- at most one thread writes, and while one writes none reads.
pub Reachable-Exclusive :
    (n : ℕ)
    → n < 2 ^ 16
    → (s : System) → Reachable n s
    → (total is_writing s.places ≤ 1)
      × (1 ≤ total is_writing s.places → total is_reading s.places ≡ 0)
Reachable-Exclusive n lt s r =
    let h = (Reachable-Agrees n lt r).agrees in
    let m = reading-counted s.places in
    let a = h.writelock_at in
    let b = h.writelock_le in
    let c = h.first_alone in (ground (arith, a, b), λ w. ground (arith, a, b, c, m, w))
