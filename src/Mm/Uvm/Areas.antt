-- ===== src/Mm/Uvm/Areas.antt =====
-- kernel/mm/uvm.c: mapping an area into the tables of a process, and what its addresses translate to.
use quark_os.Mm.Kvm.{page_bytes, is_present, frame}
use quark_os.Mm.Uvm.{Tables, pde_index, pte_index, write_entry, map_area_loop, next_size}
use quark_os.Mm.Uvm.View.{entry, IsTables, Finds, vm_page_iter-Finds}
use quark_os.Prelude.{
  ℕ, zero, suc, ◌+◌, ◌-◌, ◌*◌, ◌/◌, ◌%◌, ◌^◌, ◌<◌, ◌≤◌, ltb, leb, Bool, true, false, some, length,
  ◌==◌, ◌&&◌, if◌then◌else◌, eq_or_ne, Bool-cases, or32, ◌≡◌, ◌≢◌, refl, sym, ap, subst, ◌∙◌, inl,
  inr, arith,
}

-- The number of the page of an address
abbrev pub page_no : ℕ → ℕ
page_no v = v / page_bytes

-- Writing an entry of a table that is not the directory leaves the directory as it is.
write_entry-pgdir :
    (s : Tables) (pgdir t i e k : ℕ)
    → t ≢ pgdir
    → (write_entry s t i e).table pgdir k ≡ s.table pgdir k
unfolding write_entry
write_entry-pgdir s pgdir t i e k ne = ground (arith, ne)

write_entry-table :
    (s : Tables) (t i e u k : ℕ)
    → (write_entry s t i e).table u k ≡ (if t == u && i == k then e else s.table u k)
unfolding write_entry
write_entry-table s t i e u k = ground arith

write_entry-IsTables :
    (managed : ℕ → Bool) (s : Tables) (pgdir t i e : ℕ)
    → t ≢ pgdir
    → IsTables managed s pgdir
    → IsTables managed (write_entry s t i e) pgdir
unfolding write_entry
write_entry-IsTables managed s pgdir t i e ne h =
    let dir : (k : ℕ) → s.table pgdir k ≡ (write_entry s t i e).table pgdir k =
      λ k. sym (write_entry-pgdir s pgdir t i e k ne) in
    record {
      tables_managed = λ k.
          subst (λ m. is_present m ≡ true → managed (frame m) ≡ true) (dir k) (h.tables_managed k);
      tables_apart = λ k j.
          subst
            (λ m.
              is_present m ≡ true
              → is_present ((write_entry s t i e).table pgdir j) ≡ true
              → frame m ≡ frame ((write_entry s t i e).table pgdir j)
              → k ≡ j)
            (dir k)
            (subst
              (λ m.
                is_present (s.table pgdir k) ≡ true
                → is_present m ≡ true
                → frame (s.table pgdir k) ≡ frame m
                → k ≡ j)
              (dir j) (h.tables_apart k j));
      tables_not_pgdir =
          λ k. subst (λ m. is_present m ≡ true → frame m ≢ pgdir) (dir k) (h.tables_not_pgdir k);
      fresh_free = λ u m.
          let f = h.fresh_free u m in
          record {
            is_managed = f.is_managed;
            aligned = f.aligned;
            word = f.word;
            not_pgdir = f.not_pgdir;
            not_table = λ k. subst (λ m. is_present m ≡ true → frame m ≢ u) (dir k) (f.not_table k);
          };
      fresh_distinct = h.fresh_distinct;
    }

-- Two addresses whose entries lie at the same place are in the same page.
same_place :
    (managed : ℕ → Bool) (s : Tables) (pgdir va v : ℕ)
    → IsTables managed s pgdir
    → is_present (s.table pgdir (pde_index va)) ≡ true
    → is_present (s.table pgdir (pde_index v)) ≡ true
    → page_no va ≢ page_no v
    → (frame (s.table pgdir (pde_index va)) == frame (s.table pgdir (pde_index v))
        && pte_index va == pte_index v)
      ≡ false
same_place managed s pgdir va v h p q ne =
    elim (eq_or_ne (frame (s.table pgdir (pde_index va))) (frame (s.table pgdir (pde_index v)))) [
      | inl e ↦
          let at = h.tables_apart (pde_index va) (pde_index v) p q e in
          let differ : pte_index va ≢ pte_index v = λ c. ne (omega (arith, at, c)) in
          ground (arith, differ)
      | inr d ↦ ground (arith, d)
    ]

-- Writing the entry of `va` changes the entries of the addresses in its page.
write_entry-entry :
    (managed : ℕ → Bool) (s : Tables) (pgdir va e v : ℕ)
    → IsTables managed s pgdir
    → is_present (s.table pgdir (pde_index va)) ≡ true
    → entry (write_entry s (frame (s.table pgdir (pde_index va))) (pte_index va) e) pgdir v
      ≡ (if page_no va == page_no v then e else entry s pgdir v)
write_entry-entry managed s pgdir va e v h p =
    let t = frame (s.table pgdir (pde_index va)) in
    let dir = write_entry-pgdir s pgdir t (pte_index va) e (pde_index v) (h.tables_not_pgdir _ p) in
    let w =
      write_entry-table s t (pte_index va) e (frame (s.table pgdir (pde_index v))) (pte_index v) in
    elim (eq_or_ne (page_no va) (page_no v)) [
      | inl same ↦
          let at : pde_index va ≡ pde_index v = omega (arith, same) in
          let idx : pte_index va ≡ pte_index v = omega (arith, same) in
          let q = subst (λ (k : ℕ). is_present (s.table pgdir k) ≡ true) at p in
          let f = ap (λ (k : ℕ). frame (s.table pgdir k)) at in
          let hit : (t == frame (s.table pgdir (pde_index v)) && pte_index va == pte_index v)
              ≡ true =
            ground (arith, f, idx) in
          let here : (page_no va == page_no v) ≡ true = ground (arith, same) in
          rw (dir, q, here) (w ∙ rw hit refl)
      | inr ne ↦
          let away : (page_no va == page_no v) ≡ false = ground (arith, ne) in
          elim (Bool-cases (is_present (s.table pgdir (pde_index v)))) [
            | inl q ↦
                let miss = same_place managed s pgdir va v h p q ne in
                rw (dir, q, away) (w ∙ rw miss refl)
            | inr q ↦ rw (dir, q, away) refl
          ]
    ]

Finds-entry :
    (managed : ℕ → Bool) (s : Tables) (pgdir va t : ℕ) (s' : Tables)
    → Finds managed s pgdir va t s'
    → s'.table t (pte_index va) ≡ entry s pgdir va
Finds-entry managed s pgdir va t s' f =
    let p = f.present in
    let a = f.at in
    let here : s'.table t (pte_index va) ≡ entry s' pgdir va = rw (p, a) refl in here ∙ f.kept va

-- The tables with `e` as the entry of `va`
pub record Sets (managed : ℕ → Bool) (s : Tables) (pgdir va e : ℕ) (s' : Tables) : Type 0 where
  pub is_tables : IsTables managed s' pgdir
  pub entry_at :
      (v : ℕ) → entry s' pgdir v ≡ (if page_no va == page_no v then e else entry s pgdir v)
  pub supply : length s.fresh ≤ suc (length s'.fresh)

Finds-Sets :
    (managed : ℕ → Bool) (s : Tables) (pgdir va t e : ℕ) (s' : Tables)
    → Finds managed s pgdir va t s'
    → Sets managed s pgdir va e (write_entry s' t (pte_index va) e)
unfolding write_entry
Finds-Sets managed s pgdir va t e s' f =
    let h = f.is_tables in
    let p = f.present in
    let ne = subst (λ (u : ℕ). u ≢ pgdir) f.at (h.tables_not_pgdir (pde_index va) p) in
    record {
      is_tables = write_entry-IsTables managed s' pgdir t (pte_index va) e ne h;
      entry_at = λ v.
          subst
            (λ (u : ℕ).
              entry (write_entry s' u (pte_index va) e) pgdir v
              ≡ (if page_no va == page_no v then e else entry s' pgdir v))
            f.at (write_entry-entry managed s' pgdir va e v h p)
          ∙ ap (λ (m : ℕ). if page_no va == page_no v then e else m) (f.kept v);
      supply = f.supply;
    }

-- `n` pages from the one of `va` on map the frames from `pa` on; the other entries are those of `s`.
pub record MapsArea (managed : ℕ → Bool) (s : Tables) (pgdir va n pa flag : ℕ) (s' : Tables)
    : Type 0 where
  pub is_tables : IsTables managed s' pgdir
  pub inside :
      (v : ℕ)
      → page_no va ≤ page_no v
      → page_no v < page_no va + n
      → entry s' pgdir v ≡ or32 (pa + (page_no v - page_no va) * page_bytes) flag
  pub outside :
      (v : ℕ)
      → (leb (page_no va) (page_no v) && ltb (page_no v) (page_no va + n)) ≡ false
      → entry s' pgdir v ≡ entry s pgdir v

-- The first page of an area and those behind it
MapsArea-suc :
    (managed : ℕ → Bool) (s : Tables) (pgdir va n pa flag : ℕ) (s2 s3 : Tables)
    → Sets managed s pgdir va (or32 pa flag) s2
    → MapsArea managed s2 pgdir (va + page_bytes) n (pa + page_bytes) flag s3
    → MapsArea managed s pgdir va (suc n) pa flag s3
MapsArea-suc managed s pgdir va n pa flag s2 s3 w m = record {
  is_tables = m.is_tables;
  inside = λ v a b.
      let now = w.entry_at v in
      elim (eq_or_ne (page_no va) (page_no v)) [
        | inl e ↦
            let o = m.outside v (ground (arith, e)) in
            let from : pa + (page_no v - page_no va) * page_bytes ≡ pa = omega (arith, e) in
            rw from (o ∙ ground (arith, now, e))
        | inr ne ↦
            let o = m.inside v (omega (arith, a, ne)) (omega (arith, b)) in
            let from : pa + page_bytes + (page_no v - page_no (va + page_bytes)) * page_bytes
                ≡ pa + (page_no v - page_no va) * page_bytes =
              omega (arith, a, ne) in
            o ∙ ap (λ (f : ℕ). or32 f flag) from
      ];
  outside = λ v out.
      let now = w.entry_at v in
      let o = m.outside v (ground (arith, out)) in o ∙ ground (arith, now, out);
}

pub map_area_loop-MapsArea :
    (n rounds : ℕ) (managed : ℕ → Bool) (s : Tables) (va pa size flag pgdir : ℕ)
    → n < rounds
    → n ≤ length s.fresh
    → IsTables managed s pgdir
    → ((v : ℕ)
        → page_no va ≤ page_no v
        → page_no v < page_no va + n
        → is_present (entry s pgdir v) ≡ false)
    → va + n * page_bytes < 2 ^ 32
    → pa + n * page_bytes < 2 ^ 32
    → size ≤ n * page_bytes
    → n * page_bytes < size + page_bytes
    → (s' : Tables) × ((map_area_loop rounds managed s va pa size flag pgdir ≡ some s')
        × MapsArea managed s pgdir va n pa flag s')
unfolding map_area_loop
map_area_loop-MapsArea n zero managed s va pa size flag pgdir lt fr h free fv fp le hi =
    ground (arith, lt)
map_area_loop-MapsArea zero (suc rounds) managed s va pa size flag pgdir lt fr h free fv fp le hi =
    let stop : (size == 0) ≡ true = ground (arith, le) in
    (
      s,
      (
        rw stop refl,
        record { is_tables = h; inside = λ v a b. omega (arith, a, b); outside = λ v o. refl },
      ),
    )
map_area_loop-MapsArea (suc n) (suc rounds) managed s va pa size flag pgdir lt fr h free fv fp le
      hi =
    let go : (size == 0) ≡ false = ground (arith, hi) in
    let (t, (s1, (found, f))) = vm_page_iter-Finds managed s va pgdir h (omega (arith, fr)) in
    let e = or32 pa flag in
    let s2 = write_entry s1 t (pte_index va) e in
    let va' : (va + page_bytes) % 2 ^ 32 ≡ va + page_bytes = omega (arith, fv) in
    let pa' : (pa + page_bytes) % 2 ^ 32 ≡ pa + page_bytes = omega (arith, fp) in
    let unused =
      ap is_present (Finds-entry managed s pgdir va t s1 f) ∙ free va (omega arith) (omega arith) in
    let w = Finds-Sets managed s pgdir va t e s1 f in
    let more = w.supply in
    let left = next_size size in
    let (s3, (runs, m)) =
      map_area_loop-MapsArea n rounds managed s2 (va + page_bytes) (pa + page_bytes) left flag pgdir
        (omega (arith, lt)) (omega (arith, fr, more)) w.is_tables
        (λ v a b.
          let now = w.entry_at v in
          let old = free v (omega (arith, a)) (omega (arith, b)) in ground (arith, now, old, a))
        (omega (arith, fv)) (omega (arith, fp)) (omega (arith, le)) (omega (arith, hi)) in
    let step : map_area_loop (suc rounds) managed s va pa size flag pgdir
        ≡ map_area_loop rounds managed s2 (va + page_bytes) (pa + page_bytes) left flag pgdir =
      rw (go, found, unused, va', pa') refl in
    (s3, (step ∙ runs, MapsArea-suc managed s pgdir va n pa flag s2 s3 w m))
