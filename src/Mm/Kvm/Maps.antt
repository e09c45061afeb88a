-- ===== src/Mm/Kvm/Maps.antt =====
-- kernel/mm/vm.c: which entries mapping and unmapping a range change.
use quark_os.Mm.Kvm.{
  Kvm, page_bytes, kernel_start, is_present, get_page_table_entry, maps_loop, kvm_maps, unmap_loop,
  kvm_unmap3, tlb_flush, vm_npres,
}
use quark_os.Prelude.{
  ℕ, zero, suc, ◌+◌, ◌-◌, ◌*◌, ◌/◌, ◌%◌, ◌^◌, ◌<◌, ◌≤◌, ltb, leb, true, false, some, ◌==◌, ◌&&◌,
  ◌≡◌, refl, ◌∙◌, store, store_self, eq_or_ne, inl, inr, or32, arith,
}

-- The entries from `i` on, `n` of them, are free.
unfoldable pub Free : Kvm → ℕ → ℕ → Type 0
Free s i n = (k : ℕ) → i ≤ k → k < i + n → is_present (s.pte k) ≡ false

-- `n` entries from `i` on map the frames from `pa` on, and no other entry differs from those of `s`.
pub record Mapped (s : Kvm) (i n pa flags : ℕ) (s' : Kvm) : Type 0 where
  pub inside : (k : ℕ) → k < n → s'.pte (i + k) ≡ or32 (pa + k * page_bytes) flags
  pub outside : (k : ℕ) → (leb i k && ltb k (i + n)) ≡ false → s'.pte k ≡ s.pte k

-- The first entry and those behind it
Mapped-inside :
    (s1 : Kvm) (n i pa flags k : ℕ) (s2 : Kvm)
    → Mapped s1 (i + 1) n (pa + page_bytes) flags s2
    → s1.pte i ≡ or32 pa flags
    → k < suc n
    → s2.pte (i + k) ≡ or32 (pa + k * page_bytes) flags
Mapped-inside s1 n i pa flags zero s2 m e h =
    let o = m.outside i (ground arith) in
    let at : i + 0 ≡ i = omega arith in
    let from : pa + 0 * page_bytes ≡ pa = omega arith in rw (at, from) (o ∙ e)
Mapped-inside s1 n i pa flags (suc k) s2 m e h =
    let o = m.inside k (omega (arith, h)) in
    let at : i + 1 + k ≡ i + suc k = omega arith in
    let from : pa + page_bytes + k * page_bytes ≡ pa + suc k * page_bytes = omega arith in
    rw (at, from) at o

pub maps_loop-Mapped :
    (n rounds : ℕ) (s : Kvm) (va end pa flags i : ℕ)
    → n < rounds
    → Free s i n
    → va + n * page_bytes < 2 ^ 32
    → pa + n * page_bytes < 2 ^ 32
    → end ≤ va + n * page_bytes
    → va + n * page_bytes < end + page_bytes
    → (s' : Kvm) × (maps_loop rounds s va end pa flags i ≡ some s') × Mapped s i n pa flags s'
unfolding maps_loop tlb_flush Free
maps_loop-Mapped n zero s va end pa flags i lt free fv fp le hi = ground (arith, lt)
maps_loop-Mapped zero (suc rounds) s va end pa flags i lt free fv fp le hi =
    let stop : ltb va end ≡ false = ground (arith, le) in
    (s, rw stop refl, record { inside = λ k h. ground (arith, h); outside = λ k h. refl })
maps_loop-Mapped (suc n) (suc rounds) s va end pa flags i lt free fv fp le hi =
    let go : ltb va end ≡ true = ground (arith, hi) in
    let now = free i (omega arith) (omega arith) in
    let s1 = tlb_flush (record s { pte = store s.pte i (or32 pa flags) }) va in
    let va' : (va + page_bytes) % 2 ^ 32 ≡ va + page_bytes = omega (arith, fv) in
    let pa' : (pa + page_bytes) % 2 ^ 32 ≡ pa + page_bytes = omega (arith, fp) in
    let (s2, runs, m) =
      maps_loop-Mapped n rounds s1 (va + page_bytes) end (pa + page_bytes) flags (i + 1)
        (omega (arith, lt))
        (λ k a b. let f = free k (omega (arith, a)) (omega (arith, b)) in ground (arith, f, a))
        (omega (arith, fv)) (omega (arith, fp)) (omega (arith, le)) (omega (arith, hi)) in
    let step : maps_loop (suc rounds) s va end pa flags i
        ≡ maps_loop rounds s1 (va + page_bytes) end (pa + page_bytes) flags (i + 1) =
      rw (go, now, va', pa') refl in
    (
      s2,
      step ∙ runs,
      record {
        inside = λ k h. Mapped-inside s1 n i pa flags k s2 m (store_self s.pte i _) h;
        outside = λ k h. let o = m.outside k (ground (arith, h)) in o ∙ ground (arith, h);
      },
    )

-- How many pages a range of `size` bytes has.
abbrev pub pages : ℕ → ℕ
pages size = (size + (page_bytes - 1)) / page_bytes

-- Mapping a range at a page boundary in the kernel's part of the address space, none of whose entries
-- is in use, does not panic, and makes the entries of its pages map the frames from `pa` on in order;
-- no other entry changes.
pub kvm_maps-Mapped :
    (rounds : ℕ) (s : Kvm) (va pa size flags : ℕ)
    → pages size < rounds
    → va % page_bytes ≡ 0
    → kernel_start ≤ va
    → va + pages size * page_bytes < 2 ^ 32
    → pa + pages size * page_bytes < 2 ^ 32
    → Free s ((va - kernel_start) / page_bytes) (pages size)
    → (s' : Kvm) × (kvm_maps rounds s va pa size flags ≡ some s')
      × Mapped s ((va - kernel_start) / page_bytes) (pages size) pa flags s'
unfolding kvm_maps get_page_table_entry
kvm_maps-Mapped rounds s va pa size flags lt al ge fv fp free =
    let a : (va % page_bytes == 0) ≡ true = ground (arith, al) in
    let b : leb kernel_start va ≡ true = ground (arith, ge) in
    let at : (va + size) % 2 ^ 32 ≡ va + size = omega (arith, fv) in
    let (s', runs, m) =
      maps_loop-Mapped (pages size) rounds s va (va + size) pa flags _ lt free fv fp (omega arith)
        (omega arith) in
    let step : kvm_maps rounds s va pa size flags
        ≡ maps_loop rounds s va (va + size) pa flags ((va - kernel_start) / page_bytes) =
      rw (a, b, at) refl in
    (s', step ∙ runs, m)

-- The entries from `i` on, `n` of them, are empty, and no other entry differs from those of `s`.
pub record Cleared (s : Kvm) (i n : ℕ) (s' : Kvm) : Type 0 where
  pub inside : (k : ℕ) → i ≤ k → k < i + n → s'.pte k ≡ vm_npres
  pub outside : (k : ℕ) → (leb i k && ltb k (i + n)) ≡ false → s'.pte k ≡ s.pte k

pub unmap_loop-Cleared :
    (n rounds : ℕ) (s : Kvm) (va end i : ℕ)
    → n < rounds
    → va + n * page_bytes < 2 ^ 32
    → end ≤ va + n * page_bytes
    → va + n * page_bytes < end + page_bytes
    → (s' : Kvm) × (unmap_loop rounds s va end i ≡ some s') × Cleared s i n s'
unfolding unmap_loop tlb_flush
unmap_loop-Cleared n zero s va end i lt fv le hi = ground (arith, lt)
unmap_loop-Cleared zero (suc rounds) s va end i lt fv le hi =
    let stop : ltb va end ≡ false = ground (arith, le) in
    (s, rw stop refl, record { inside = λ k a b. omega (arith, a, b); outside = λ k h. refl })
unmap_loop-Cleared (suc n) (suc rounds) s va end i lt fv le hi =
    let go : ltb va end ≡ true = ground (arith, hi) in
    let s1 = tlb_flush (record s { pte = store s.pte i vm_npres }) va in
    let va' : (va + page_bytes) % 2 ^ 32 ≡ va + page_bytes = omega (arith, fv) in
    let (s2, runs, m) =
      unmap_loop-Cleared n rounds s1 (va + page_bytes) end (i + 1) (omega (arith, lt))
        (omega (arith, fv)) (omega (arith, le)) (omega (arith, hi)) in
    let step : unmap_loop (suc rounds) s va end i
        ≡ unmap_loop rounds s1 (va + page_bytes) end (i + 1) =
      rw (go, va') refl in
    (
      s2,
      step ∙ runs,
      record {
        inside = λ k a b. elim (eq_or_ne i k) [
          | inl e ↦ let o = m.outside k (ground (arith, e)) in o ∙ ground (arith, e)
          | inr ne ↦ m.inside k (omega (arith, a, ne)) (omega (arith, b))
        ];
        outside = λ k h. let o = m.outside k (ground (arith, h)) in o ∙ ground (arith, h);
      },
    )

pub kvm_unmap3-Cleared :
    (rounds : ℕ) (s : Kvm) (va size : ℕ)
    → pages size < rounds
    → size % page_bytes ≡ 0
    → kernel_start < va
    → va + size < 2 ^ 32
    → (s' : Kvm) × (kvm_unmap3 rounds s va size ≡ some s')
      × Cleared s ((va - kernel_start) / page_bytes) (pages size) s'
unfolding kvm_unmap3 get_page_table_entry
kvm_unmap3-Cleared rounds s va size lt al gt fv =
    let a : (size % page_bytes == 0) ≡ true = ground (arith, al) in
    let b : ltb kernel_start va ≡ true = ground (arith, gt) in
    let c : leb kernel_start va ≡ true = ground (arith, gt) in
    let at : (va + size) % 2 ^ 32 ≡ va + size = omega (arith, fv) in
    let (s', runs, m) =
      unmap_loop-Cleared (pages size) rounds s va (va + size) ((va - kernel_start) / page_bytes) lt
        (omega (arith, al, fv)) (omega arith) (omega arith) in
    let step : kvm_unmap3 rounds s va size
        ≡ unmap_loop rounds s va (va + size) ((va - kernel_start) / page_bytes) =
      rw (b, a, c, at) refl in
    (s', step ∙ runs, m)
