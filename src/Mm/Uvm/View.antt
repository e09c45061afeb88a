-- ===== src/Mm/Uvm/View.antt =====
-- kernel/mm/uvm.c: the tables of a process as one map from addresses to entries.
use quark_os.Members.{has, Distinct}
use quark_os.Mm.Kvm.{page_bytes, is_present, frame}
use quark_os.Mm.Kvm.Translate.{or32-page}
use quark_os.Mm.Uvm.{
  Tables, pde_index, pte_index, write_entry, calloc_table, calloc_from, vm_page_iter,
}
use quark_os.Prelude.{
  ℕ, suc, ◌+◌, ◌%◌, ◌^◌, ◌<◌, ◌≤◌, Bool, true, false, some, List, ◌∷◌, length, ◌==◌, if◌then◌else◌,
  store, eq_or_ne, Bool-cases, List-cases, or32, or32-flags, ◌≡◌, ◌≢◌, refl, sym, ap, subst, ◌∙◌,
  inl, inr, arith,
}

-- The entry for an address, 0 where there is no table for it
abbrev pub entry : Tables → ℕ → ℕ → ℕ
entry s pgdir v =
    if is_present (s.table pgdir (pde_index v))
    then s.table (frame (s.table pgdir (pde_index v))) (pte_index v)
    else 0

-- A page that is none of the process's tables
pub record IsFree (managed : ℕ → Bool) (s : Tables) (pgdir t : ℕ) : Type 0 where
  pub is_managed : managed t ≡ true
  pub aligned : t % page_bytes ≡ 0
  pub word : t < 2 ^ 32
  pub not_pgdir : t ≢ pgdir
  pub not_table : (i : ℕ) → is_present (s.table pgdir i) ≡ true → frame (s.table pgdir i) ≢ t

-- The entries of the directory name tables of their own, and the pages to come are free.
pub record IsTables (managed : ℕ → Bool) (s : Tables) (pgdir : ℕ) : Type 0 where
  pub tables_managed :
      (i : ℕ) → is_present (s.table pgdir i) ≡ true → managed (frame (s.table pgdir i)) ≡ true
  pub tables_apart :
      (i j : ℕ)
      → is_present (s.table pgdir i) ≡ true
      → is_present (s.table pgdir j) ≡ true
      → frame (s.table pgdir i) ≡ frame (s.table pgdir j)
      → i ≡ j
  pub tables_not_pgdir :
      (i : ℕ) → is_present (s.table pgdir i) ≡ true → frame (s.table pgdir i) ≢ pgdir
  pub fresh_free : (t : ℕ) → has t s.fresh ≡ true → IsFree managed s pgdir t
  pub fresh_distinct : Distinct s.fresh

-- The page `t` has the entry of `va`.
pub record Finds (managed : ℕ → Bool) (s : Tables) (pgdir va t : ℕ) (s' : Tables) : Type 0 where
  pub is_tables : IsTables managed s' pgdir
  pub present : is_present (s'.table pgdir (pde_index va)) ≡ true
  pub at : frame (s'.table pgdir (pde_index va)) ≡ t
  pub kept : (v : ℕ) → entry s' pgdir v ≡ entry s pgdir v
  pub supply : length s.fresh ≤ suc (length s'.fresh)

-- A new entry of the directory
new_entry : (t : ℕ) → t % page_bytes ≡ 0 → t < 2 ^ 32 → or32 t 7 ≡ t + 7
new_entry t al lt = or32-page t 7 al lt (omega arith)

-- The tables with the first of the pages to come as the table for entry `i` of the directory
abbrev with_table : Tables → ℕ → ℕ → ℕ → List ℕ → Tables
with_table s pgdir i t ts =
    write_entry (record { table = store s.table t (λ k. 0); fresh = ts }) pgdir i (or32 t 7)

with_table_self :
    (s : Tables) (pgdir i t : ℕ) (ts : List ℕ)
    → t % page_bytes ≡ 0
    → t < 2 ^ 32
    → (with_table s pgdir i t ts).table pgdir i ≡ t + 7
unfolding write_entry
with_table_self s pgdir i t ts al lt = let e = new_entry t al lt in ground (arith, e)

with_table-other :
    (s : Tables) (pgdir i t : ℕ) (ts : List ℕ)
    → t ≢ pgdir
    → (k : ℕ) → i ≢ k
    → (with_table s pgdir i t ts).table pgdir k ≡ s.table pgdir k
unfolding write_entry
with_table-other s pgdir i t ts ne k di = ground (arith, ne, di)

with_table-table :
    (s : Tables) (pgdir i t : ℕ) (ts : List ℕ) (u : ℕ)
    → u ≢ pgdir
    → (k : ℕ) → (with_table s pgdir i t ts).table u k ≡ (if t == u then 0 else s.table u k)
unfolding write_entry
with_table-table s pgdir i t ts u ne k = ground (arith, ne)

pub vm_page_iter-found :
    (managed : ℕ → Bool) (s : Tables) (va pgdir : ℕ) (new : Bool)
    → IsTables managed s pgdir
    → is_present (s.table pgdir (pde_index va)) ≡ true
    → vm_page_iter managed s va pgdir new ≡ some (frame (s.table pgdir (pde_index va)), s)
unfolding vm_page_iter
vm_page_iter-found managed s va pgdir true h p =
    let m = h.tables_managed (pde_index va) p in rw (p, m) refl
vm_page_iter-found managed s va pgdir false h p =
    let m = h.tables_managed (pde_index va) p in rw m refl

vm_page_iter-made :
    (managed : ℕ → Bool) (s : Tables) (va pgdir t : ℕ) (ts : List ℕ)
    → s.fresh ≡ t ∷ ts
    → is_present (s.table pgdir (pde_index va)) ≡ false
    → vm_page_iter managed s va pgdir true ≡ some (t, with_table s pgdir (pde_index va) t ts)
unfolding vm_page_iter calloc_table calloc_from
vm_page_iter-made managed s va pgdir t ts e p = rw (p, e, or32-flags) refl

-- What holds of the new entry and of the others, holds of all entries of the directory.
with_table-all :
    (P : ℕ → ℕ → Type 0) (managed : ℕ → Bool) (s : Tables) (pgdir i t : ℕ) (ts : List ℕ)
    → IsFree managed s pgdir t
    → P i (t + 7)
    → ((k : ℕ) → i ≢ k → P k (s.table pgdir k))
    → (k : ℕ) → P k ((with_table s pgdir i t ts).table pgdir k)
with_table-all P managed s pgdir i t ts f new old k = elim (eq_or_ne i k) [
  | inl e ↦
      let self = with_table_self s pgdir i t ts f.aligned f.word in
      subst (λ (m : ℕ). P m ((with_table s pgdir i t ts).table pgdir m)) e
        (subst (λ (m : ℕ). P i m) (sym self) new)
  | inr ne ↦
      let other = with_table-other s pgdir i t ts f.not_pgdir k ne in
      subst (λ (m : ℕ). P k m) (sym other) (old k ne)
]

frame-new : (t : ℕ) → t % page_bytes ≡ 0 → frame (t + 7) ≡ t
frame-new t al = omega (arith, al)

with_table-IsFree :
    (managed : ℕ → Bool) (s : Tables) (pgdir i t u : ℕ) (ts : List ℕ)
    → IsFree managed s pgdir t
    → IsFree managed s pgdir u
    → t ≢ u
    → IsFree managed (with_table s pgdir i t ts) pgdir u
with_table-IsFree managed s pgdir i t u ts f g ne = record {
  is_managed = g.is_managed;
  aligned = g.aligned;
  word = g.word;
  not_pgdir = g.not_pgdir;
  not_table =
      let al = f.aligned in
      with_table-all (λ k e. is_present e ≡ true → frame e ≢ u) managed s pgdir i t ts f
        (λ z c. ne (sym (frame-new t al) ∙ c)) (λ k di. g.not_table k);
}

with_table-IsTables :
    (managed : ℕ → Bool) (s : Tables) (pgdir i t : ℕ) (ts : List ℕ)
    → IsTables managed s pgdir
    → s.fresh ≡ t ∷ ts
    → IsTables managed (with_table s pgdir i t ts) pgdir
unfolding write_entry
with_table-IsTables managed s pgdir i t ts h e =
    let mine : has t s.fresh ≡ true = rw e (ground arith) in
    let f = h.fresh_free t mine in
    let d = subst Distinct e h.fresh_distinct in
    let al = f.aligned in
    let new = frame-new t al in
    record {
      tables_managed =
          with_table-all (λ k m. is_present m ≡ true → managed (frame m) ≡ true) managed s pgdir i t
            ts f (λ z. ap managed new ∙ f.is_managed) (λ k di. h.tables_managed k);
      tables_apart = λ k j.
          with_table-all
            (λ k m.
              is_present m ≡ true
              → is_present ((with_table s pgdir i t ts).table pgdir j) ≡ true
              → frame m ≡ frame ((with_table s pgdir i t ts).table pgdir j)
              → k ≡ j)
            managed s pgdir i t ts f
            (with_table-all
              (λ j m.
                is_present (t + 7) ≡ true → is_present m ≡ true → frame (t + 7) ≡ frame m → i ≡ j)
              managed s pgdir i t ts f (λ z w c. refl)
              (λ j dj z w c. absurd (f.not_table j w (sym c ∙ new))) j)
            (λ k dk.
              with_table-all
                (λ j m.
                  is_present (s.table pgdir k) ≡ true
                  → is_present m ≡ true
                  → frame (s.table pgdir k) ≡ frame m
                  → k ≡ j)
                managed s pgdir i t ts f (λ z w c. absurd (f.not_table k z (c ∙ new)))
                (λ j dj z w c. h.tables_apart k j z w c) j)
            k;
      tables_not_pgdir =
          with_table-all (λ k m. is_present m ≡ true → frame m ≢ pgdir) managed s pgdir i t ts f
            (λ z c. f.not_pgdir (sym new ∙ c)) (λ k di. h.tables_not_pgdir k);
      fresh_free = λ u m.
          let apart : t ≢ u = λ c.
            let gone = d.0 in
            ground (arith, gone, m, c, subst (λ (v : ℕ). has v ts ≡ true) (sym c) m) in
          let among : has u s.fresh ≡ true = rw e (ground (arith, m)) in
          with_table-IsFree managed s pgdir i t u ts f (h.fresh_free u among) apart;
      fresh_distinct = d.1;
    }

with_table-entry :
    (managed : ℕ → Bool) (s : Tables) (pgdir i t : ℕ) (ts : List ℕ)
    → IsTables managed s pgdir
    → IsFree managed s pgdir t
    → is_present (s.table pgdir i) ≡ false
    → (v : ℕ) → entry (with_table s pgdir i t ts) pgdir v ≡ entry s pgdir v
with_table-entry managed s pgdir i t ts h f p v = elim (eq_or_ne i (pde_index v)) [
  | inl e ↦
      let self = with_table_self s pgdir i t ts f.aligned f.word in
      let al = f.aligned in
      let no_dir = f.not_pgdir in
      let odd : is_present (t + 7) ≡ true = ground (arith, al) in
      let zeros = with_table-table s pgdir i t ts t no_dir (pte_index v) in
      let none_there : is_present (s.table pgdir (pde_index v)) ≡ false =
        subst (λ (k : ℕ). is_present (s.table pgdir k) ≡ false) e p in
      let there = subst (λ (k : ℕ). (with_table s pgdir i t ts).table pgdir k ≡ t + 7) e self in
      rw (there, odd, frame-new t al, none_there) (zeros ∙ ground arith)
  | inr ne ↦
      let other = with_table-other s pgdir i t ts f.not_pgdir (pde_index v) ne in
      elim (Bool-cases (is_present (s.table pgdir (pde_index v)))) [
        | inl q ↦
            let u = frame (s.table pgdir (pde_index v)) in
            let a = h.tables_not_pgdir (pde_index v) q in
            let b = f.not_table (pde_index v) q in
            let same = with_table-table s pgdir i t ts u a (pte_index v) in
            rw (other, q) (same ∙ ground (arith, b))
        | inr q ↦ rw (other, q) refl
      ]
]

kept_supply :
    (s : Tables) (pgdir i t : ℕ) (ts : List ℕ)
    → length s.fresh ≡ length (t ∷ ts)
    → length s.fresh ≤ suc (length (with_table s pgdir i t ts).fresh)
unfolding write_entry
kept_supply s pgdir i t ts e = omega (arith, e)

-- Looking for the table of an address, and making one where there is none, finds it and keeps the view.
pub vm_page_iter-Finds :
    (managed : ℕ → Bool) (s : Tables) (va pgdir : ℕ)
    → IsTables managed s pgdir
    → 1 ≤ length s.fresh
    → (t : ℕ) × ((s' : Tables) × ((vm_page_iter managed s va pgdir true ≡ some (t, s'))
          × Finds managed s pgdir va t s'))
vm_page_iter-Finds managed s va pgdir h some_left =
    elim (Bool-cases (is_present (s.table pgdir (pde_index va)))) [
      | inl p ↦ (
        frame (s.table pgdir (pde_index va)),
        (
          s,
          (
            vm_page_iter-found managed s va pgdir true h p,
            record {
              is_tables = h;
              present = p;
              at = refl;
              kept = λ v. refl;
              supply = omega arith;
            },
          ),
        ),
      )
      | inr p ↦ elim (List-cases s.fresh) [
        | inl e ↦ let len = ap length e in let no : ⊥ = omega (arith, len, some_left) in absurd no
        | inr (t, ts, e) ↦
            let mine : has t s.fresh ≡ true = rw e (ground arith) in
            let f = h.fresh_free t mine in
            let al = f.aligned in
            let self = with_table_self s pgdir (pde_index va) t ts al f.word in
            let len = ap length e in
            (
              t,
              (
                with_table s pgdir (pde_index va) t ts,
                (
                  vm_page_iter-made managed s va pgdir t ts e p,
                  record {
                    is_tables = with_table-IsTables managed s pgdir (pde_index va) t ts h e;
                    present = rw self (ground (arith, al));
                    at = rw self (frame-new t al);
                    kept = with_table-entry managed s pgdir (pde_index va) t ts h f p;
                    supply = kept_supply s pgdir (pde_index va) t ts len;
                  },
                ),
              ),
            )
      ]
    ]
