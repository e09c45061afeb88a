-- ===== src/Mm/Slab/Tests.antt =====
-- Concrete runs of kernel/mm/slab.c.
use quark_os.Members.{has, without}
use quark_os.Mm.Slab.{
  first_chunk, take_chunk, add_slab, link_loop, Slabs, list_alloc, list_free, slab_alloc, list_size,
  slab_magic,
}
use quark_os.Mm.Slab.Invariant.{IsSlab, IsSlabs}
use quark_os.Mm.Slab.Fill.{cut}
use quark_os.Mm.Slab.Alloc.{list_alloc-IsSlabs, with_slab, Handed}
use quark_os.Mm.Slab.Apart.{list_alloc-apart}
use quark_os.Mm.Slab.Free.{list_free-IsSlabs, lists_after_free}
use quark_os.Mm.Slab.Request.{slab_alloc_lem}
use quark_os.Prelude.{
  ◌%◌, ℕ, ◌+◌, ◌*◌, ◌^◌, ◌≤◌, ◌<◌, ◌≡◌, ◌≢◌, refl, inl, inr, ◌⊎◌, Bool, true, false, List, [], ◌∷◌,
  arith, ◌==◌, if◌then◌else◌, store, some, eq_or_ne, subst, sym, ◌∙◌,
}

-- No list has a slab.
abbrev empty : Slabs
empty = record {
  list = λ h. [];
  info = λ p. record { chunk = 0; size = 0; n_allocated = 0; magic = 0; is_slab = false };
  next = λ a. 0;
}

abbrev is_full : ℕ → Bool
is_full h = h == 10

-- `SLAB_SIZE`
abbrev chunk_size : ℕ → ℕ
chunk_size h = 2 ^ (h + 2)

abbrev nothing : ℕ → List ℕ
nothing p = []

empty-IsSlabs : IsSlabs is_full chunk_size nothing nothing empty
empty-IsSlabs = record {
  slab = λ h p m. ground arith;
  once = λ h. tt;
  one_list = λ g h p m n. ground arith;
  sorted = λ h p m. ground arith;
  sized = λ h p m part. ground arith;
}

list_alloc-IsSlabs_example :
    (p : ℕ) × ((c : ℕ) × ((rest : List ℕ) × ((s' : Slabs) × (list_alloc empty 9 10 2048 8192
            ≡ some (c, s'))
          × (with_slab [] nothing 8192 (cut 8192 2048 2) p ≡ c ∷ rest)
          × IsSlabs is_full chunk_size
              (store (with_slab [] nothing 8192 (cut 8192 2048 2)) p rest)
              (store (with_slab [] nothing 8192 []) p (c ∷ with_slab [] nothing 8192 [] p))
              s'
          × Handed empty 9 10 2048 8192 p rest s')))
list_alloc-IsSlabs_example =
    list_alloc-IsSlabs is_full chunk_size nothing nothing empty 9 10 2048 8192 empty-IsSlabs refl
      refl refl (omega arith) (omega arith) refl (λ e. absurd (omega (arith, e))) (λ h. refl)

slab_alloc_lem_example :
    (i : ℕ) × (i < list_size)
    × (slab_alloc empty 100 8192 ≡ list_alloc empty i list_size (2 ^ (i + 2)) 8192)
    × (100 ≤ 2 ^ (i + 2))
    × ((2 ^ (i + 2) < 2 * 100) ⊎ (i ≡ 0))
slab_alloc_lem_example = slab_alloc_lem empty 100 8192 (omega arith) (omega arith)

-- Both chunks of the page 8192 are handed out.
abbrev spent : Slabs
spent = record {
  list = λ h. if h == 10 then 8192 ∷ [] else [];
  info =
      λ p. record { chunk = 0; size = 2048; n_allocated = 2; magic = slab_magic; is_slab = true };
  next = λ a. 0;
}

abbrev out : ℕ → List ℕ
out p = if p == 8192 then 10240 ∷ 8192 ∷ [] else []

on_full : (h p : ℕ) → has p (spent.list h) ≡ true → (h ≡ 10) × (p ≡ 8192)
on_full h p m = (ground arith, ground arith)

page-IsSlab : IsSlab spent 8192 [] (10240 ∷ 8192 ∷ [])
page-IsSlab = record {
  chain = refl;
  chunks = λ c m. elim (eq_or_ne c 8192) [
    | inl e ↦ record { index = 0; place = e; small = omega arith }
    | inr ne ↦
        let e : c ≡ 10240 = elim m [ inl h ↦ ground arith | inr h ↦ ground arith ] in
        record { index = 1; place = e; small = omega arith }
  ];
  free_once = tt;
  used_once = (refl, (refl, tt));
  apart = λ c m. refl;
  total = refl;
  count = refl;
  flag = refl;
  stamped = refl;
  aligned = refl;
  real = λ e. absurd (omega (arith, e));
  big = omega arith;
  fits = omega arith;
}

spent-IsSlabs : IsSlabs is_full chunk_size nothing out spent
spent-IsSlabs = record {
  slab = λ h p m. subst (λ (x : ℕ). IsSlab spent x [] (out x)) (sym (on_full h p m).1) page-IsSlab;
  once = λ h. ground arith;
  one_list = λ g h p m n. (on_full g p m).0 ∙ sym (on_full h p n).0;
  sorted = λ h p m. ground (arith, on_full h p m);
  sized = λ h p m part. ground (arith, on_full h p m);
}

list_free-IsSlabs_example :
    (s' : Slabs) × (list_free spent 10240 9 ≡ some s')
    × IsSlabs is_full chunk_size
        (store nothing 8192 (10240 ∷ []))
        (store out 8192 (without 10240 (out 8192)))
        s'
    × ((g : ℕ) → s'.list g ≡ lists_after_free true spent.list 8192 9 g)
    × ((s'.info 8192).size ≡ 2048)
    × ((q : ℕ) → q ≢ 8192 → s'.info q ≡ spent.info q)
list_free-IsSlabs_example =
    list_free-IsSlabs is_full chunk_size nothing out spent 10 8192 10240 9 spent-IsSlabs refl refl
      refl refl

-- Another slab for the same size, whose first chunk is taken.
abbrev grown : Slabs
grown = add_slab spent 9 2048 12288

abbrev third_out : Slabs
third_out = record grown {
  info = store grown.info 12288 (record (grown.info 12288) {
    n_allocated = ((grown.info 12288).n_allocated + 1) % 2 ^ 16;
    chunk = grown.next 12288;
  });
}

third : list_alloc spent 9 10 2048 12288 ≡ some (12288, third_out)
unfolding list_alloc first_chunk take_chunk add_slab link_loop
third = refl

spent_fresh : (h : ℕ) → has 12288 (spent.list h) ≡ false
spent_fresh h = ground arith

list_alloc-apart_example : (12288 + 2048 ≤ 8192) ⊎ (8192 + 2048 ≤ 12288)
list_alloc-apart_example =
    list_alloc-apart is_full chunk_size nothing out spent 9 10 2048 12288 spent-IsSlabs refl refl
      refl (omega arith) (omega arith) refl (λ e. absurd (omega (arith, e))) spent_fresh 12288
      third_out third 10 8192 8192 refl refl
