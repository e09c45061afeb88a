-- ===== src/Mm/Buddy/Tests.antt =====
-- Four pages in one block, and the theorems there.
use quark_os.Members.{Distinct}
use quark_os.Prelude.{
  ◌≢◌, ◌<◌, ◌+◌, ◌-◌, ◌^◌, ◌%◌, ℕ, ◌≡◌, refl, Bool, true, false, [], ◌∷◌, arith, ◌==◌,
  if◌then◌else◌, some, none,
}
use quark_os.Klib.Bits.{fix_size, smeared, log2, log2_loop}
use quark_os.Mm.Buddy.{
  Buddy, Page, Flag, page_magic, split_loop, find_loop, alloc_sized, alloc_page, free_page,
  page_addr, free_address,
}
use quark_os.Mm.Buddy.Invariant.{is_head, HasOrder, IsBuddy, order_inj}
use quark_os.Mm.Buddy.Alloc.{Allocated}
use quark_os.Mm.Buddy.Address.{HasAddress, free_address-page_addr}
use quark_os.Mm.Buddy.Coalesce.{Coalesced}
use quark_os.Mm.Buddy.Free.{free_page_total}
use quark_os.Mm.Buddy.RoundTrip.{free_page-alloc_page}
use quark_os.Mm.Buddy.Request.{alloc_page-Allocated, alloc_page_total}

abbrev flags : Bool → Flag
flags h = record {
  head = h;
  in_use = true;
  dirty = false;
  valid = false;
  cache = false;
  slab = false;
}

abbrev page : Bool → ℕ → Page
page h size = record { size = size; flag = flags h; ref_cnt = 0; magic = page_magic }

abbrev four : Buddy
four = record {
  root = λ o. if o == 2 then 0 ∷ [] else [];
  addr = 0x200000;
  size = 16384;
  pages = λ p. if p == 0 then page true 16384 else page false 0;
  page_cnt = 4;
}

head_four : (p : ℕ) → is_head four p ≡ true → p ≡ 0
head_four p h = ground arith

order_four : (p o : ℕ) → is_head four p ≡ true → HasOrder four p o → o ≡ 2
order_four p o h size = order_inj o 2 (ground arith)

one_list : (b : Bool) → Distinct (if b then 0 ∷ [] else [])
one_list true = (refl, tt)
one_list false = tt

four-IsBuddy : IsBuddy four
four-IsBuddy = record {
  sized = λ p small h. (2, omega arith, ground arith);
  aligned = λ p o small h size. (0, ground arith);
  fits = λ p o small h size. rw (head_four p h, order_four p o h size) (omega arith);
  interior = λ p o q small h size lo hi. ground arith;
  adjoins = λ p o small h size room.
      absurd (omega (arith, rw (head_four p h, order_four p o h size) at room));
  first = λ h. refl;
  unreferenced = λ p small h. ground arith;
  listed = λ o p there. ground arith;
  complete = λ o p small h z size. ground (arith, head_four p h, order_four p o h size);
  distinct = λ o. one_list (o == 2);
}

alloc_page_total_example : (r : ℕ × Buddy) × (alloc_page four 5000 ≡ some r)
alloc_page_total_example =
    alloc_page_total four 5000 2 0 four-IsBuddy (omega arith) (omega arith) (omega arith) refl

result : ℕ × Buddy
unfolding alloc_page alloc_sized find_loop split_loop fix_size smeared log2 log2_loop
result = elim (alloc_page four 4096) [ some r ↦ r | none ↦ (0, four) ]

runs : alloc_page four 4096 ≡ some (result.0, result.1)
unfolding alloc_page alloc_sized find_loop split_loop fix_size smeared log2 log2_loop result
runs = refl

alloc_page-Allocated_example : Allocated four (fix_size 4096) result.0 result.1
alloc_page-Allocated_example =
    alloc_page-Allocated four 4096 result.0 four-IsBuddy (omega arith) (omega arith) runs

free_page-alloc_page_example :
    (s₂ : Buddy) × (free_page result.1 result.0 ≡ some s₂)
    × IsBuddy s₂
    × ((q : ℕ) → (s₂.pages q).ref_cnt ≡ (four.pages q).ref_cnt)
    × (s₂.size ≡ (16384 + 2 ^ 32 - fix_size 4096) % 2 ^ 32)
free_page-alloc_page_example =
    free_page-alloc_page four 4096 result.0 four-IsBuddy (omega arith) (omega arith) runs

taken-IsBuddy : IsBuddy result.1
taken-IsBuddy =
    (alloc_page-Allocated four 4096 result.0 four-IsBuddy (omega arith) (omega arith) runs).valid

taken_page :
    (0 < result.1.page_cnt) × (is_head result.1 0 ≡ true) × ((result.1.pages 0).ref_cnt ≡ 1)
unfolding alloc_page alloc_sized find_loop split_loop fix_size smeared log2 log2_loop result
taken_page = (omega arith, refl, refl)

free_page_total_example :
    (s' : Buddy) × (free_page result.1 0 ≡ some s')
    × IsBuddy s'
    × ((s'.pages 0).ref_cnt ≡ 0)
    × ((q : ℕ) → q ≢ 0 → (s'.pages q).ref_cnt ≡ (result.1.pages q).ref_cnt)
    × ((q : ℕ) → q ≢ 0 → (result.1.pages q).ref_cnt ≢ 0 → s'.pages q ≡ result.1.pages q)
    × (s'.size ≡ result.1.size)
    × ((o : ℕ) × HasOrder result.1 0 o × Coalesced result.1 0 o s')
free_page_total_example =
    free_page_total result.1 0 taken-IsBuddy taken_page.0 taken_page.1 taken_page.2

four-HasAddress : HasAddress four 0
four-HasAddress = record {
  inside = omega arith;
  boundary = refl;
  memory = omega arith;
  magic = refl;
}

taken-HasAddress : HasAddress result.1 0
unfolding alloc_page alloc_sized find_loop split_loop fix_size smeared log2 log2_loop result
taken-HasAddress = record {
  inside = omega arith;
  boundary = refl;
  memory = omega arith;
  magic = refl;
}

freed : (s' : Buddy) × (free_page result.1 0 ≡ some s')
freed =
    let r = free_page_total result.1 0 taken-IsBuddy taken_page.0 taken_page.1 taken_page.2 in
    (r.0, r.1)

free_address-page_addr_example : free_address result.1 (page_addr result.1 0) ≡ some (0, freed.0)
free_address-page_addr_example =
    free_address-page_addr result.1 0 taken-HasAddress taken_page.1 freed.1
