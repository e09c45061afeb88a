-- ===== src/Mm/Buddy/Free.antt =====
-- `__free_page` of kernel/mm/page_alloc.c.
use native.Mathlib.Nat.{pow-suc}
use mathlib.Core.Option.{some-injective}
use quark_os.Prelude.{
  ℕ, zero, suc, ◌+◌, ◌-◌, ◌*◌, ◌/◌, ◌^◌, ◌≤◌, ◌<◌, ◌≡◌, ◌≢◌, refl, inl, inr, ◌⊎◌, true, false,
  arith, ◌==◌, ◌!=◌, eq_or_ne, sym, Option, some, none, ap, min, max, Bool-cases, ◌∙◌,
}
use quark_os.Klib.Bits.{log2}
use quark_os.Klib.Bits.Digits.{one-le-two-pow, two_pow_mono}
use quark_os.Klib.Bits.Log.{log2_lem}
use quark_os.Mm.Buddy.{
  Buddy, Page, max_order, order_size, list_add_prev, set_page, get_buddy, stops, merge_loop,
  free_page,
}
use quark_os.Mm.Buddy.Invariant.{is_head, HasOrder, IsBuddy}
use quark_os.Mm.Buddy.Merge.{hold, joined, joined-IsBuddy, joined_low}
use quark_os.Mm.Buddy.Cover.{left_head, Neighbour, alone, above, below, get_buddy_lem}
use quark_os.Mm.Buddy.Coalesce.{Coalesced, stops-Coalesced, joined-Coalesced}
use quark_os.Mm.Buddy.Loose.{IsLoose, list-IsBuddy}

-- What one merge leaves: a loose block of the next order, and all else as it was.
record Merges (s : Buddy) (p b o : ℕ) : Type 0 where
  low : ℕ
  tmp : ℕ
  lower : min b p ≡ low
  upper : max b p ≡ tmp
  checked : (min b p + (s.pages (min b p)).size / 4096 == max b p) ≡ true
  loose : IsLoose (joined s b low tmp) low (suc o)
  idle_low : (s.pages low).ref_cnt ≡ 0
  idle_tmp : (s.pages tmp).ref_cnt ≡ 0
  which : (p ≡ low) ⊎ (p ≡ tmp)
  half : tmp ≡ low + 2 ^ o

-- A merge changes no reference count, and the two halves alone.
ref-joined :
    (s : Buddy) (b low tmp q : ℕ) → ((joined s b low tmp).pages q).ref_cnt ≡ (s.pages q).ref_cnt
ref-joined s b low tmp q = elim (eq_or_ne low q) [
  | inl e ↦ elim (eq_or_ne tmp q) [ inl e' ↦ ground arith | inr ne ↦ ground arith ]
  | inr ne ↦ elim (eq_or_ne tmp q) [ inl e' ↦ ground arith | inr ne ↦ ground arith ]
]

kept-joined :
    (s : Buddy) (b low tmp q : ℕ)
    → (s.pages low).ref_cnt ≡ 0
    → (s.pages tmp).ref_cnt ≡ 0
    → (s.pages q).ref_cnt ≢ 0
    → (joined s b low tmp).pages q ≡ s.pages q
kept-joined s b low tmp q low_idle tmp_idle used =
    let ne : low ≢ q = λ e. ground arith in let ne' : tmp ≢ q = λ e. ground arith in ground arith

module _ (s : Buddy) (p o : ℕ) (l : IsLoose s p o) where
  level : o ≢ max_order → suc o ≤ max_order
  level ne = omega (arith, l.level)

  pages_of : (size : ℕ) → size ≡ order_size o → size / 4096 ≡ 2 ^ o
  pages_of size e = omega (arith, e)

  head-held : (q : ℕ) → is_head (hold s p) q ≡ is_head s q
  head-held q = ground arith

  size-held : (q : ℕ) → ((hold s p).pages q).size ≡ (s.pages q).size
  size-held q = ground arith

  -- The two halves, whichever of them is the buddy.
  merges :
      (b low tmp : ℕ)
      → o ≢ max_order
      → ((p ≡ low) × (b ≡ tmp)) ⊎ ((p ≡ tmp) × (b ≡ low))
      → tmp ≡ low + 2 ^ o
      → (k : ℕ) × (low ≡ k * 2 ^ suc o)
      → tmp < s.page_cnt
      → (is_head s low ≡ true) × (is_head s tmp ≡ true)
      → HasOrder s low o × HasOrder s tmp o
      → ((s.pages low).ref_cnt ≡ 0) × ((s.pages tmp).ref_cnt ≡ 0)
      → Merges s p b o
  merges b low tmp ne pair half even room head size idle =
      let lower : min b p ≡ low = elim pair [ inl e ↦ omega arith | inr e ↦ omega arith ] in
      let upper : max b p ≡ tmp = elim pair [ inl e ↦ omega arith | inr e ↦ omega arith ] in
      let parts = pages_of (s.pages low).size size.0 in
      let next =
        joined_low s p b low tmp o l.held pair half even room (level ne) head.0 head.1 size.0 size.1
          idle.1 in
      record {
        low = low;
        tmp = tmp;
        lower = lower;
        upper = upper;
        checked = rw (lower, upper, parts) (ground (arith, half));
        loose = record {
          held =
              joined-IsBuddy s p b low tmp o l.held pair half even room (level ne) head.0 head.1
                size.0 size.1 idle.1;
          inside = omega (arith, half, room);
          head = next.0;
          size = next.1;
          idle = ref-joined s b low tmp low ∙ idle.0;
          level = level ne;
        };
        idle_low = idle.0;
        idle_tmp = idle.1;
        which = elim pair [ inl e ↦ inl e.0 | inr e ↦ inr e.0 ];
        half = half;
      }

  head_p : is_head (hold s p) p ≡ true
  head_p = ground (arith, head-held p, l.head)

  size_p : HasOrder (hold s p) p o
  size_p = ground (arith, size-held p, l.size)

  -- The buddy is a free block of the same size.
  merge-Merges :
      {b : Option ℕ} (c : ℕ)
      → o ≢ max_order
      → Neighbour (hold s p) p o b
      → b ≡ some c
      → (s.pages c).ref_cnt ≡ 0
      → (s.pages c).size ≡ (s.pages p).size
      → Merges s p c o
  merge-Merges c ne alone e idle same = absurd (ground arith)
  merge-Merges c ne (above room k even) e idle same =
      let at : c ≡ p + 2 ^ o = sym (some-injective _ _ e) in
      let next = l.held.adjoins p o l.inside head_p size_p room in
      merges c p c ne (inl (refl, refl)) at (k, even) (omega (arith, at, room))
        (l.head, ground (arith, head-held c, next)) (l.size, ground (arith, l.size)) (l.idle, idle)
  merge-Merges c ne (below r spot) e idle same =
      let at : c ≡ 2 * r * 2 ^ o = sym (some-injective _ _ e) in
      let left = left_head (hold s p) p o r l.held l.inside head_p spot in
      merges c c p ne (inr (refl, refl)) (omega (arith, at, spot))
        (r, omega (arith, at, ap (λ (t : ℕ). r * t) (pow-suc 2 o))) l.inside
        (ground (arith, head-held c, left), l.head) (ground (arith, l.size), l.size) (idle, l.idle)

-- `get_buddy` on a loose block.
buddy_of :
    (s : Buddy) (p o : ℕ)
    → IsLoose s p o
    → (b : Option ℕ) × (get_buddy s p ≡ some b) × Neighbour (hold s p) p o b
unfolding get_buddy
buddy_of s p o l =
    let (b, e, at) =
      get_buddy_lem (hold s p) p o l.held l.inside (head_p s p o l) (size_p s p o l) in
    let same : ((hold s p).pages p).size ≡ (s.pages p).size = ground arith in (b, rw same at e, at)

-- What freeing a block leaves.
pub record Freed (s : Buddy) (s' : Buddy) : Type 0 where
  pub valid : IsBuddy s'
  pub count : s'.page_cnt ≡ s.page_cnt
  pub bytes : s'.size ≡ s.size
  pub refs : (q : ℕ) → (s'.pages q).ref_cnt ≡ (s.pages q).ref_cnt
  pub kept : (q : ℕ) → (s.pages q).ref_cnt ≢ 0 → s'.pages q ≡ s.pages q

list-Freed : (s : Buddy) (p o : ℕ) → IsLoose s p o → Freed s (list_add_prev s p o)
list-Freed s p o l = record {
  valid = list-IsBuddy s p o l;
  count = refl;
  bytes = refl;
  refs = λ q. refl;
  kept = λ q used. refl;
}

merge-Freed :
    (s : Buddy) (p b o : ℕ) {s' : Buddy}
    → (m : Merges s p b o) → Freed (joined s b m.low m.tmp) s'
    → Freed s s'
merge-Freed s p b o m f = record {
  valid = f.valid;
  count = f.count;
  bytes = f.bytes;
  refs = λ q. f.refs q ∙ ref-joined s b m.low m.tmp q;
  kept = λ q used.
      f.kept q (λ e. used (sym (ref-joined s b m.low m.tmp q) ∙ e))
      ∙ kept-joined s b m.low m.tmp q m.idle_low m.idle_tmp used;
}

-- When the loop goes on there is a buddy to merge with.
goes_on :
    (s : Buddy) (p o : ℕ) (b : Option ℕ)
    → IsLoose s p o
    → Neighbour (hold s p) p o b
    → stops s p o b ≡ false
    → (c : ℕ) × (b ≡ some c) × Merges s p c o
goes_on s p o none l at go = absurd (ground arith)
goes_on s p o (some c) l at go =
    (c, refl, merge-Merges s p o l c (ground arith) at refl (ground arith) (ground arith))

-- A round that merges and goes on.
merge_round :
    (s : Buddy) (p o n c : ℕ) {s' : Buddy}
    → IsLoose s p o
    → get_buddy s p ≡ some (some c)
    → stops s p o (some c) ≡ false
    → (m : Merges s p c o) → merge_loop (joined s c m.low m.tmp) m.low (suc o) n ≡ some s'
    → merge_loop s p o (suc n) ≡ some s'
unfolding merge_loop
merge_round s p o n c l found go m rest =
    let idle : ((s.pages p).ref_cnt != 0) ≡ false = ground (arith, l.idle) in
    let next : o + 1 ≡ suc o = omega arith in
    rw (idle, found, go, m.checked, m.lower, m.upper, next) rest

merge_loop-Freed :
    (s : Buddy) (p o n : ℕ)
    → IsLoose s p o
    → o + n ≡ max_order + 1
    → (s' : Buddy) × (merge_loop s p o n ≡ some s') × Freed s s' × Coalesced s p o s'
unfolding merge_loop
merge_loop-Freed s p o zero l e = absurd (omega (arith, l.level))
merge_loop-Freed s p o (suc n) l e =
    let (b, found, at) = buddy_of s p o l in
    let idle : ((s.pages p).ref_cnt != 0) ≡ false = ground (arith, l.idle) in
    elim (Bool-cases (stops s p o b)) [
      | inl stop ↦ (
        list_add_prev s p o,
        rw (idle, found, stop),
        list-Freed s p o l,
        stops-Coalesced s p o b l found stop,
      )
      | inr go ↦
          let (c, is, m) = goes_on s p o b l at go in
          let (s', runs, freed, whole) =
            merge_loop-Freed (joined s c m.low m.tmp) m.low (suc o) n m.loose (omega arith) in
          (
            s',
            merge_round s p o n c l (found ∙ ap some is) (sym (ap (stops s p o) is) ∙ go) m runs,
            merge-Freed s p c o m freed,
            joined-Coalesced s p c m.low m.tmp o m.which m.half whole,
          )
    ]

-- Only heads, sizes and reference counts matter.
pages-IsBuddy :
    (s : Buddy) (pages : ℕ → Page)
    → IsBuddy s
    → ((q : ℕ) → (pages q).flag.head ≡ is_head s q)
    → ((q : ℕ) → (pages q).size ≡ (s.pages q).size)
    → ((q : ℕ) → (pages q).ref_cnt ≡ (s.pages q).ref_cnt)
    → IsBuddy (record s { pages = pages })
pages-IsBuddy s pages ok heads sizes refs = record {
  sized =
      λ q sq h. let (m, le, size) = ok.sized q sq (sym (heads q) ∙ h) in (m, le, sizes q ∙ size);
  aligned = λ q m sq h size. ok.aligned q m sq (sym (heads q) ∙ h) (sym (sizes q) ∙ size);
  fits = λ q m sq h size. ok.fits q m sq (sym (heads q) ∙ h) (sym (sizes q) ∙ size);
  interior = λ q m r sq h size lo hi.
      heads r ∙ ok.interior q m r sq (sym (heads q) ∙ h) (sym (sizes q) ∙ size) lo hi;
  adjoins = λ q m sq h size room.
      heads (q + 2 ^ m) ∙ ok.adjoins q m sq (sym (heads q) ∙ h) (sym (sizes q) ∙ size) room;
  first = λ some_pages. heads 0 ∙ ok.first some_pages;
  unreferenced = λ q sq h. refs q ∙ ok.unreferenced q sq (sym (heads q) ∙ h);
  listed = λ m q there.
      let (sq, h, z, size) = ok.listed m q there in (sq, heads q ∙ h, refs q ∙ z, sizes q ∙ size);
  complete = λ m q sq h z size.
      ok.complete m q sq (sym (heads q) ∙ h) (sym (refs q) ∙ z) (sym (sizes q) ∙ size);
  distinct = ok.distinct;
}

-- The page whose last reference is dropped.
released : Buddy → ℕ → Buddy
released s p =
    let flag = record (s.pages p).flag { head = true; in_use = true } in
    set_page s p (record (s.pages p) { ref_cnt = 0; flag = flag })

released-IsLoose :
    (s : Buddy) (p o : ℕ)
    → IsBuddy s
    → p < s.page_cnt
    → is_head s p ≡ true
    → HasOrder s p o
    → o ≤ max_order
    → (s.pages p).ref_cnt ≡ 1
    → IsLoose (released s p) p o
unfolding released
released-IsLoose s p o ok sp h size level ref = record {
  held =
      pages-IsBuddy s (hold (released s p) p).pages ok (λ q. ground (arith, h)) (λ q. ground arith)
        (λ q. ground (arith, ref));
  inside = sp;
  head = ground arith;
  size = ground (arith, size);
  idle = ground arith;
  level = level;
}

released-Coalesced :
    (s : Buddy) (p o : ℕ) {s' : Buddy} → Coalesced (released s p) p o s' → Coalesced s p o s'
unfolding released
released-Coalesced s p o c = record {
  start = c.start;
  order = c.order;
  level = c.level;
  low = c.low;
  high = c.high;
  head = c.head;
  size = c.size;
  idle = c.idle;
  outside = λ q out.
      let ne : p ≢ q = λ e. elim out [
        | inl h ↦ omega (arith, c.low)
        | inr h ↦ omega (arith, c.high, one-le-two-pow o)
      ] in
      c.outside q out ∙ ground arith;
  whole = c.whole;
}

-- In a valid state, dropping the last reference to a block never panics. Afterwards the blocks tile the
-- pages and the lists hold exactly the free blocks. The block is part of one free block then, which has the
-- largest size or whose buddy is not a free block of its size, so that no merge is left to do; the pages
-- outside that block are as they were, as is every other page in use and every other reference count. The
-- count of free bytes stays as it was.
pub free_page_total :
    (s : Buddy) (p : ℕ)
    → IsBuddy s
    → p < s.page_cnt
    → is_head s p ≡ true
    → (s.pages p).ref_cnt ≡ 1
    → (s' : Buddy) × (free_page s p ≡ some s')
      × IsBuddy s'
      × ((s'.pages p).ref_cnt ≡ 0)
      × ((q : ℕ) → q ≢ p → (s'.pages q).ref_cnt ≡ (s.pages q).ref_cnt)
      × ((q : ℕ) → q ≢ p → (s.pages q).ref_cnt ≢ 0 → s'.pages q ≡ s.pages q)
      × (s'.size ≡ s.size)
      × ((o : ℕ) × HasOrder s p o × Coalesced s p o s')
unfolding free_page released
free_page_total s p ok sp h ref =
    let (o, level, size) = ok.sized p sp h in
    let log : log2 ((s.pages p).size / 4096) ≡ some o =
      log2_lem o ((s.pages p).size / 4096) (omega (arith, size))
        (omega (arith, size, pow-suc 2 o, one-le-two-pow o))
        (omega (arith, size, two_pow_mono o 10 level)) in
    let (s', runs, freed, whole) =
      merge_loop-Freed (released s p) p o (max_order + 1 - o)
        (released-IsLoose s p o ok sp h size level ref) (omega (arith, level)) in
    (
      s',
      rw (ref, h, log) runs,
      freed.valid,
      ground (arith, freed.refs p),
      λ q ne. ground (arith, freed.refs q),
      λ q ne used. ground (arith, freed.kept q),
      freed.bytes,
      (o, size, released-Coalesced s p o whole),
    )
