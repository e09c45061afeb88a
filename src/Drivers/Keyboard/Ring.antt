-- ===== src/Drivers/Keyboard/Ring.antt =====
-- kernel/terminal.c: the ring of characters against a queue without bounds.
use quark_os.Drivers.Keyboard.{KbQueue, kb_clear, q_append, q_pop, kb_null, kb_buffer_size}
use quark_os.Prelude.{
  ℕ, zero, suc, ◌+◌, ◌%◌, ◌<◌, ◌≤◌, List, [], ◌∷◌, ◌++◌, length, length-append, ◌≡◌, refl, sym, ap,
  ap₂, ◌∙◌, ◌≢◌, ◌==◌, if-elim, store, store_self, store_ne, arith, subst,
}

-- The ring has the characters from place `h` on.
abbrev pub Holds : (ℕ → ℕ) → ℕ → List ℕ → Type 0
Holds buffer h [] = Unit
Holds buffer h (c ∷ cs) = (buffer h ≡ c) × Holds buffer ((h + 1) % kb_buffer_size) cs

-- The ring stands for the queue `cs`, the oldest character first.
pub record IsQueue (q : KbQueue) (cs : List ℕ) : Type 0 where
  pub header_lt : q.header < kb_buffer_size
  pub room : length cs < kb_buffer_size
  pub tail_at : q.tail ≡ (q.header + length cs) % kb_buffer_size
  pub holds : Holds q.buffer q.header cs

-- What happens to the ring: a key is typed, a reader takes a character, or a reader drops all of them.
pub data Use : Type 0 where
  typed : ℕ → Use
  taken : Use
  dropped : Use

-- The characters that readers get, KB_NULL where none waits, and the ring afterwards.
pub use_ring : KbQueue → List Use → List ℕ × KbQueue
use_ring q [] = ([], q)
use_ring q (typed c ∷ us) = use_ring (q_append q c) us
use_ring q (taken ∷ us) = let r = use_ring (q_pop q).1 us in ((q_pop q).0 ∷ r.0, r.1)
use_ring q (dropped ∷ us) = use_ring (kb_clear q) us

-- The same of a queue without bounds
pub use_queue : List ℕ → List Use → List ℕ × List ℕ
use_queue cs [] = ([], cs)
use_queue cs (typed c ∷ us) = use_queue (cs ++ (c ∷ [])) us
use_queue [] (taken ∷ us) = let r = use_queue [] us in (kb_null ∷ r.0, r.1)
use_queue (c ∷ cs) (taken ∷ us) = let r = use_queue cs us in (c ∷ r.0, r.1)
use_queue cs (dropped ∷ us) = use_queue [] us

-- No more than 255 characters ever wait.
unfoldable pub Fits : List ℕ → List Use → Type 0
Fits cs [] = Unit
Fits cs (typed c ∷ us) = (length cs < 255) × Fits (cs ++ (c ∷ [])) us
Fits [] (taken ∷ us) = Fits [] us
Fits (c ∷ cs) (taken ∷ us) = Fits cs us
Fits cs (dropped ∷ us) = Fits [] us

-- A write `d` places behind the first of `cs` touches none of them.
pub Holds-store :
    (buffer : ℕ → ℕ) (h v : ℕ) (cs : List ℕ)
    → (d : ℕ) → h < 256
    → length cs ≤ d
    → d < 256
    → Holds buffer h cs
    → Holds (store buffer ((h + d) % 256) v) h cs
Holds-store buffer h v [] d lt le room u = u
Holds-store buffer h v (c ∷ cs) zero lt le room u = ground (arith, le)
Holds-store buffer h v (c ∷ cs) (suc d) lt le room (e, es) =
    let ne : (h + suc d) % 256 ≢ h = λ f. ground (arith, f, lt, room) in
    let at : ((h + 1) % 256 + d) % 256 ≡ (h + suc d) % 256 = omega arith in
    let rest =
      Holds-store buffer ((h + 1) % 256) v cs d (omega arith) (omega (arith, le))
        (omega (arith, room)) es in
    (
      store_ne buffer v ne ∙ e,
      subst (λ (i : ℕ). Holds (store buffer i v) ((h + 1) % 256) cs) at rest,
    )

pub Holds-snoc :
    (buffer : ℕ → ℕ) (h c : ℕ) (cs : List ℕ)
    → h < 256
    → buffer ((h + length cs) % 256) ≡ c
    → Holds buffer h cs
    → Holds buffer h (cs ++ (c ∷ []))
Holds-snoc buffer h c [] lt e u =
    let at : (h + 0) % 256 ≡ h = omega (arith, lt) in (sym (ap buffer at) ∙ e, u)
Holds-snoc buffer h c (d ∷ cs) lt e (f, fs) =
    let at : ((h + 1) % 256 + length cs) % 256 ≡ (h + suc (length cs)) % 256 = omega arith in
    (f, Holds-snoc buffer ((h + 1) % 256) c cs (omega arith) (ap buffer at ∙ e) fs)

pub q_append-IsQueue :
    (q : KbQueue) (cs : List ℕ) (c : ℕ)
    → length cs < 255
    → IsQueue q cs
    → IsQueue (q_append q c) (cs ++ (c ∷ []))
unfolding q_append
q_append-IsQueue q cs c lt r =
    let at = r.tail_at in
    let h = r.header_lt in
    let len = length-append cs (c ∷ []) in
    record {
      header_lt = h;
      room = omega (arith, len, lt);
      tail_at = omega (arith, len, at);
      holds =
          Holds-snoc _ q.header c cs h
            (ap (store q.buffer q.tail c) (sym at) ∙ store_self q.buffer q.tail c)
            (subst (λ (i : ℕ). Holds (store q.buffer i c) q.header cs) (sym at)
              (Holds-store q.buffer q.header c cs (length cs) h (omega arith) r.room r.holds));
    }

pub q_pop-IsQueue :
    (q : KbQueue) (c : ℕ) (cs : List ℕ)
    → IsQueue q (c ∷ cs)
    → ((q_pop q).0 ≡ c) × IsQueue (q_pop q).1 cs
unfolding q_pop
q_pop-IsQueue q c cs r =
    let at = r.tail_at in
    let h = r.header_lt in
    let m = r.room in
    if-elim (λ (s : ℕ × KbQueue). (s.0 ≡ c) × IsQueue s.1 cs) (q.header == q.tail)
      (λ e. ground (arith, e, at, h, m))
      (λ e. (
        r.holds.0,
        record {
          header_lt = omega arith;
          room = omega (arith, m);
          tail_at = omega (arith, at);
          holds = r.holds.1;
        },
      ))

pub q_pop-nil : (q : KbQueue) → IsQueue q [] → q_pop q ≡ (kb_null, q)
unfolding q_pop
q_pop-nil q r =
    let at = r.tail_at in
    let h = r.header_lt in
    if-elim (λ s. s ≡ (kb_null, q)) (q.header == q.tail) (λ e. refl) (λ e. ground (arith, e, at, h))

pub kb_clear-IsQueue : (q : KbQueue) (cs : List ℕ) → IsQueue q cs → IsQueue (kb_clear q) []
unfolding kb_clear
kb_clear-IsQueue q cs r =
    let h = r.header_lt in
    record { header_lt = h; room = omega arith; tail_at = omega (arith, h); holds = tt }

-- While no more than 255 characters wait at once, readers get from the ring what they would get from
-- a queue without bounds, and the ring stands for that queue afterwards.
pub use_ring-use_queue :
    (us : List Use) (q : KbQueue) (cs : List ℕ)
    → IsQueue q cs
    → Fits cs us
    → ((use_ring q us).0 ≡ (use_queue cs us).0) × IsQueue (use_ring q us).1 (use_queue cs us).1
unfolding use_ring use_queue Fits
use_ring-use_queue [] q cs r f = (refl, r)
use_ring-use_queue (typed c ∷ us) q cs r (lt, f) =
    use_ring-use_queue us (q_append q c) (cs ++ (c ∷ [])) (q_append-IsQueue q cs c lt r) f
use_ring-use_queue (taken ∷ us) q [] r f =
    let e = q_pop-nil q r in
    let ih = use_ring-use_queue us q [] r f in
    subst
      (λ (s : ℕ × KbQueue).
        (((s.0 ∷ (use_ring s.1 us).0) ≡ (kb_null ∷ (use_queue [] us).0))
          × IsQueue (use_ring s.1 us).1 (use_queue [] us).1))
      (sym e) (ap (λ b. kb_null ∷ b) ih.0, ih.1)
use_ring-use_queue (taken ∷ us) q (c ∷ cs) r f =
    let p = q_pop-IsQueue q c cs r in
    let ih = use_ring-use_queue us (q_pop q).1 cs p.1 f in (ap₂ (λ a b. a ∷ b) p.0 ih.0, ih.1)
use_ring-use_queue (dropped ∷ us) q cs r f =
    use_ring-use_queue us (kb_clear q) [] (kb_clear-IsQueue q cs r) f
