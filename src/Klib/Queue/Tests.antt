-- ===== src/Klib/Queue/Tests.antt =====
-- The queue on a few nodes, and its theorems there.
use quark_os.Prelude.{ℕ, ◌≡◌, ◌≢◌, refl, arith, [], ◌∷◌}
use quark_os.Klib.Queue.{LfQueue, init, put, get}
use quark_os.Klib.Queue.Fifo.{IsQueue, init-IsQueue, put-IsQueue, get-cons}

-- A queue with the dummy node 1 and the nodes 2 and 3.
abbrev empty_queue : LfQueue
empty_queue = init (λ a. 0) 1

abbrev queued : LfQueue
queued = put empty_queue 2

queued-IsQueue : IsQueue queued (2 ∷ [])
unfolding init put
queued-IsQueue = put-IsQueue empty_queue 2 [] (init-IsQueue (λ a. 0) 1) (omega arith) refl

put-IsQueue_example : IsQueue (put queued 3) (2 ∷ 3 ∷ [])
unfolding init put
put-IsQueue_example = put-IsQueue queued 3 (2 ∷ []) queued-IsQueue (omega arith) refl

two_queued : IsQueue (put queued 3) (2 ∷ 3 ∷ [])
unfolding init put
two_queued = put-IsQueue queued 3 (2 ∷ []) queued-IsQueue (omega arith) refl

get-cons_example :
    ((get (put queued 3)).0 ≡ 2) × (◌≢◌ {A = ℕ} 2 0) × IsQueue (get (put queued 3)).1 (3 ∷ [])
get-cons_example = get-cons (put queued 3) 2 (3 ∷ []) two_queued
