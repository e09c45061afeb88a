-- ===== src/Klib/Queue.antt =====
-- kernel/lib/queue.c: a singly linked FIFO with a dummy node, each operation under the queue's lock.
-- A node is its address, NULL is 0, and the nodes' `next` fields are a function.
pub mod Fifo
mod Tests
use quark_os.Prelude.{ℕ, ◌==◌, if◌then◌else◌, store}

-- `lf_queue` with the store that its nodes live in
pub record LfQueue : Type 0 where
  pub next : ℕ → ℕ
  pub head : ℕ
  pub tail : ℕ

pub node_init : LfQueue → ℕ → LfQueue
node_init q node = record q { next = store q.next node 0 }

-- `dummy` is the address of the field `queue->dummy`.
pub init : (ℕ → ℕ) → ℕ → LfQueue
init next dummy = record { next = store next dummy 0; head = dummy; tail = dummy }

pub put : LfQueue → ℕ → LfQueue
put q node =
    let linked =
      if q.next q.head == 0 then store q.next q.head node else store q.next q.tail node in
    record q { next = store linked node 0; tail = node }

-- What is returned is the address of the node, or NULL.
pub get : LfQueue → ℕ × LfQueue
get q =
    let next = q.next q.head in
    if next == 0 then (0, q) else (next, record q { next = store q.next q.head (q.next next) })
