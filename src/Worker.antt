-- ===== src/Worker.antt =====
-- cpp/include/snapshot_worker.hpp: the bounded queue and the snapshot worker. A queue's mutex makes its
-- operations atomic; the worker's thread is the step that takes a request and pushes its result.
pub mod Queue
pub mod Each
pub mod Examples
use t2s.Base.{
  ℕ, suc, ◌+◌, Bool, true, false, not, Option, none, some, String, List, [], ◌∷◌, ◌++◌, length, leb,
  if◌then◌else◌,
}

pub record BoundedQueue (T : Type 0) : Type 0 where
  pub capacity : ℕ
  pub items : List T
  pub shut_down : Bool

pub new_queue : {T : Type 0} → ℕ → BoundedQueue T
new_queue capacity = record { capacity = capacity; items = []; shut_down = false }

pub drop_front : {T : Type 0} → List T → List T
drop_front [] = []
drop_front (x ∷ xs) = xs

-- push: false when the oldest was dropped, and when the queue is shut down and the item is not taken.
pub push : {T : Type 0} → T → BoundedQueue T → BoundedQueue T × Bool
unfolding drop_front
push x q =
    let full = leb q.capacity (length q.items) in
    if q.shut_down
    then (q, false)
    else (record q { items = (if full then drop_front q.items else q.items) ++ (x ∷ []) }, not full)

-- pop_blocking once there is an item or a shutdown, and try_pop.
pub pop : {T : Type 0} → BoundedQueue T → BoundedQueue T × Option T
pop q = elim q.items [ [] ↦ (q, none) | x ∷ xs ↦ (record q { items = xs }, some x) ]

pub drain : {T : Type 0} → BoundedQueue T → BoundedQueue T × List T
drain q = (record q { items = [] }, q.items)

pub shutdown : {T : Type 0} → BoundedQueue T → BoundedQueue T
shutdown q = record q { shut_down = true }

pub record SnapshotRequest : Type 0 where
  pub sym_idx : ℕ
  pub sym : String
  pub request_id : ℕ

-- Data is what the fetcher returns, code outside the worker.
pub record SnapshotResult (Data : Type 0) : Type 0 where
  pub sym_idx : ℕ
  pub sym : String
  pub request_id : ℕ
  pub reply : Data

pub record SnapshotWorker (Data : Type 0) : Type 0 where
  pub requests : BoundedQueue SnapshotRequest
  pub results : BoundedQueue (SnapshotResult Data)
  pub running : Bool
  pub next_request_id : ℕ

abbrev pub queue_capacity : ℕ
queue_capacity = 10

pub new_worker : {Data : Type 0} → SnapshotWorker Data
unfolding new_queue
new_worker = record {
  requests = new_queue queue_capacity;
  results = new_queue queue_capacity;
  running = false;
  next_request_id = 0;
}

pub enqueue_request : {Data : Type 0} → ℕ → String → SnapshotWorker Data → SnapshotWorker Data × ℕ
unfolding push
enqueue_request sym_idx sym w =
    let id = w.next_request_id + 1 in
    let request : SnapshotRequest = record { sym_idx = sym_idx; sym = sym; request_id = id } in
    (record w { next_request_id = id; requests = (push request w.requests).0 }, id)

pub drain_results :
    {Data : Type 0} → SnapshotWorker Data → SnapshotWorker Data × List (SnapshotResult Data)
unfolding drain
drain_results w = (record w { results = (drain w.results).0 }, (drain w.results).1)

-- One pass of the worker's loop, with the fetcher's answer.
pub work : {Data : Type 0} → (String → Data) → SnapshotWorker Data → SnapshotWorker Data
unfolding pop push
work fetch w =
    let popped = pop w.requests in
    elim popped.1 [
      | none ↦ w
      | some r ↦ record w {
        requests = popped.0;
        results =
            (push
              (record {
                sym_idx = r.sym_idx;
                sym = r.sym;
                request_id = r.request_id;
                reply = fetch r.sym;
              })
              w.results).0;
      }
    ]

pub stop : {Data : Type 0} → SnapshotWorker Data → SnapshotWorker Data
unfolding shutdown
stop w =
    if not w.running
    then w
    else record w { running = false; requests = shutdown w.requests; results = shutdown w.results }
