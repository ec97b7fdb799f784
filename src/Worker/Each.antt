-- ===== src/Worker/Each.antt =====
-- cpp/include/snapshot_worker.hpp: what holds of each request and of each result that waits.
use t2s.Base.{
  ℕ, Bool, true, false, String, List, [], ◌∷◌, length, leb, All, All-append, if_cases,
  if◌then◌else◌, ◌≡◌, refl,
}
use t2s.Worker.{
  BoundedQueue, SnapshotRequest, SnapshotResult, SnapshotWorker, push, pop, drop_front,
  enqueue_request, drain_results, drain, work, new_worker, new_queue,
}

All-push :
    {T : Type 0} (P : T → Type 0) (x : T) (q : BoundedQueue T)
    → P x
    → All P q.items
    → All P (push x q).0.items
unfolding push drop_front
All-push {T = T} P x q p all =
    if_cases (λ (r : BoundedQueue _ × Bool). All P r.0.items) q.shut_down _ _ (λ _. all)
      (λ _. All-append P _ (x ∷ []) (kept (leb q.capacity (length q.items)) q.items all) (p, tt))
  where
    kept : (full : Bool) (xs : List T) → All P xs → All P (if full then drop_front xs else xs)
    kept true [] all = tt
    kept true (y ∷ ys) all = all.1
    kept false xs all = all

module _ {Data : Type 0} (A : SnapshotRequest → Type 0) (B : SnapshotResult Data → Type 0) where
  -- `A` of each request that waits, and `B` of each result.
  abbrev pub HoldEach : SnapshotWorker Data → Type 0
  HoldEach w = All A w.requests.items × All B w.results.items

  pub new_worker-HoldEach : HoldEach new_worker
  unfolding new_worker new_queue
  new_worker-HoldEach = (tt, tt)

  pub enqueue_request-HoldEach :
      (i : ℕ) (name : String) (w : SnapshotWorker Data)
      → ((id : ℕ) → A (record { sym_idx = i; sym = name; request_id = id }))
      → HoldEach w
      → HoldEach (enqueue_request i name w).0
  unfolding enqueue_request
  enqueue_request-HoldEach i name w a (as_, bs) = (All-push A _ w.requests (a _) as_, bs)

  pub work-HoldEach :
      (fetch : String → Data) (w : SnapshotWorker Data)
      → ((r : SnapshotRequest)
          → A r
          → B (record {
            sym_idx = r.sym_idx;
            sym = r.sym;
            request_id = r.request_id;
            reply = fetch r.sym;
          }))
      → HoldEach w
      → HoldEach (work fetch w)
  unfolding work pop
  work-HoldEach fetch w keeps (as_, bs) = go w.requests.items refl as_
    where
      go :
          (rs : List SnapshotRequest)
          → w.requests.items ≡ rs
          → All A rs
          → HoldEach (work fetch (record w { requests = record w.requests { items = rs } }))
      go [] e as_ = (tt, bs)
      go (r ∷ rs) e as_ = (as_.1, All-push B _ w.results (keeps r as_.0) bs)

  -- What is drained held of each result, and no result is left.
  pub drain_results-HoldEach :
      (w : SnapshotWorker Data)
      → HoldEach w
      → HoldEach (drain_results w).0 × All B (drain_results w).1
  unfolding drain_results drain
  drain_results-HoldEach w (as_, bs) = ((as_, tt), bs)
