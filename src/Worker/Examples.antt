-- ===== src/Worker/Examples.antt =====
-- cpp/include/snapshot_worker.hpp: a concrete queue.
use t2s.Base.{ℕ, [], ◌∷◌, ◌++◌, refl, false, arith}
use t2s.Worker.{BoundedQueue}
use t2s.Worker.Queue.{IsNewest, push_all, push_all-IsNewest}

abbrev two_places : BoundedQueue ℕ
two_places = record { capacity = 2; items = 7 ∷ []; shut_down = false }

seven-IsNewest : IsNewest (7 ∷ []) two_places
unfolding IsNewest
seven-IsNewest = (refl, omega arith, refl)

push_all-IsNewest_example :
    IsNewest ((7 ∷ []) ++ (8 ∷ 9 ∷ 10 ∷ [])) (push_all (8 ∷ 9 ∷ 10 ∷ []) two_places)
push_all-IsNewest_example = push_all-IsNewest (8 ∷ 9 ∷ 10 ∷ []) (7 ∷ []) two_places seven-IsNewest
