-- ===== src/BatchedQueue/Tests.antt =====
-- Runs of the queue's definitions, and the theorems applied to them.
use stream_machine.BatchedQueue.{
  BatchedQueue, Input, clock, flush_all, new_queue, object, react_all,
}
use stream_machine.BatchedQueue.Batches.{IsValid, AreBatches, joined, objects_of, react_all-batches}
use stream_machine.Prelude.{◌++◌, List, [], arith, refl, some, ℕ, ◌∷◌, ◌≡◌}

abbrev pairs : BatchedQueue ℕ
pairs = new_queue (some 2) (some 200)

abbrev day : List (Input ℕ)
day = object 0 7 ∷ object 10 8 ∷ object 20 9 ∷ clock 100 ∷ clock 220 ∷ flush_all ∷ object 300 5 ∷ []

batches_of_day : (react_all pairs day).1 ≡ (7 ∷ 8 ∷ []) ∷ (9 ∷ []) ∷ []
unfolding react_all new_queue
batches_of_day = refl

pairs-IsValid : IsValid pairs
unfolding new_queue
pairs-IsValid = record { room = omega arith; timed = λ _. refl }

react_all-batches_example :
    IsValid (react_all pairs day).0
    × ((react_all pairs day).0.size ≡ pairs.size)
    × AreBatches pairs.size (react_all pairs day).1
    × (joined (react_all pairs day).1 ++ (react_all pairs day).0.queue
        ≡ pairs.queue ++ objects_of day)
react_all-batches_example = react_all-batches day pairs pairs-IsValid
