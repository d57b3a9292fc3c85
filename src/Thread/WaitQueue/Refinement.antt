-- ===== src/Thread/WaitQueue/Refinement.antt =====
-- The circular arrays of src/libnanvix/thread/{mutex,semaphore,condvar}.c answer every sequence of
-- operations as a list does.
use libnanvix.Shared.{
  ℕ, zero, suc, ◌+◌, ◌<◌, ◌≡◌, refl, ap, List, [], ◌∷◌, ◌++◌, Option, none, some, length,
  length-append,
}
use libnanvix.Thread.WaitQueue.Defs.{
  WaitQueue, init, enqueue, dequeue, dequeue_clear, enqueue_after, dequeue_after,
}
use libnanvix.Thread.WaitQueue.Fifo.{
  Holds, Dequeued, init-Holds, enqueue-Holds, enqueue_after-Holds, dequeue-Holds,
  dequeue_clear-Holds, dequeue_after-Holds,
}

-- What the three source files provide: a way to put a thread into the queue and one to take it out.
pub record Queue (max : ℕ) : Type 0 where
  pub first : ℕ
  pub put : ℕ → WaitQueue → WaitQueue
  pub take : WaitQueue → Option ℕ × WaitQueue
  pub put-Holds :
      (q : WaitQueue) (xs : List ℕ) (tid : ℕ)
      → length xs < max
      → Holds first max q xs
      → Holds first max (put tid q) (xs ++ tid ∷ [])
  pub take-Holds :
      (q : WaitQueue) (xs : List ℕ) → Holds first max q xs → Dequeued first max q xs (take q)

pub data Call : Type 0 where
  puts : ℕ → Call
  takes : Call

-- The threads that a sequence of calls takes out, from the array.
pub run : {max : ℕ} → Queue max → WaitQueue → List Call → List (Option ℕ)
run f q [] = []
run f q (puts tid ∷ calls) = run f (f.put tid q) calls
run f q (takes ∷ calls) = (f.take q).0 ∷ run f (f.take q).1 calls

-- And from a list, the oldest thread first.
unfoldable pub run_list : List ℕ → List Call → List (Option ℕ)
run_list xs [] = []
run_list xs (puts tid ∷ calls) = run_list (xs ++ tid ∷ []) calls
run_list [] (takes ∷ calls) = none ∷ run_list [] calls
run_list (x ∷ xs) (takes ∷ calls) = some x ∷ run_list xs calls

-- No call puts a thread into a queue that already holds `max`, where `k` are in the queue.
abbrev pub Fits : ℕ → ℕ → List Call → Type 0
Fits max k [] = Unit {0}
Fits max k (puts tid ∷ calls) = (k < max) × Fits max (k + 1) calls
Fits max zero (takes ∷ calls) = Fits max zero calls
Fits max (suc k) (takes ∷ calls) = Fits max k calls

module _ {max : ℕ} (f : Queue max) where
  run-eq-run_list :
      (q : WaitQueue) (xs : List ℕ) (calls : List Call)
      → Holds f.first max q xs
      → Fits max (length xs) calls
      → run f q calls ≡ run_list xs calls
  unfolding run run_list
  run-eq-run_list q xs [] h fits = refl
  run-eq-run_list q xs (puts tid ∷ calls) h fits =
      run-eq-run_list (f.put tid q) (xs ++ tid ∷ []) calls (f.put-Holds q xs tid fits.0 h)
        (rw (length-append xs (tid ∷ [])) fits.1)
  run-eq-run_list q [] (takes ∷ calls) h fits =
      rw (f.take-Holds q [] h) (ap (◌∷◌ none) (run-eq-run_list q [] calls h fits))
  run-eq-run_list q (x ∷ xs) (takes ∷ calls) h fits =
      let out = f.take-Holds q (x ∷ xs) h in
      rw out.0 (ap (◌∷◌ (some x)) (run-eq-run_list (f.take q).1 xs calls out.1 fits))

abbrev pub mutex_queue : (max : ℕ) → Queue max
mutex_queue max = record {
  first = 0;
  put = enqueue max;
  take = dequeue max;
  put-Holds = λ q xs tid room h. enqueue-Holds tid room h;
  take-Holds = λ q xs h. dequeue-Holds xs h;
}

abbrev pub semaphore_queue : (max : ℕ) → Queue max
semaphore_queue max = record {
  first = 0;
  put = enqueue max;
  take = dequeue_clear max;
  put-Holds = λ q xs tid room h. enqueue-Holds tid room h;
  take-Holds = λ q xs h. dequeue_clear-Holds xs h;
}

abbrev pub condvar_queue : (max : ℕ) → Queue max
condvar_queue max = record {
  first = 1;
  put = enqueue_after max;
  take = dequeue_after max;
  put-Holds = λ q xs tid room h. enqueue_after-Holds tid room h;
  take-Holds = λ q xs h. dequeue_after-Holds xs h;
}

-- From the initial queue, the queues of a mutex, of a semaphore and of a condition variable hand
-- the threads out in the order in which they came in, as a list would, for any sequence of calls
-- that puts no thread into a full queue.
pub queues-refine :
    (max : ℕ) (calls : List Call)
    → 0 < max
    → Fits max 0 calls
    → (run (mutex_queue max) init calls ≡ run_list [] calls)
      × (run (semaphore_queue max) init calls ≡ run_list [] calls)
      × (run (condvar_queue max) init calls ≡ run_list [] calls)
queues-refine max calls pos fits = (
  run-eq-run_list (mutex_queue max) init [] calls (init-Holds 0 max pos) fits,
  run-eq-run_list (semaphore_queue max) init [] calls (init-Holds 0 max pos) fits,
  run-eq-run_list (condvar_queue max) init [] calls (init-Holds 1 max pos) fits,
)
