-- ===== src/Detector/Dispatcher/Valid.antt =====
-- The bound of the queue and its count of unfinished tasks
-- (microservices/human_detector/human_detector.py).
-- The tasks that `submit` and `_worker` have taken and not yet marked as done.
use intruder_watch.Detector.Dispatcher.{
  Phase, Worker, State, Act, idle, trying, full, evicted, failed, waiting, working, stopped, submit,
  produce, work, begin, receive, work_done, consumer, put_nowait, get_nowait, evict_done, producer,
  step, run, is_full,
}
use intruder_watch.Base.{
  [], ℕ, ◌<◌, length, ◌≤◌, List, ◌≡◌, ◌∷◌, ◌+◌, ◌≢◌, refl, zero, suc, arith, length-append,
}

abbrev pub evicting : {X : Type 0} → Phase X → ℕ
evicting (evicted x) = 1
evicting _ = 0

abbrev pub busy : {X : Type 0} → Worker X → ℕ
busy (working y) = 1
busy _ = 0

-- The queue is within its bound, every task of the queue or in the hands of a thread is counted
-- once, and neither thread has failed.
abbrev pub IsValid : {X : Type 0} → ℕ → State X → Type 0
IsValid maxsize s =
    (length s.items ≤ maxsize)
    × (s.unfinished ≡ length s.items + evicting s.phase + busy s.worker)
    × (s.phase ≢ failed)
    × (s.worker ≢ stopped)

module _ {X : Type 0} (maxsize : ℕ) (bounded : 0 < maxsize) where
  begin-IsValid :
      (x : X) (p : Phase X) (s : State X)
      → s.phase ≡ p
      → IsValid maxsize s
      → IsValid maxsize (begin maxsize x p s)
  unfolding begin
  begin-IsValid x idle s e (h, n, p, w) = (h, rw e at n, (λ q. cc), w)
  begin-IsValid x _ s e valid = valid

  receive-IsValid :
      (q : List X) (s : State X)
      → s.items ≡ q
      → s.worker ≡ waiting
      → IsValid maxsize s
      → IsValid maxsize (receive maxsize q s)
  unfolding receive
  receive-IsValid [] s e i valid = valid
  receive-IsValid (y ∷ q) s e i (h, n, p, w) = ground (arith, e, i, h, n, p, w)

  work_done-IsValid :
      (y : X) (k : ℕ) (s : State X)
      → s.unfinished ≡ k
      → s.worker ≡ working y
      → IsValid maxsize s
      → IsValid maxsize (work_done maxsize k s)
  unfolding work_done
  work_done-IsValid y zero s e i (h, n, p, w) = ground (arith, e, i, h, n, p, w)
  work_done-IsValid y (suc k) s e i (h, n, p, w) = ground (arith, e, i, h, n, p, w)

  evict_done-IsValid :
      (x : X) (k : ℕ) (s : State X)
      → s.unfinished ≡ k
      → s.phase ≡ evicted x
      → IsValid maxsize s
      → IsValid maxsize (evict_done maxsize x k s)
  unfolding evict_done
  evict_done-IsValid x zero s e i (h, n, p, w) = ground (arith, e, i, h, n, p, w)
  evict_done-IsValid x (suc k) s e i (h, n, p, w) = ground (arith, e, i, h, n, p, w)

  get_nowait-IsValid :
      (x : X) (q : List X) (s : State X)
      → s.items ≡ q
      → s.phase ≡ full x
      → IsValid maxsize s
      → IsValid maxsize (get_nowait maxsize x q s)
  unfolding get_nowait
  get_nowait-IsValid x [] s e i (h, n, p, w) = ground (arith, e, i, h, n, p, w)
  get_nowait-IsValid x (y ∷ q) s e i (h, n, p, w) = ground (arith, e, i, h, n, p, w)

  put_nowait-IsValid :
      (x : X) (s : State X)
      → s.phase ≡ trying x
      → IsValid maxsize s
      → IsValid maxsize (put_nowait maxsize x s)
  unfolding put_nowait is_full
  put_nowait-IsValid x s i (h, n, p, w) =
      ground (arith, i, h, n, p, w, bounded, length-append s.items (x ∷ []))

  consumer-IsValid :
      (k : Worker X) (s : State X)
      → s.worker ≡ k
      → IsValid maxsize s
      → IsValid maxsize (consumer maxsize k s)
  unfolding consumer
  consumer-IsValid waiting s e valid = receive-IsValid s.items s refl e valid
  consumer-IsValid (working y) s e valid = work_done-IsValid y s.unfinished s refl e valid
  consumer-IsValid stopped s e valid = valid

  producer-IsValid :
      (p : Phase X) (s : State X)
      → s.phase ≡ p
      → IsValid maxsize s
      → IsValid maxsize (producer maxsize p s)
  unfolding producer
  producer-IsValid idle s e valid = valid
  producer-IsValid (trying x) s e valid = put_nowait-IsValid x s e valid
  producer-IsValid (full x) s e valid = get_nowait-IsValid x s.items s refl e valid
  producer-IsValid (evicted x) s e valid = evict_done-IsValid x s.unfinished s refl e valid
  producer-IsValid failed s e valid = valid

  pub step-IsValid :
      (a : Act X) (s : State X) → IsValid maxsize s → IsValid maxsize (step maxsize a s)
  unfolding step
  step-IsValid (submit x) s = begin-IsValid x s.phase s refl
  step-IsValid produce s = producer-IsValid s.phase s refl
  step-IsValid work s = consumer-IsValid s.worker s refl

  -- For a queue with a positive bound, from any state in which this holds, as in the first one,
  -- and in every interleaving of the two threads: the queue holds at most its bound, each task
  -- that is in it or in the hands of a thread is counted once as unfinished, and task_done has
  -- raised neither in `submit` nor in the worker.
  pub run-IsValid :
      (acts : List (Act X)) (s : State X) → IsValid maxsize s → IsValid maxsize (run maxsize acts s)
  unfolding run
  run-IsValid [] s h = h
  run-IsValid (a ∷ acts) s h = run-IsValid acts (step maxsize a s) (step-IsValid a s h)
