-- ===== src/Detector/Dispatcher.antt =====
-- The queue of the AlertDispatcher of microservices/human_detector/human_detector.py: the thread of
-- the frames, which runs `submit`, and the thread `_worker` share it, and each step is one call of
-- the queue.
pub mod Valid
pub mod Order
pub mod Kept
pub mod Progress
use intruder_watch.Base.{
  [], zero, suc, if◌then◌else◌, List, ℕ, Bool, ◌++◌, ◌∷◌, ltb, ◌+◌, ◌&&◌, leb, length,
}

-- Where `submit` is: it returned, is about to call put_nowait, get_nowait behind queue.Full, or
-- task_done behind that, or task_done raised ValueError.
pub data Phase (X : Type 0) : Type 0 where
  idle : Phase X
  trying : X → Phase X
  full : X → Phase X
  evicted : X → Phase X
  failed : Phase X

-- Where `_worker` is: about to call get, or task_done behind it, or task_done raised ValueError.
pub data Worker (X : Type 0) : Type 0 where
  waiting : Worker X
  working : X → Worker X
  stopped : Worker X

pub data Event (X : Type 0) : Type 0 where
  stored : X → Event X
  discarded : X → Event X
  taken : X → Event X

-- `unfinished` is the queue's count of unfinished tasks. The events are the newest first.
pub record State (X : Type 0) : Type 0 where
  pub items : List X
  pub unfinished : ℕ
  pub phase : Phase X
  pub worker : Worker X
  pub events : List (Event X)

abbrev pub init : {X : Type 0} → State X
init = record { items = []; unfinished = 0; phase = idle; worker = waiting; events = [] }

-- Which thread makes its next step.
pub data Act (X : Type 0) : Type 0 where
  submit : X → Act X
  produce : Act X
  work : Act X

module _ {X : Type 0} (maxsize : ℕ) where
  -- `queue.Full`
  unfoldable pub is_full : List X → Bool
  is_full q = ltb 0 maxsize && leb maxsize (length q)

  unfoldable pub put_nowait : X → State X → State X
  put_nowait x s = if is_full s.items then record s { phase = full x } else record s {
    items = s.items ++ x ∷ [];
    unfinished = s.unfinished + 1;
    phase = idle;
    events = stored x ∷ s.events;
  }

  unfoldable pub get_nowait : X → List X → State X → State X
  get_nowait x [] s = record s { phase = trying x }
  get_nowait x (y ∷ q) s = record s {
    items = q;
    phase = evicted x;
    events = discarded y ∷ s.events;
  }

  unfoldable pub evict_done : X → ℕ → State X → State X
  evict_done x zero s = record s { phase = failed }
  evict_done x (suc n) s = record s { unfinished = n; phase = trying x }

  -- One round of the loop in `submit` is one to three steps.
  unfoldable pub producer : Phase X → State X → State X
  producer idle s = s
  producer (trying x) s = put_nowait x s
  producer (full x) s = get_nowait x s.items s
  producer (evicted x) s = evict_done x s.unfinished s
  producer failed s = s

  unfoldable pub begin : X → Phase X → State X → State X
  begin x idle s = record s { phase = trying x }
  begin x _ s = s

  unfoldable pub receive : List X → State X → State X
  receive [] s = s
  receive (y ∷ q) s = record s { items = q; worker = working y; events = taken y ∷ s.events }

  unfoldable pub work_done : ℕ → State X → State X
  work_done zero s = record s { worker = stopped }
  work_done (suc n) s = record s { unfinished = n; worker = waiting }

  -- The worker waits at an empty queue.
  unfoldable pub consumer : Worker X → State X → State X
  consumer waiting s = receive s.items s
  consumer (working y) s = work_done s.unfinished s
  consumer stopped s = s

  unfoldable pub step : Act X → State X → State X
  step (submit x) s = begin x s.phase s
  step produce s = producer s.phase s
  step work s = consumer s.worker s

  unfoldable pub run : List (Act X) → State X → State X
  run [] s = s
  run (a ∷ acts) s = run acts (step a s)
