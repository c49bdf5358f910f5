-- ===== src/Detector/Dispatcher/Kept.antt =====
-- That a detection is not lost on its way into the queue
-- (microservices/human_detector/human_detector.py).
use intruder_watch.Detector.Dispatcher.{
  Phase, Worker, State, Act, Event, idle, trying, full, evicted, failed, waiting, working, stopped,
  stored, submit, produce, work, receive, work_done, consumer, put_nowait, get_nowait, evict_done,
  producer, step, run, is_full,
}
use intruder_watch.Base.{ℕ, List, [], ◌≡◌, ◌∷◌, refl, zero, suc, Bool-cases, inl, inr, ◌⊎◌}

-- `submit` is called only by the thread that is in it.
abbrev pub NoSubmit : {X : Type 0} → List (Act X) → Type 0
NoSubmit [] = Unit
NoSubmit (submit x ∷ acts) = ⊥
NoSubmit (_ ∷ acts) = NoSubmit acts

abbrev pub Carries : {X : Type 0} → X → Phase X → Type 0
Carries x idle = ⊥
Carries x (trying y) = y ≡ x
Carries x (full y) = y ≡ x
Carries x (evicted y) = y ≡ x
Carries x failed = Unit

abbrev pub Stored : {X : Type 0} → X → List (Event X) → Type 0
Stored x [] = ⊥
Stored x (stored y ∷ es) = (y ≡ x) ⊎ Stored x es
Stored x (_ ∷ es) = Stored x es

-- A detection that is being submitted is in the hands of `submit` or has been stored, unless
-- task_done raised.
module _ {X : Type 0} (maxsize : ℕ) (x : X) where
  abbrev pub Kept : State X → Type 0
  Kept s = Carries x s.phase ⊎ Stored x s.events

  get_nowait-Kept :
      (y : X) (q : List X) (s : State X)
      → (y ≡ x) ⊎ Stored x s.events
      → Kept (get_nowait maxsize y q s)
  unfolding get_nowait
  get_nowait-Kept y [] s k = k
  get_nowait-Kept y (z ∷ q) s k = k

  put_nowait-Kept :
      (y : X) (s : State X) → (y ≡ x) ⊎ Stored x s.events → Kept (put_nowait maxsize y s)
  unfolding put_nowait
  put_nowait-Kept y s k = elim (Bool-cases (is_full maxsize s.items)) [
    | inl e ↦ rw e k
    | inr e ↦ rw e (inr k)
  ]

  evict_done-Kept :
      (y : X) (n : ℕ) (s : State X) → (y ≡ x) ⊎ Stored x s.events → Kept (evict_done maxsize y n s)
  unfolding evict_done
  evict_done-Kept y zero s k = inl tt
  evict_done-Kept y (suc n) s k = k

  producer-Kept :
      (p : Phase X) (s : State X)
      → s.phase ≡ p
      → Carries x p ⊎ Stored x s.events
      → Kept (producer maxsize p s)
  unfolding producer
  producer-Kept idle s e k = rw e k
  producer-Kept (trying y) s e k = put_nowait-Kept y s k
  producer-Kept (full y) s e k = get_nowait-Kept y s.items s k
  producer-Kept (evicted y) s e k = evict_done-Kept y s.unfinished s k
  producer-Kept failed s e k = rw e k

  receive-Kept : (q : List X) (s : State X) → Kept s → Kept (receive maxsize q s)
  unfolding receive
  receive-Kept [] s k = k
  receive-Kept (y ∷ q) s k = k

  work_done-Kept : (n : ℕ) (s : State X) → Kept s → Kept (work_done maxsize n s)
  unfolding work_done
  work_done-Kept zero s k = k
  work_done-Kept (suc n) s k = k

  consumer-Kept : (w : Worker X) (s : State X) → Kept s → Kept (consumer maxsize w s)
  unfolding consumer
  consumer-Kept waiting s k = receive-Kept s.items s k
  consumer-Kept (working y) s k = work_done-Kept s.unfinished s k
  consumer-Kept stopped s k = k

  pub run-Kept :
      (acts : List (Act X)) (s : State X) → NoSubmit acts → Kept s → Kept (run maxsize acts s)
  unfolding run step
  run-Kept [] s alone k = k
  run-Kept (submit y ∷ acts) s alone k = absurd alone
  run-Kept (produce ∷ acts) s alone k =
      run-Kept acts (step maxsize produce s) alone (producer-Kept s.phase s refl k)
  run-Kept (work ∷ acts) s alone k =
      run-Kept acts (step maxsize work s) alone (consumer-Kept s.worker s k)

  pub Kept-Stored : (s : State X) → s.phase ≡ idle → Kept s → Stored x s.events
  Kept-Stored s e (inl c) = absurd (rw e at c)
  Kept-Stored s e (inr k) = k
