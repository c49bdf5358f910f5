-- ===== src/Detector/Dispatcher/Order.antt =====
-- In which order the detections leave the queue (microservices/human_detector/human_detector.py).
use intruder_watch.Detector.Dispatcher.{
  Phase, Worker, State, Act, Event, idle, trying, full, evicted, failed, waiting, working, stopped,
  stored, discarded, taken, submit, produce, work, begin, receive, work_done, consumer, put_nowait,
  get_nowait, evict_done, producer, step, run, is_full, init,
}
use intruder_watch.Base.{
  ℕ, List, [], ◌≡◌, ◌∷◌, refl, zero, suc, Bool-cases, inl, inr, ◌++◌, append_assoc, sym, ◌∙◌, ap,
}

-- What was stored, and what left the queue to be saved or to be thrown away, the oldest first.
abbrev pub puts : {X : Type 0} → List (Event X) → List X
puts [] = []
puts (stored x ∷ es) = puts es ++ x ∷ []
puts (discarded x ∷ es) = puts es
puts (taken x ∷ es) = puts es

abbrev pub removals : {X : Type 0} → List (Event X) → List X
removals [] = []
removals (stored x ∷ es) = removals es
removals (discarded x ∷ es) = removals es ++ x ∷ []
removals (taken x ∷ es) = removals es ++ x ∷ []

abbrev pub IsFifo : {X : Type 0} → State X → Type 0
IsFifo s = puts s.events ≡ removals s.events ++ s.items

module _ {X : Type 0} (maxsize : ℕ) where
  removed :
      (s : State X) (y : X) (q : List X)
      → s.items ≡ y ∷ q
      → IsFifo s
      → puts s.events ≡ removals s.events ++ y ∷ [] ++ q
  removed s y q e h =
      h ∙ ap (λ l. removals s.events ++ l) e ∙ sym (append_assoc (removals s.events) (y ∷ []) q)

  put_nowait-IsFifo : (x : X) (s : State X) → IsFifo s → IsFifo (put_nowait maxsize x s)
  unfolding put_nowait
  put_nowait-IsFifo x s h = elim (Bool-cases (is_full maxsize s.items)) [
    | inl e ↦ rw e h
    | inr e ↦ rw e (ap (λ l. l ++ x ∷ []) h ∙ append_assoc (removals s.events) s.items (x ∷ []))
  ]

  get_nowait-IsFifo :
      (x : X) (q : List X) (s : State X)
      → s.items ≡ q
      → IsFifo s
      → IsFifo (get_nowait maxsize x q s)
  unfolding get_nowait
  get_nowait-IsFifo x [] s e h = h
  get_nowait-IsFifo x (y ∷ q) s e h = removed s y q e h

  receive-IsFifo :
      (q : List X) (s : State X) → s.items ≡ q → IsFifo s → IsFifo (receive maxsize q s)
  unfolding receive
  receive-IsFifo [] s e h = h
  receive-IsFifo (y ∷ q) s e h = removed s y q e h

  evict_done-IsFifo : (x : X) (k : ℕ) (s : State X) → IsFifo s → IsFifo (evict_done maxsize x k s)
  unfolding evict_done
  evict_done-IsFifo x zero s h = h
  evict_done-IsFifo x (suc k) s h = h

  work_done-IsFifo : (k : ℕ) (s : State X) → IsFifo s → IsFifo (work_done maxsize k s)
  unfolding work_done
  work_done-IsFifo zero s h = h
  work_done-IsFifo (suc k) s h = h

  producer-IsFifo : (p : Phase X) (s : State X) → IsFifo s → IsFifo (producer maxsize p s)
  unfolding producer
  producer-IsFifo (trying x) s h = put_nowait-IsFifo x s h
  producer-IsFifo (full x) s h = get_nowait-IsFifo x s.items s refl h
  producer-IsFifo (evicted x) s h = evict_done-IsFifo x s.unfinished s h
  producer-IsFifo idle s h = h
  producer-IsFifo failed s h = h

  consumer-IsFifo : (k : Worker X) (s : State X) → IsFifo s → IsFifo (consumer maxsize k s)
  unfolding consumer
  consumer-IsFifo waiting s h = receive-IsFifo s.items s refl h
  consumer-IsFifo (working y) s h = work_done-IsFifo s.unfinished s h
  consumer-IsFifo stopped s h = h

  begin-IsFifo : (x : X) (p : Phase X) (s : State X) → IsFifo s → IsFifo (begin maxsize x p s)
  unfolding begin
  begin-IsFifo x idle s h = h
  begin-IsFifo x _ s h = h

  step-IsFifo : (a : Act X) (s : State X) → IsFifo s → IsFifo (step maxsize a s)
  unfolding step
  step-IsFifo (submit x) s = begin-IsFifo x s.phase s
  step-IsFifo produce s = producer-IsFifo s.phase s
  step-IsFifo work s = consumer-IsFifo s.worker s

  run-IsFifo_from : (acts : List (Act X)) (s : State X) → IsFifo s → IsFifo (run maxsize acts s)
  unfolding run
  run-IsFifo_from [] s h = h
  run-IsFifo_from (a ∷ acts) s h = run-IsFifo_from acts (step maxsize a s) (step-IsFifo a s h)

  -- In every interleaving the detections that were stored are, in their order, those that left the
  -- queue, to the worker or discarded, and then those that are still in it: what is discarded is
  -- always the oldest.
  pub run-IsFifo :
      (acts : List (Act X))
      → puts (run maxsize acts init).events
        ≡ removals (run maxsize acts init).events ++ (run maxsize acts init).items
  run-IsFifo acts = run-IsFifo_from acts init refl
