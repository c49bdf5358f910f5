-- ===== src/Detector/Dispatcher/Progress.antt =====
-- That `submit` comes to its end (microservices/human_detector/human_detector.py).
use intruder_watch.Detector.Dispatcher.Kept.{NoSubmit, Stored, Kept-Stored, run-Kept}
use intruder_watch.Detector.Dispatcher.Valid.{IsValid, step-IsValid, busy}
use intruder_watch.Detector.Dispatcher.{
  Phase, Worker, State, Act, idle, trying, full, evicted, failed, waiting, working, stopped, submit,
  produce, work, receive, work_done, consumer, put_nowait, get_nowait, evict_done, producer, step,
  run, is_full,
}
use intruder_watch.Base.{
  ℕ, ◌<◌, ◌≤◌, length, List, [], ◌≡◌, ◌∷◌, ◌+◌, ◌≢◌, refl, zero, suc, Bool-cases, inl, inr, arith,
  ◌-◌, if◌then◌else◌,
}

-- Behind an eviction there is room in the queue.
abbrev pub HasRoom : {X : Type 0} → ℕ → Phase X → List X → Type 0
HasRoom maxsize (evicted x) q = length q < maxsize
HasRoom maxsize _ q = Unit

-- How many steps `submit` still makes at most.
abbrev pub rank : {X : Type 0} → ℕ → Phase X → List X → ℕ
rank maxsize idle q = 0
rank maxsize (trying x) q = if is_full maxsize q then 4 else 1
rank maxsize (full x) q = 3
rank maxsize (evicted x) q = 2
rank maxsize failed q = 0

abbrev pub steps_left : {X : Type 0} → ℕ → State X → ℕ
steps_left maxsize s = rank maxsize s.phase s.items

abbrev pub produced : {X : Type 0} → List (Act X) → ℕ
produced [] = 0
produced (produce ∷ acts) = suc (produced acts)
produced (_ ∷ acts) = produced acts

module _ {X : Type 0} (maxsize : ℕ) (bounded : 0 < maxsize) where
  abbrev Good : State X → Type 0
  Good s = IsValid maxsize s × HasRoom maxsize s.phase s.items

  -- A step of `submit` leads on: there is room behind an eviction, and fewer steps are left.
  abbrev Advances : Phase X → List X → State X → Type 0
  Advances p q s' =
      HasRoom maxsize s'.phase s'.items × (steps_left maxsize s' ≤ rank maxsize p q - 1)

  put_nowait-Advances : (x : X) (s : State X) → Advances (trying x) s.items (put_nowait maxsize x s)
  unfolding put_nowait
  put_nowait-Advances x s = elim (Bool-cases (is_full maxsize s.items)) [
    | inl e ↦ rw e (tt, omega arith)
    | inr e ↦ rw e (tt, omega arith)
  ]

  get_nowait-Advances :
      (x : X) (q : List X) (s : State X)
      → s.items ≡ q
      → length q ≤ maxsize
      → Advances (full x) q (get_nowait maxsize x q s)
  unfolding get_nowait is_full
  get_nowait-Advances x [] s e h = (tt, rw e (ground (arith, bounded)))
  get_nowait-Advances x (y ∷ q) s e h = (omega arith, omega arith)

  evict_done-Advances :
      (x : X) (k : ℕ) (s : State X)
      → s.unfinished ≡ k
      → 0 < k
      → length s.items < maxsize
      → Advances (evicted x) s.items (evict_done maxsize x k s)
  unfolding evict_done is_full
  evict_done-Advances x zero s e h room = absurd (omega arith)
  evict_done-Advances x (suc k) s e h room = (tt, ground (arith, room))

  producer-Advances :
      (p : Phase X) (s : State X) → s.phase ≡ p → Good s → Advances p s.items (producer maxsize p s)
  unfolding producer
  producer-Advances idle s e g = rw e (tt, omega arith)
  producer-Advances (trying x) s e g = put_nowait-Advances x s
  producer-Advances (full x) s e ((h, n, p, w), _) = get_nowait-Advances x s.items s refl h
  producer-Advances (evicted x) s e ((h, n, p, w), room) =
      let count : s.unfinished ≡ length s.items + 1 + busy s.worker = rw e at n in
      evict_done-Advances x s.unfinished s refl (omega arith) (rw e at room)
  producer-Advances failed s e g = rw e (tt, omega arith)

  -- What the worker does takes nothing of that away.
  smaller-room :
      (p : Phase X) (y : X) (q : List X) → HasRoom maxsize p (y ∷ q) → HasRoom maxsize p q
  smaller-room (evicted x) y q h = omega arith
  smaller-room _ y q h = tt

  smaller-rank : (p : Phase X) (y : X) (q : List X) → rank maxsize p q ≤ rank maxsize p (y ∷ q)
  unfolding is_full
  smaller-rank (trying x) y q = ground arith
  smaller-rank _ y q = omega arith

  abbrev Stays : State X → State X → Type 0
  Stays s s' = HasRoom maxsize s'.phase s'.items × (steps_left maxsize s' ≤ steps_left maxsize s)

  receive-Stays :
      (q : List X) (s : State X)
      → s.items ≡ q
      → HasRoom maxsize s.phase s.items
      → Stays s (receive maxsize q s)
  unfolding receive
  receive-Stays [] s e room = (room, omega arith)
  receive-Stays (y ∷ q) s e room =
      (smaller-room s.phase y q (rw e at room), rw e (smaller-rank s.phase y q))

  work_done-Stays :
      (k : ℕ) (s : State X) → HasRoom maxsize s.phase s.items → Stays s (work_done maxsize k s)
  unfolding work_done
  work_done-Stays zero s room = (room, omega arith)
  work_done-Stays (suc k) s room = (room, omega arith)

  consumer-Stays :
      (k : Worker X) (s : State X)
      → HasRoom maxsize s.phase s.items
      → Stays s (consumer maxsize k s)
  unfolding consumer
  consumer-Stays waiting s room = receive-Stays s.items s refl room
  consumer-Stays (working y) s room = work_done-Stays s.unfinished s room
  consumer-Stays stopped s room = (room, omega arith)

  run-steps :
      (acts : List (Act X)) (s : State X)
      → NoSubmit acts
      → Good s
      → IsValid maxsize (run maxsize acts s)
        × (steps_left maxsize (run maxsize acts s) ≤ steps_left maxsize s - produced acts)
  unfolding run step
  run-steps [] s alone g = (g.0, omega arith)
  run-steps (produce ∷ acts) s alone (valid, room) =
      let (more, less) = producer-Advances s.phase s refl (valid, room) in
      let (end_valid, left) =
        run-steps acts (step maxsize produce s) alone
          (step-IsValid maxsize bounded produce s valid, more) in
      (end_valid, omega arith)
  run-steps (work ∷ acts) s alone (valid, room) =
      let (more, less) = consumer-Stays s.worker s room in
      let (end_valid, left) =
        run-steps acts (step maxsize work s) alone
          (step-IsValid maxsize bounded work s valid, more) in
      (end_valid, omega arith)
  run-steps (submit x ∷ acts) s alone g = absurd alone

  returned : (p : Phase X) (q : List X) → rank maxsize p q ≤ 0 → p ≢ failed → p ≡ idle
  returned idle q h n = refl
  returned (trying x) q h n = ground arith
  returned (full x) q h n = absurd (omega arith)
  returned (evicted x) q h n = absurd (omega arith)
  returned failed q h n = absurd (n refl)

  rank-most : (p : Phase X) (q : List X) → rank maxsize p q ≤ 4
  rank-most (trying x) q = ground arith
  rank-most _ q = omega arith

  -- For a queue with a positive bound, from any state in which the count of the tasks is right: a
  -- `submit` of a detection needs at most four steps, however the steps of the worker lie between
  -- them. Behind them it has returned, and the detection has been stored.
  pub run-returned :
      (x : X) (acts : List (Act X)) (s : State X)
      → IsValid maxsize s
      → s.phase ≡ trying x
      → NoSubmit acts
      → 4 ≤ produced acts
      → ((run maxsize acts s).phase ≡ idle) × Stored x (run maxsize acts s).events
  run-returned x acts s valid e alone enough =
      let (end_valid, left) = run-steps acts s alone (valid, rw e tt) in
      let most : steps_left maxsize s ≤ 4 = rank-most s.phase s.items in
      let back : (run maxsize acts s).phase ≡ idle =
        returned _ (run maxsize acts s).items (omega arith) end_valid.2 in
      (
        back,
        Kept-Stored maxsize x (run maxsize acts s) back
            (run-Kept maxsize x acts s alone (inl (rw e refl))),
      )
