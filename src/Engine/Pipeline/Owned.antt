-- ===== src/Engine/Pipeline/Owned.antt =====
-- Nobody else uses a frame's buffer (microservices/frame_capturer/pipeline.go).
use intruder_watch.Engine.Config.{Config}
use intruder_watch.Engine.Pipeline.{
  FrameItem, Codecs, Pipeline, WorkerStep, receive, process_frame, acquire_frame, borrow, take_at,
  release_frame, submit, receive_frame, process_frame_of, dispatch_jpeg, process, worker_step,
  worker_steps,
}
use intruder_watch.Engine.Pipeline.Fifo.{in_hand}
use intruder_watch.Base.Counts.{one_if}
use intruder_watch.Str.{Text}
use intruder_watch.Base.{
  ℕ, zero, suc, ◌+◌, ◌≡◌, ◌≤◌, refl, ap, Bool, Option, none, some, List, [], ◌∷◌, ◌++◌, ltb, ◌==◌,
  length, inl, inr, Bool-cases, arith,
}

-- How often a buffer stands in a list.
abbrev pub copies : ℕ → List FrameItem → ℕ
copies i [] = 0
copies i (x ∷ xs) = one_if (i == x.id) + copies i xs

copies-append : (i : ℕ) (xs ys : List FrameItem) → copies i (xs ++ ys) ≡ copies i xs + copies i ys
copies-append i [] ys = omega arith
copies-append i (x ∷ xs) ys = omega (arith, copies-append i xs ys)

length-snoc : (xs : List FrameItem) (x : FrameItem) → length (xs ++ x ∷ []) ≡ length xs + 1
length-snoc [] x = refl
length-snoc (y ∷ xs) x = omega (arith, length-snoc xs x)

abbrev uses : ℕ → List FrameItem → Pipeline → ℕ
uses i held p =
    copies i held + copies i p.frame_pool + copies i p.frame_chan + copies i (in_hand p.working)

-- With what the main loop holds: each buffer that was made stands in one place at most, and two
-- frames at most wait.
abbrev pub IsOwned : List FrameItem → Pipeline → Type 0
IsOwned held p = ((i : ℕ) → uses i held p ≤ one_if (ltb i p.made)) × (length p.frame_chan ≤ 2)

take_at-copies :
    (k : ℕ) (xs : List FrameItem) (i : ℕ) (y : FrameItem) (ys : List FrameItem)
    → take_at k xs ≡ some (y, ys)
    → copies i xs ≡ one_if (i == y.id) + copies i ys
unfolding take_at
take_at-copies k [] i y ys e = cc
take_at-copies zero (x ∷ xs) i y ys e =
    ap (λ o. elim o [ none ↦ copies i (x ∷ xs) | some (a, b) ↦ one_if (i == a.id) + copies i b ]) e
take_at-copies (suc k) (x ∷ xs) i y ys e =
    go (take_at k xs) (λ a b h. take_at-copies k xs i a b h) e
  where
    go :
        (o : Option (FrameItem × List FrameItem))
        → ((a : FrameItem) (b : List FrameItem)
            → o ≡ some (a, b)
            → copies i xs ≡ one_if (i == a.id) + copies i b)
        → elim o as (λ o. Option (FrameItem × List FrameItem)) [
          | none ↦ none
          | some (y, ys) ↦ some (y, x ∷ ys)
        ]
          ≡ some (y, ys)
        → copies i (x ∷ xs) ≡ one_if (i == y.id) + copies i ys
    go none h e = cc
    go (some (a, b)) h e = omega (
      arith,
      h a b refl,
      ap (λ o. elim o as (λ o. ℕ) [ none ↦ 0 | some (a, b) ↦ one_if (i == a.id) + copies i b ]) e,
    )

borrow-IsOwned :
    (cfg : Config) (p : Pipeline) (k : ℕ) (o : Option (FrameItem × List FrameItem))
    → take_at k p.frame_pool ≡ o
    → IsOwned [] p
    → IsOwned ((borrow cfg p o).0 ∷ []) (borrow cfg p o).1
borrow-IsOwned cfg p k none e (once, few) = ((λ i. ground (arith, once i)), few)
borrow-IsOwned cfg p k (some (item, rest)) e (once, few) =
    ((λ i. omega (arith, once i, take_at-copies k p.frame_pool i item rest e)), few)

pub acquire_frame-IsOwned :
    (cfg : Config) (k : ℕ) (p : Pipeline)
    → IsOwned [] p
    → IsOwned ((acquire_frame cfg k p).0 ∷ []) (acquire_frame cfg k p).1
unfolding acquire_frame
acquire_frame-IsOwned cfg k p h = borrow-IsOwned cfg p k (take_at k p.frame_pool) refl h

pub release_frame-IsOwned :
    (item : FrameItem) (p : Pipeline) → IsOwned (item ∷ []) p → IsOwned [] (release_frame item p)
unfolding release_frame
release_frame-IsOwned item p (once, few) = ((λ i. omega (arith, once i)), few)

pub submit-IsOwned :
    (item : FrameItem) (p : Pipeline) → IsOwned (item ∷ []) p → IsOwned [] (submit item p).1
unfolding submit release_frame
submit-IsOwned item p (once, few) = elim (Bool-cases (ltb (length p.frame_chan) 2)) [
  | inl e ↦ rw e (
    (λ i. omega (arith, once i, copies-append i p.frame_chan (item ∷ []))),
    ground (arith, length-snoc p.frame_chan item),
  )
  | inr e ↦ rw e ((λ i. omega (arith, once i)), few)
]

module _ (cfg : Config) (codecs : Codecs) (held : List FrameItem) where
  receive_frame-IsOwned :
      (w : Option FrameItem) (c : List FrameItem) (p : Pipeline)
      → IsOwned held (record p { working = w; frame_chan = c })
      → IsOwned held (receive_frame w c (record p { working = w; frame_chan = c }))
  receive_frame-IsOwned none [] p h = h
  receive_frame-IsOwned none (x ∷ xs) p (once, few) = ((λ i. omega (arith, once i)), omega arith)
  receive_frame-IsOwned (some y) c p h = h

  dispatch_jpeg-IsOwned :
      (now : ℕ) (accepted : Bool) (item : FrameItem) (jpeg : Option Text) (p : Pipeline)
      → IsOwned held (record p { working = some item })
      → IsOwned held (
          release_frame item
            (dispatch_jpeg cfg codecs now accepted item jpeg (record p { working = none })))
  unfolding release_frame dispatch_jpeg
  dispatch_jpeg-IsOwned now accepted item none p (once, few) = ((λ i. omega (arith, once i)), few)
  dispatch_jpeg-IsOwned now accepted item (some jpeg) p (once, few) =
      ((λ i. omega (arith, once i)), few)

  process-IsOwned :
      (now : ℕ) (accepted : Bool) (w : Option FrameItem) (p : Pipeline)
      → IsOwned held (record p { working = w })
      → IsOwned held (process_frame_of cfg codecs now accepted w (record p { working = w }))
  unfolding process
  process-IsOwned now accepted none p h = h
  process-IsOwned now accepted (some item) p h = dispatch_jpeg-IsOwned now accepted item _ p h

  worker_step-IsOwned :
      (w : WorkerStep) (p : Pipeline) → IsOwned held p → IsOwned held (worker_step cfg codecs w p)
  unfolding worker_step
  worker_step-IsOwned receive p h = receive_frame-IsOwned p.working p.frame_chan p h
  worker_step-IsOwned (process_frame now accepted) p h = process-IsOwned now accepted p.working p h

  -- Whatever the worker does.
  pub worker_steps-IsOwned :
      (ws : List WorkerStep) (p : Pipeline)
      → IsOwned held p
      → IsOwned held (worker_steps cfg codecs ws p)
  unfolding worker_steps
  worker_steps-IsOwned [] p h = h
  worker_steps-IsOwned (w ∷ ws) p h =
      worker_steps-IsOwned ws (worker_step cfg codecs w p) (worker_step-IsOwned w p h)
