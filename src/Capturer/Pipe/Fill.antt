-- ===== src/Capturer/Pipe/Fill.antt =====
-- What the loop reads (microservices/frame_capturer/frame_capturer.py).
use intruder_watch.Capturer.Pipe.{if_any, Pipe, read, fill, read_frame}
use intruder_watch.Str.{Text}
use intruder_watch.Base.{
  Option, some, false, ℕ, zero, suc, ◌+◌, ◌-◌, ◌≤◌, ◌<◌, ◌≡◌, refl, [], ◌∷◌, ◌++◌, arith, leb, ltb,
  length, length-take, take, drop, inl, inr, Bool-cases, ◌⊎◌, ap, sym, ◌∙◌, append_assoc,
  append-nil, length-append, ltb→lt, length-drop,
}

-- What comes out of a pipe up to the end of the stream.
abbrev pub stream : Pipe → Text
stream [] = []
stream ([] ∷ pipe) = []
stream ((b ∷ bs) ∷ pipe) = b ∷ (bs ++ stream pipe)

take-drop : (n : ℕ) (s t : Text) → take n s ++ (drop n s ++ t) ≡ s ++ t
take-drop zero s t = refl
take-drop (suc n) [] t = refl
take-drop (suc n) (c ∷ s) t = ap (◌∷◌ c) (take-drop n s t)

-- What a list that is put together begins with.
take-append : (s t : Text) → (take (length s) (s ++ t) ≡ s) × (drop (length s) (s ++ t) ≡ t)
take-append [] t = (refl, refl)
take-append (c ∷ s) t = let (p, q) = take-append s t in (ap (◌∷◌ c) p, q)

take-long : (n : ℕ) (s : Text) → length s ≤ n → (take n s ≡ s) × (drop n s ≡ [])
take-long zero [] h = (refl, refl)
take-long zero (c ∷ s) h = absurd (omega arith)
take-long (suc n) [] h = (refl, refl)
take-long (suc n) (c ∷ s) h = let (p, q) = take-long n s (omega arith) in (ap (◌∷◌ c) p, q)

stream-piece : (s : Text) (pipe : Pipe) → 0 < length s → stream (s ∷ pipe) ≡ s ++ stream pipe
stream-piece [] pipe h = absurd (omega arith)
stream-piece (c ∷ s) pipe h = refl

-- Nothing of a piece is lost, and a read that gives nothing is at the end.
read-stream :
    (n : ℕ) (pipe : Pipe)
    → 0 < n
    → let (chunk, rest) = read n pipe in
      (chunk ++ stream rest ≡ stream pipe)
      × (length chunk ≤ n)
      × ((0 < length chunk) ⊎ ((chunk ≡ []) × (stream rest ≡ [])))
unfolding read
read-stream n [] h = (refl, omega arith, inr (refl, refl))
read-stream n ([] ∷ pipe) h = (refl, omega arith, inr (refl, refl))
read-stream n ((b ∷ bs) ∷ pipe) h = elim (Bool-cases (leb (length (b ∷ bs)) n)) [
  | inl short ↦ rw short (refl, ground (arith, short), inl (omega arith))
  | inr long ↦
      let more : n < length (b ∷ bs) = ground (arith, long) in
      let fits : length (take n (b ∷ bs)) ≡ n = length-take n (b ∷ bs) (omega arith) in
      rw long (
        ap (λ t. take n (b ∷ bs) ++ t)
              (stream-piece (drop n (b ∷ bs)) pipe (omega (arith, length-drop n (b ∷ bs))))
            ∙ take-drop n (b ∷ bs) (stream pipe),
        omega arith,
        inl (omega arith),
      )
]

-- What a loop has read that has come to its end: no more than a frame, all that came, and the whole
-- frame unless the stream has ended.
IsFilled : ℕ → Text → Text × Pipe → Type 0
IsFilled frame_size all (raw_frame, rest) =
    (raw_frame ++ stream rest ≡ all)
    × (length raw_frame ≤ frame_size)
    × ((length raw_frame ≡ frame_size) ⊎ (stream rest ≡ []))

-- A loop that comes to its end.
Ends : ℕ → Text → Option (Text × Pipe) → Type 0
Ends frame_size all result = (p : Text × Pipe) × (result ≡ some p) × IsFilled frame_size all p

-- One round that has read a piece, given what the rounds behind it come to.
resumed :
    (frame_size : ℕ) (raw_frame chunk all : Text) (rest : Pipe) (more : Option (Text × Pipe))
    → length raw_frame ≤ frame_size
    → chunk ++ stream rest ≡ all
    → ((0 < length chunk) ⊎ ((chunk ≡ []) × (stream rest ≡ [])))
    → (0 < length chunk → Ends frame_size ((raw_frame ++ chunk) ++ stream rest) more)
    → Ends frame_size (raw_frame ++ all) (if_any chunk (some (raw_frame, rest)) more)
unfolding Ends IsFilled
resumed frame_size raw_frame [] all rest more h e (inl full) ih = absurd (omega arith)
resumed frame_size raw_frame [] all rest more h e (inr (_, ended)) ih =
    ((raw_frame, rest), refl, (ap (λ t. raw_frame ++ t) e, h, inr ended))
resumed frame_size raw_frame (b ∷ bs) all rest more h e split ih =
    let (p, found, (a, l, c)) = ih (omega arith) in
    (
      p,
      found,
      (a ∙ append_assoc raw_frame (b ∷ bs) (stream rest) ∙ ap (λ t. raw_frame ++ t) e, l, c),
    )

fill-Ends :
    (frame_size rounds : ℕ) (raw_frame : Text) (pipe : Pipe)
    → length raw_frame ≤ frame_size
    → frame_size ≤ length raw_frame + rounds
    → Ends frame_size (raw_frame ++ stream pipe) (fill frame_size rounds raw_frame pipe)
unfolding fill
fill-Ends frame_size zero raw_frame pipe h e =
    let whole : ltb (length raw_frame) frame_size ≡ false = ground arith in
    rw whole (unfold Ends IsFilled in ((raw_frame, pipe), refl, (refl, h, inl (omega arith))))
fill-Ends frame_size (suc rounds) raw_frame pipe h e =
    elim (Bool-cases (ltb (length raw_frame) frame_size)) [
      | inr full ↦
          rw full (
            unfold Ends IsFilled in
            ((raw_frame, pipe), refl, (refl, h, inl (ground (arith, full)))))
      | inl missing ↦
          let less : length raw_frame < frame_size = ltb→lt _ _ missing in
          let p = read (frame_size - length raw_frame) pipe in
          let (all, l, split) = read-stream (frame_size - length raw_frame) pipe (omega arith) in
          rw missing (
            resumed frame_size raw_frame p.0 (stream pipe) p.1
              (fill frame_size rounds (raw_frame ++ p.0) p.1) h all split
              (λ (nonempty : 0 < length p.0).
                fill-Ends frame_size rounds (raw_frame ++ p.0) p.1
                  (omega (arith, length-append raw_frame p.0))
                  (omega (arith, length-append raw_frame p.0))))
    ]

-- The first bytes of a stream are those that were read, and the others are left.
IsFilled-take :
    (frame_size : ℕ) (all : Text) (p : Text × Pipe)
    → IsFilled frame_size all p
    → (p.0 ≡ take frame_size all) × (stream p.1 ≡ drop frame_size all)
unfolding IsFilled
IsFilled-take frame_size all (raw_frame, rest) (e, l, inl full) =
    let (a, b) = take-append raw_frame (stream rest) in rw (← full, ← e) (sym a, sym b)
IsFilled-take frame_size all (raw_frame, rest) (e, l, inr ended) =
    let whole : raw_frame ≡ all =
      sym (append-nil raw_frame) ∙ ap (λ t. raw_frame ++ t) (sym ended) ∙ e in
    let (a, b) = take-long frame_size raw_frame l in rw (← whole) (sym a, ended ∙ sym b)

-- The loop comes to its end, within one round for each byte of a frame. It has read the first bytes
-- of the stream, as many as a frame has, or all of them where the stream ends before; what is left
-- in the pipe is the rest of the stream.
pub read_frame-take :
    (frame_size : ℕ) (pipe : Pipe)
    → (raw_frame : Text) × (rest : Pipe) × (read_frame frame_size pipe ≡ some (raw_frame, rest))
      × (raw_frame ≡ take frame_size (stream pipe))
      × (stream rest ≡ drop frame_size (stream pipe))
unfolding read_frame Ends
read_frame-take frame_size pipe =
    let (p, found, filled) = fill-Ends frame_size frame_size [] pipe (omega arith) (omega arith) in
    let (first, left) = IsFilled-take frame_size (stream pipe) p filled in
    (p.0, p.1, found, first, left)
