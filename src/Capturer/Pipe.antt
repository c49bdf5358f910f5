-- ===== src/Capturer/Pipe.antt =====
-- The pipe of ffmpeg and the loop that reads one frame out of it
-- (microservices/frame_capturer/frame_capturer.py).
pub mod Fill
use intruder_watch.Base.{
  Option, none, some, ℕ, zero, suc, ◌-◌, List, [], ◌∷◌, ◌++◌, leb, ltb, length, take, drop,
  if◌then◌else◌,
}
use intruder_watch.Str.{Text}

-- What is still to come out of a pipe, in the pieces in which it arrives. An empty piece is the end
-- of the stream.
abbrev pub Pipe : Type 0
Pipe = List Text

-- `pipe.stdout.read(n)`: at most `n` bytes, and none at the end.
unfoldable pub read : ℕ → Pipe → Text × Pipe
read n [] = ([], [])
read n ([] ∷ pipe) = ([], [] ∷ pipe)
read n ((b ∷ bs) ∷ pipe) =
    if leb (length (b ∷ bs)) n then (b ∷ bs, pipe) else (take n (b ∷ bs), drop n (b ∷ bs) ∷ pipe)

-- `if not chunk: break`
abbrev pub if_any : {A : Type 0} → Text → A → A → A
if_any [] done more = done
if_any (b ∷ bs) done more = more

-- The `while`: `raw_frame` is what has been read. It is run for so many rounds at most; a loop that
-- is not at its end by then has no result.
unfoldable pub fill : ℕ → ℕ → Text → Pipe → Option (Text × Pipe)
unfolding read
fill frame_size zero raw_frame pipe =
    if ltb (length raw_frame) frame_size then none else some (raw_frame, pipe)
fill frame_size (suc rounds) raw_frame pipe =
    let (chunk, rest) = read (frame_size - length raw_frame) pipe in
    let more = fill frame_size rounds (raw_frame ++ chunk) rest in
    if ltb (length raw_frame) frame_size
    then if_any chunk (some (raw_frame, rest)) more
    else some (raw_frame, pipe)

-- Each round but the last reads a byte, so there are at most as many rounds as a frame has bytes.
unfoldable pub read_frame : ℕ → Pipe → Option (Text × Pipe)
unfolding fill
read_frame frame_size pipe = fill frame_size frame_size [] pipe
