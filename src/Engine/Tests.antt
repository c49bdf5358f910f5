-- ===== src/Engine/Tests.antt =====
-- The engine at a camera of four by four pixels and blocks of two by two, whose first block is
-- excluded. Floats are whole numbers.
use intruder_watch.Engine.Overlay.Total.{draw_visual_overlay-some}
use intruder_watch.Engine.Overlay.{
  draw_visual_overlay, grid_columns, grid_rows, draw_zones, draw_zone, border, crosshatch, between,
}
use intruder_watch.Engine.Zone.{intersects}
use intruder_watch.Engine.Config.{Config, is_within_time_frame}
use intruder_watch.Engine.Config.Zones.{
  parse_exclude_zones, items_zones, token_zones, trim_space, trim_left, is_space,
}
use intruder_watch.Engine.Config.Zones.Bounds.{Fits, parse_exclude_zones-Fits}
use intruder_watch.Engine.Motion.{
  Floats, MacroblockDetector, MotionBox, MotionResult, get_elem?, set, block_size_of, with_mask,
  mask_block, mask_rows, new_macroblock_detector, add_pixel, add_row, block_diff_sum, count_block,
  scan_block, scan_row, scan, judge, analyze, reset,
}
use intruder_watch.Engine.Motion.Mask.{place-lt}
use intruder_watch.Engine.Motion.New.{IsValid}
use intruder_watch.Engine.Motion.Total.{get_elem?-some, seen}
use intruder_watch.Engine.Motion.Ignore.{
  in_zone, analyze_all, IsSameOutside, analyze_all-IsSameOutside,
}
use intruder_watch.Engine.Motion.Box.{IsMotionBox, analyze-IsMotionBox}
use intruder_watch.Engine.Snapshot.{
  SnapshotManager, snapshot, update_jpeg, update_raw, get_snapshot,
}
use intruder_watch.Engine.Snapshot.Cached.{update_raws, get_snapshot-update_jpeg}
use intruder_watch.Engine.Capture.{start, stop, frame_read}
use intruder_watch.Engine.Pipeline.{
  Codecs, WorkerStep, receive, process_frame, acquire_frame, take_at, release_frame, submit,
  worker_step, worker_steps, process, dispatch_jpeg, publish,
}
use intruder_watch.Engine.Pipeline.Fifo.{in_hand, accepted_frames}
use intruder_watch.Engine.Pipeline.Owned.{IsOwned}
use intruder_watch.Engine.Broker.{Answers, new_broker, connect, attempts, failed_attempt, keep}
use intruder_watch.Engine.Broker.Connect.{IsClean, connect-IsClean}
use intruder_watch.Engine.Loop.{
  Round, State, ingest, run, step, round, iterate, stop_capture, read_frame, handle_frame,
  judge_frame, follow_motion, dispatch_frame, is_too_early, is_recent,
}
use intruder_watch.Engine.Loop.Fed.{IsSpaced, IsFed}
use intruder_watch.Engine.Loop.Run.{
  ingest-IsSpaced, AreWhole, ingest-balanced, ingest-IsOwned, ingest-IsFed,
}
use intruder_watch.Base.Loops.{for_range}
use intruder_watch.Base.Counts.{one_if}
use intruder_watch.Base.Int.{pos, ◌+ℤ◌, ◌-ℤ◌, ◌*ℤ◌}
use intruder_watch.Str.{codes, split, text_eq}
use intruder_watch.Base.{
  ℕ, zero, suc, ◌+◌, ◌*◌, ◌/◌, ◌≡◌, ◌<◌, refl, true, false, Option, none, some, List, [], ◌∷◌, ◌++◌,
  ltb, leb, length, arith, replicate, length-replicate,
}

abbrev fl : Floats
fl = record {
  quotient = λ a b. a / b;
  at_least = λ x y. leb y x;
  greater = λ x y. ltb y x;
  interval = λ fps. pos 100;
}

abbrev config : Config
config = record {
  channel = pos 1;
  frame_width = 4;
  frame_height = 4;
  fps = pos 10;
  start_seconds = pos 79200;
  end_seconds = pos 21600;
  block_size = pos 2;
  motion_threshold = 8;
  min_active_blocks = pos 1;
  lighting_shift_ratio = 1;
  exclude_zones = record { name = []; x1 = pos 0; y1 = pos 0; x2 = pos 2; y2 = pos 2 } ∷ [];
  post_roll_duration = pos 500;
}

abbrev detector : MacroblockDetector
detector = with_mask config (true ∷ false ∷ false ∷ false ∷ [], 1)

what_is_made : new_macroblock_detector config ≡ some detector
unfolding new_macroblock_detector mask_rows mask_block block_size_of for_range intersects set
what_is_made = refl

-- Two dark rows, and the two others, of which the last two pixels are as bright as given.
abbrev behind_corner : ℕ → List ℕ
behind_corner bright =
    0 ∷ 0 ∷ 0 ∷ 0 ∷ 0 ∷ 0 ∷ 0 ∷ 0 ∷ 0 ∷ bright ∷ bright ∷ 0 ∷ 0 ∷ bright ∷ bright ∷ []

abbrev plane : ℕ → ℕ → List ℕ
plane corner bright = corner ∷ behind_corner bright

abbrev next_detector : MacroblockDetector
next_detector = seen detector (plane 0 0)

next_detector-IsValid : IsValid next_detector
unfolding block_size_of
next_detector-IsValid = record {
  block = omega arith;
  across = omega arith;
  down = omega arith;
  plane = refl;
  mask = λ by bx hy hx.
      get_elem?-some (true ∷ false ∷ false ∷ false ∷ []) (by * 2 + bx) (place-lt 2 2 bx by hx hy);
}

abbrev box : MotionBox
box = record { left = 2; top = 2; right = 4; bottom = 4 }

abbrev moved : MotionResult
moved = record {
  has_motion = true;
  active_blocks = 1;
  total_blocks = 4;
  effective_blocks = 3;
  is_lighting_shift = false;
  max_block_delta = 90;
  motion_box = some box;
}

what_is_seen : analyze fl next_detector (plane 0 90) ≡ some (moved, seen detector (plane 0 90))
unfolding analyze scan scan_row scan_block block_diff_sum add_row add_pixel count_block judge
    for_range block_size_of
what_is_seen = refl

analyze-IsMotionBox_example :
    IsMotionBox fl next_detector (plane 0 90) box × (moved.has_motion ≡ true)
analyze-IsMotionBox_example =
    analyze-IsMotionBox fl next_detector (plane 0 90) next_detector-IsValid moved
      (seen detector (plane 0 90)) box refl what_is_seen refl

behind_first : (a b : ℕ) (xs : List ℕ) (i : ℕ) → 0 < i → get_elem? (a ∷ xs) i ≡ get_elem? (b ∷ xs) i
behind_first a b xs zero h = absurd (omega arith)
behind_first a b xs (suc i) h = refl

first_hidden : (a b bright : ℕ) → IsSameOutside config (plane a bright) (plane b bright)
unfolding in_zone
first_hidden a b bright zero zero hx hy h = absurd (cc h)
first_hidden a b bright zero (suc y) hx hy h =
    behind_first a b (behind_corner bright) (suc y * 4 + 0) (omega arith)
first_hidden a b bright (suc x) y hx hy h =
    behind_first a b (behind_corner bright) (y * 4 + suc x) (omega arith)

analyze_all-IsSameOutside_example :
    analyze_all fl detector (plane 0 0 ∷ plane 0 90 ∷ [])
    ≡ analyze_all fl detector (plane 7 0 ∷ plane 200 90 ∷ [])
analyze_all-IsSameOutside_example =
    analyze_all-IsSameOutside fl config detector (plane 0 0 ∷ plane 0 90 ∷ [])
      (plane 7 0 ∷ plane 200 90 ∷ []) what_is_made
      (refl, refl, first_hidden 0 7 0, (refl, refl, first_hidden 0 200 90, tt))

abbrev codecs : Codecs
codecs = record {
  encode_jpeg = λ y cb cr. some y;
  sha256_hex = λ s. s;
  base64 = λ s. s;
  marshal = λ payload. some payload.image;
}

-- A round at night, with a frame and what the worker does before it.
abbrev round_at : ℕ → Option (List ℕ) → List WorkerStep → Round
round_at now read before = record {
  connect = true;
  notify_close = false;
  hour = 23;
  minute = 0;
  second = 0;
  now = now;
  started_at = now + 1;
  can_spawn = true;
  pick = 0;
  read = read;
  read_at = now + 2;
  updated_at = now + 3;
  before = before;
  reading = [];
  analysing = [];
}

abbrev frame : ℕ → Option (List ℕ)
frame bright = some (plane 0 bright ++ (0 ∷ 0 ∷ 0 ∷ 0 ∷ 0 ∷ 0 ∷ 0 ∷ 0 ∷ []))

-- The broker is connected; then come a first frame, one too early behind it, one with motion, which
-- the worker publishes, two of its post-roll, one too early, one that finds the channel full, a read
-- that fails, and another first frame.
abbrev night : List Round
night =
    round_at 0 none []
    ∷ round_at 1000 (frame 0) []
    ∷ round_at 1050 (frame 0) []
    ∷ round_at 1200 (frame 90) []
    ∷ round_at 1400 (frame 90) (receive ∷ process_frame 1390 true ∷ [])
    ∷ round_at 1600 (frame 90) []
    ∷ round_at 1650 (frame 90) []
    ∷ round_at 1700 (frame 90) []
    ∷ round_at 1800 none []
    ∷ round_at 3000 (frame 0) (receive ∷ [])
    ∷ []

abbrev counts : Option State → List ℕ
counts none = []
counts (some s) =
    s.captured
    ∷ s.rate_limit
    ∷ s.duplicate
    ∷ s.pipeline.backpressure
    ∷ length s.pipeline.outcomes
    ∷ length s.pipeline.frame_chan
    ∷ s.seq_counter
    ∷ s.capturer.spawned
    ∷ s.network_sync_lost
    ∷ []

what_is_counted : counts (ingest fl config codecs night) ≡ 8 ∷ 2 ∷ 2 ∷ 1 ∷ 1 ∷ 1 ∷ 4 ∷ 2 ∷ 1 ∷ []
unfolding ingest run step round iterate stop_capture read_frame handle_frame judge_frame
    follow_motion dispatch_frame is_too_early is_recent is_within_time_frame start stop frame_read
    acquire_frame take_at release_frame submit worker_step worker_steps process dispatch_jpeg
    publish update_jpeg update_raw analyze reset scan scan_row scan_block block_diff_sum add_row
    add_pixel count_block judge for_range block_size_of new_macroblock_detector mask_rows mask_block
    intersects set
what_is_counted = refl

night-AreWhole : AreWhole fl config codecs night
night-AreWhole = (tt, (refl, (refl, (refl, (refl, (refl, (refl, (refl, (tt, (refl, tt))))))))))

ingest-balanced_example :
    (s : State) × (ingest fl config codecs night ≡ some s)
    × (s.captured
        ≡ s.rate_limit
          + s.lighting_shift
          + s.duplicate
          + s.pipeline.backpressure
          + length s.pipeline.outcomes
          + length (in_hand s.pipeline.working)
          + length s.pipeline.frame_chan)
ingest-balanced_example = ingest-balanced fl config codecs night night-AreWhole

ingest-IsOwned_example :
    (s : State) × (ingest fl config codecs night ≡ some s)
    × IsOwned [] s.pipeline
    × (s.capturer.spawned ≡ s.capturer.killed + one_if s.capturer.is_running)
ingest-IsOwned_example = ingest-IsOwned fl config codecs night night-AreWhole

ingest-IsFed_example :
    (s : State) × (ingest fl config codecs night ≡ some s)
    × IsFed config s.seq_counter (accepted_frames s.pipeline)
ingest-IsFed_example = ingest-IsFed fl config codecs night night-AreWhole

ingest-IsSpaced_example :
    (s : State) × (ingest fl config codecs night ≡ some s)
    × IsSpaced 100 (accepted_frames s.pipeline)
ingest-IsSpaced_example = ingest-IsSpaced fl config codecs night 100 night-AreWhole refl

parse_exclude_zones-Fits_example :
    Fits 1920 1080
      (parse_exclude_zones (λ c. c) 1920 1080 (codes " top-left-clock; 700,20,5,9000;x,1"))
parse_exclude_zones-Fits_example =
    parse_exclude_zones-Fits (λ c. c) 1920 1080 (omega arith) (omega arith)
      (codes " top-left-clock; 700,20,5,9000;x,1")

abbrev manager : SnapshotManager
manager = record { jpeg_bytes = []; raw_frame = 0 ∷ []; updated_at = none }

get_snapshot-update_jpeg_example :
    get_snapshot config
      (λ raw. some raw)
      false
      9000000000
      (update_raws
        ((1 ∷ [], 5000000000) ∷ (2 ∷ [], 8000000000) ∷ [])
        (update_jpeg (7 ∷ []) 1000000000 manager))
    ≡ some (snapshot (7 ∷ []) 8000000000)
get_snapshot-update_jpeg_example =
    get_snapshot-update_jpeg config (λ raw. some raw) manager (7 ∷ []) 1000000000 9000000000
      ((1 ∷ [], 5000000000) ∷ (2 ∷ [], 8000000000) ∷ []) (omega arith) (omega arith)

-- The second dial succeeds without a channel, the third attempt wholly.
abbrev answers : ℕ → Answers
answers n = record { dial = ltb 1 n; channel = ltb 2 n; declare = true }

what_is_opened : connect answers new_broker ≡ (
  true,
  record {
    conn = true;
    ch = true;
    conns_opened = 2;
    conns_closed = 1;
    chs_opened = 1;
    chs_closed = 0;
    sleeps = 2;
  },
)
unfolding connect attempts failed_attempt keep
what_is_opened = refl

connect-IsClean_example : IsClean answers new_broker (connect answers new_broker) 15 1
connect-IsClean_example = connect-IsClean answers new_broker

abbrev blank : List ℕ
blank = replicate 46080 0

-- A preset at a frame that is smaller than it.
what_panics :
    draw_visual_overlay 4 4
      (parse_exclude_zones (λ c. c) 4 4 (codes "bottom-right-clock"))
      (plane 0 0)
    ≡ none
unfolding draw_visual_overlay grid_columns grid_rows draw_zones draw_zone border crosshatch between
    set for_range parse_exclude_zones items_zones token_zones trim_space trim_left is_space split
    text_eq ◌+ℤ◌ ◌-ℤ◌ ◌*ℤ◌
what_panics = refl

draw_visual_overlay-some_example :
    (out : List ℕ) × (draw_visual_overlay 480 96
        (parse_exclude_zones (λ c. c) 480 96 (codes "bottom-left-clock;9,9,700,50"))
        blank
      ≡ some out)
    × (length out ≡ length blank)
draw_visual_overlay-some_example =
    draw_visual_overlay-some (λ c. c) 480 96 (codes "bottom-left-clock;9,9,700,50") blank
      (omega arith) (omega arith) (omega (arith, length-replicate {A = ℕ} 46080 0))
