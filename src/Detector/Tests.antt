-- ===== src/Detector/Tests.antt =====
-- The dispatcher at concrete detections, which are numbers here.
use intruder_watch.Detector.Dispatcher.{
  State, Act, idle, trying, waiting, stored, submit, produce, work, begin, put_nowait, get_nowait,
  evict_done, producer, step, run, is_full, init,
}
use intruder_watch.Detector.Publisher.{Rabbit, publish_with_retry, process}
use intruder_watch.Detector.Publisher
use intruder_watch.Detector.Dispatcher.Valid.{IsValid, run-IsValid}
use intruder_watch.Detector.Dispatcher.Order.{puts, removals, run-IsFifo}
use intruder_watch.Detector.Dispatcher.Kept.{Stored}
use intruder_watch.Detector.Dispatcher.Progress.{run-returned}
use intruder_watch.Detector.Publisher.Outcome.{Outcome, publish_with_retry-Outcome}
use intruder_watch.Base.Result.{ok, err, other_error}
use intruder_watch.Base.{ℕ, List, [], ◌≡◌, ◌∷◌, refl, arith, ◌++◌, true, false, ltb, if◌then◌else◌}

-- Three detections for a queue of two: the worker takes none of them meanwhile.
abbrev busy_camera : List (Act ℕ)
busy_camera =
    submit 1 ∷ produce ∷ submit 2 ∷ produce ∷ submit 3 ∷ produce ∷ produce ∷ produce ∷ produce ∷ []

abbrev saturated : State ℕ
saturated = record {
  items = 1 ∷ 2 ∷ [];
  unfinished = 2;
  phase = trying 3;
  worker = waiting;
  events = stored 2 ∷ stored 1 ∷ [];
}

abbrev evicting_steps : List (Act ℕ)
evicting_steps = produce ∷ produce ∷ work ∷ produce ∷ work ∷ produce ∷ []

the_oldest_is_discarded : (run 2 busy_camera init).items ≡ 2 ∷ 3 ∷ []
unfolding run step begin producer put_nowait get_nowait evict_done is_full
the_oldest_is_discarded = refl

run-IsValid_example : IsValid 2 (run 2 evicting_steps saturated)
run-IsValid_example =
    run-IsValid 2 (omega arith) evicting_steps saturated (omega arith, refl, (λ e. cc), (λ e. cc))

run-IsFifo_example :
    puts (run 2 busy_camera init).events
    ≡ removals (run 2 busy_camera init).events ++ (run 2 busy_camera init).items
run-IsFifo_example = run-IsFifo 2 busy_camera

run-returned_example :
    ((run 2 evicting_steps saturated).phase ≡ idle)
    × Stored 3 (run 2 evicting_steps saturated).events
run-returned_example =
    run-returned 2 (omega arith) 3 evicting_steps saturated
      (omega arith, refl, (λ e. cc), (λ e. cc)) refl tt (omega arith)

-- A broker that refuses the first two publications and then takes one.
abbrev third_time : Rabbit
third_time = record {
  connection_is_closed = λ n. false;
  channel_is_closed = λ n. false;
  connect_rabbitmq = λ n. ok tt;
  basic_publish = λ n. if ltb n 3 then err other_error else ok tt;
  close_channel = λ n. ok tt;
  close_connection = λ n. err other_error;
}

abbrev disconnected : Publisher.State
disconnected = record { connection = false; channel = false; events = [] }

the_third_attempt_publishes : (publish_with_retry third_time (ok []) 3 disconnected).0 ≡ ok true
unfolding publish_with_retry Publisher.publish_attempts Publisher.try_publish
    Publisher.ensure_channel Publisher.recover Publisher.reset_channel Publisher.drop_channel
    Publisher.drop_connection Publisher.close_if
the_third_attempt_publishes = refl

publish_with_retry-Outcome_example :
    Outcome (publish_with_retry third_time (ok []) 3 disconnected) 0 0
publish_with_retry-Outcome_example = publish_with_retry-Outcome third_time [] 3 disconnected
