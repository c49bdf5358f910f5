-- ===== src/Lib.antt =====
-- IntruderWatch watches cameras for intruders. A frame capturer takes frames with motion and puts
-- them into the queue frame_queue; the human detector reads them, looks for people, saves what it
-- finds under /app/captures and puts an alert into alert_queue; the alert service reads the alerts
-- and tells people, by a photo through ntfy and by voice calls, and passes the alerts of Alertmanager
-- on as messages; the viewer shows the saved images in a browser. RabbitMQ lies between the services,
-- which share the client that connects to it.
--
-- Which file models what (names of functions are those of the source):
--   AlertService    microservices/alert_service/alert_service.py
--     Config          the settings, and the record of an alert
--     Payload         what the callback reads out of a message, and its fallback
--     Callback        alert_service: the callback of the queue with its state, and the consumer
--     Photo           send_ntfy_photo: the message and the link, the post and the counters
--     Calls           send_call_alert, _dispatch_calls and mask_phone
--     Webhook         webhook: the alerts that Alertmanager posts
--     Http            the answers of the HTTP client
--   Viewer          microservices/viewer_service/viewer_service.py
--     Session         create_session_token and verify_session_token
--     Auth            get_session_user, get_authenticated_user and require_auth
--     Image           validate_path_param and serve_image; Follow says what a link comes to
--     Listing         get_cameras, get_dates and get_images
--     Pages           serve_login, api_login, logout and serve_root
--     Endpoint        the label of a request in monitor_requests
--   Broker          microservices/shared/rabbitmq_client.py: connect_rabbitmq
--   Detector        microservices/human_detector/human_detector.py
--     Dispatcher      the queue between submit and _worker, one step for each call of the queue
--     Publisher       _reset_channel, _ensure_channel, _publish_with_retry and a round of _worker
--     Frames          the callback of consume_frames: a message, and runs of messages
--     Idle            memory_manager
--     Start           the life of consume_frames around its loop, and the answer of /healthz
--   Capturer        microservices/frame_capturer/frame_capturer.py
--     Window          is_within_time_frame
--     Pipe            what is read from the process of ffmpeg, until a frame is whole
--     Payload         the message for a frame
--     Loop            capture_frames as a step for each round of its inner loop: the process, the
--                     motion filter and the counters
--   Engine          the ingestion engine, the same service written in Go, microservices/frame_capturer
--     Zone, Config    config.go: the hours and the excluded zones
--     Motion          motion.go: MacroblockDetector
--     Capture         capture.go: StreamCapturer
--     Pipeline        pipeline.go: the pool of buffers, the channel and the worker
--     Snapshot        snapshot.go: the snapshot that is sent to a browser
--     Overlay         snapshot.go: what is drawn into it
--     Broker          broker.go: the connection
--     Loop            main.go: the loop over the frames
--   Monolith        monolith/detect.py: the loop over the frames
--     Hours, Files    the hours of the alarm, and where the detections are written
--     Reacts, Alerts  what a round does, and when calls are made and frames are written
--   FramePath       a frame's way from either capturer to the detector
--   AlertPath       an alert's way from the detector to the alert service
--   ImageLink       a picture's way from the detector through the alert service to the viewer
--   Base, Str, Json are shared: lists and numbers, results and actions, texts and JSON values. Stub
--   holds the values of the parameters at which the examples run.
--
-- How the code is modelled. A text is the list of its code points. A time is a number of
-- microseconds. A float is its bit pattern; what Python does with floats, its JSON reader and its
-- formatting are operations of the record Python, which is a parameter. So are the answers of the
-- HTTP servers and of Twilio, the outcome of an attempt to connect, HMAC and base64 (Codec, with
-- the laws CodecLaws), the way of a link through a client and the framework (follow, with the law
-- Follows), the file system (FileSystem), and the decoder of images and the model that
-- finds people (Vision). What a round of a frame capturer or of the monolith meets, as the clocks,
-- the outcome of the calls of OpenCV, of ffmpeg and of RabbitMQ, is a Round, and a theorem holds for
-- every list of rounds. Code that mutates state is an Action, which returns its result or the
-- exception together with the state that it leaves, and what a service does is kept as a list of
-- events, the newest first. A handler of the viewer ends in a value, an HTTPException with its
-- status, or another exception.
--
-- The loops over messages, recipients, alerts and attempts are recursion over the list or the number
-- they go over, and the loop of submit is a run of steps, whichever thread makes the next one. Only
-- the reading of a frame has fuel, one round for each byte that is missing, as each read that does
-- not end the loop brings one byte or more; where the rounds run out before the loop is at its end,
-- it has no result.
--
-- The engine reads and writes lists of bytes by index, and its definitions return none where the code
-- panics. Its times are in nanoseconds. Its floats are the parameter Floats, the encoders of JPEG and
-- JSON and the hash are Codecs. The worker shares the pool, the channel and the snapshots with the
-- loop: a Round holds the steps that the worker makes before it, while a frame is read and while it
-- is analysed, so that every interleaving of their calls is a list of rounds. The loops of the
-- detector are counted, by for_range of Base.
--
-- Simplifications: the answer to a post is a function of the request, so two equal posts have one
-- answer. A kill or a terminate of ffmpeg is an event where it is called, whether or not it raises or
-- the process has ended by then. The loop of the
-- Python capturer is modelled for FPS from 1 on, as the program with 0 raises before its loop.
-- The cooldown of the monolith is taken as not negative.
--
-- What is not modelled: logging, the start of servers and threads, the schedule of the threads of
-- the alert service (a started thread is an event, and what it does is a definition of its own),
-- the Prometheus library (a counter is an event), digits in int() that are not ASCII, the
-- viewer's login background, the command line of ffmpeg, the sleeps of the loops, the functions
-- send_alert and mask_phone of the monolith, and of the engine its HTTP server,
-- LoadConfig but for the zones, and the goroutine that waits for a signal.
pub mod Base
pub mod Str
pub mod Json
mod Stub
pub mod AlertService
pub mod Viewer
pub mod Broker
pub mod Detector
pub mod Capturer
pub mod Monolith
pub mod ImageLink
pub mod AlertPath
pub mod FramePath
pub mod Engine
