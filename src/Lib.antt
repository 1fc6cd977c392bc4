-- ===== src/Lib.antt =====
-- camera-service: a model of the service's own logic in core-driver/cam_driver/, with the theorems
-- that make it correct. Paths are from the repository's root.
--
-- The service reads frames from a camera, stamps them, and feeds them to a live preview, to plugin
-- transports and, while a recording session is open, to a recorder; a playback feeds recorded data
-- through the same path, and a supervisor keeps the processes alive. The development models:
--
-- * Timestamps (cam_driver/timestamps.py): TimestampExtractor, which resolves the active source of
--   time once and stamps each frame. The Aravis buffer is the record Buffer, an argument.
-- * DropStats (cam_driver/dropstats.py): the drop counters of a run, and a session's share of them
--   (`delta`). Frame ids are those of the camera, unbounded as in Python.
-- * Timeline (cam_driver/pipeline.py): `_pts_for` and its memo, skew and rebase counter. `pts_for`
--   takes `own`, as the code does: the branch that feeds the recording moves the time base, and the
--   decode branch reads it. Each call is one step, since both callers hold `_base_lock`.
-- * Keyframe (cam_driver/keyframe.py): `parse_caps_kind` and `is_sync_point`. Regular expressions
--   are written out as scans of a list of code points. The scans of a frame take fuel: as much as
--   the frame has bytes, and each round consumes a byte or more.
-- * Sidecar (cam_driver/sidecar.py): SidecarWriter, as a state that the feed thread (`add`) and the
--   writer thread (`writer_step`) change in any order.
-- * Session (cam_driver/session.py): RecordingSession. Session holds `push`, Session/Close the two
--   halves of `begin_close`, `finish_close`, the bus and `describe`. Session/Interleaving gives the
--   order of the steps: pushes, bus messages and the halves of the close, where a close may begin
--   while a push waits inside its appsrc. What GStreamer answers is an argument (Feed, Popped,
--   BusMessage); what it was asked is the list `appsrc_calls`.
-- * Pipeline (cam_driver/pipeline.py): the recording sessions of CapturePipeline: activate,
--   deactivate, the end on an error and the stop, over the session of the module Session.
-- * Lifecycle (cam_driver/lifecycle.py): the policy above it: requests, boot and the remembered
--   state. Everything there runs on the main loop, so that an event is one step; `Event` lists what
--   can happen to a running service. Lifecycle/RunId is `sanitize_run_id`.
-- * Transport (cam_driver/transport.py): the frame header of the shm transport, byte for byte.
-- * Formats (cam_driver/formats.py): pixel formats, frame sizes and the choice of an encoder.
-- * Framing (plugins/ros2-source/cam_ros2_source/framing.py): the plugin's copy of the header, the
--   format that its instance is pinned to, and the packing of rows.
-- * Playback (cam_driver/playback.py): PlaybackState, with its Pacer in Playback/Pacing. A speed
--   is a rational number where the code has a float (nan and inf are left out); the clock's reading is an argument. A request
--   for a restart is two steps, `request` and `restart_reply`, since the code waits for the feeder
--   in between; `Event` lists what the control surface, the feeder and the timer of the start gate
--   do, each under the lock.
-- * Pcap (cam_driver/pcapio.py): the readers of classic pcap and pcapng files. A file is the list of
--   its bytes; the fuel of the reader's loop is its length, and each turn uses up a byte or more. The
--   loop over an interface's options has as much fuel as the block has bytes.
-- * Supervisor (core-driver/supervisor.py): the processes of a sensor. Times are milliseconds; what
--   the processes and the clock do is an argument. A round of the monitor looks at every service.
-- * BayerTile (cam_driver/bayer_tile.py): the tiling of a mosaic into quadrants, and its inverse. An
--   array is a function of row and column.
-- * Reconnect (cam_driver/pipeline.py): the worker thread that reopens a lost source, against the
--   watchdog, a stop and the shutdown, as a relation of steps that interleave (Step, Run).
-- * Publish (cam_driver/pipeline.py): the rate gate of the plugin endpoint and the transport's own
--   timeline. Rates are rational numbers; the monotonic clock is an argument.
-- * Usbmon and Uvc (cam_driver/uvcpcap.py): the records of a USB capture and the frames of a UVC
--   camera in them. Uvc is the assembly of frames from payloads, Uvc/Capture the walk over a file: the
--   endpoint's submissions and completions, isochronous packets, and payloads that span bulk
--   transfers. `feed_full` has as much fuel as bytes are pending, and each payload takes one or more.
-- * Health (cam_driver/health.py): HealthWindow, which sums up the snapshots of a session, and the
--   configured limits (Health/Limits). Python's finite numbers are a type with a strict order.
-- * Settings (cam_driver/recording_settings.py): the check of a patch of the recording's settings, and
--   the configuration that it gives. A float is a parameter, with its test against two bounds.
--   Settings/Allowed writes out the values that the fields may have, on its own.
-- * Preview and VideoLevel (plugins/webrtc-bridge/tools/scale_plan.py and h264_level.py): the size that
--   the preview is scaled to, and the H.264 level that is advertised for it.
-- * HeaderTransport (plugins/webrtc-bridge/tools/header_transport.py): the bridge's own reading of the
--   frame header, beside Transport.
--
-- Common passes on what the modules share: lists and Boolean tests over the native numbers, signed
-- integers, text as code points, and dicts as lists of pairs. The proofs of a component are its
-- child modules, named for what they prove; Tests modules (and Uvc/Scenarios) run the definitions and
-- the theorems on concrete data.
--
-- Not modelled: logging, clocks and file contents other than the sidecar's rows and the bytes of
-- capture files; GStreamer, Aravis and Zenoh, which are outside the repository; the rest of
-- pipeline.py (building the pipeline and the transport's buffers), the sources, the monitor of health,
-- the discovery of recorded runs on disk, and the other plugins.
pub mod Common
pub mod DropStats
pub mod Timestamps
pub mod Timeline
pub mod Keyframe
pub mod Sidecar
pub mod Session
pub mod Pipeline
pub mod Lifecycle
pub mod Transport
pub mod Formats
pub mod Health
pub mod Framing
pub mod Playback
pub mod Pcap
pub mod Supervisor
pub mod BayerTile
pub mod Reconnect
pub mod Publish
pub mod Usbmon
pub mod Uvc
pub mod Preview
pub mod Settings
pub mod VideoLevel
pub mod HeaderTransport
