-- ===== src/Lib.antt =====
-- PaperPad shows, on a Kindle, the frames that PaperSpoon draws on a host, and sends it the touches.
-- This library models the parts of both programs that decide something, and proves what each promises.
--
-- The parts, from the wire up. A file names its source in its first lines; paths are from the root of
-- the repository, and a definition has the name of its function in snake case, or of its type.
--
-- - crates/paper-protocol: Protocol. Message is v2.rs (`encode_v2_message`, `decode_v2_message`),
--   Frame is framebuffer.rs (`validate_mono1_pixels`, `Mono1Frame`, `Frame`), Payload is v2_payload.rs
--   (the four payloads, `encode_v2_frame`, `decode_v2_payload`).
-- - The reading of one whole message, which both programs do alike: Stream.
-- - tools/paperspoon/src: Paperspoon. Inbound is inbound.rs and the loop of main.rs over a connection
--   (`read_session_hello`, `read_session_message`, `serve_connection`), Server is server.rs
--   (`CurrentConnection`: `install_for_hello`, `frame_target`, `forward_frame_to`), Sender the
--   `FrameSender` of main.rs (`send_locked`, `send_application`, `send_for_hello`), Application
--   application_ui.rs (`ApplicationUi::layout`), Application.Input application_input.rs, Session what
--   the loop of main.rs makes of a Hello and of each message (`replace_hello_frame`), and Session.Told
--   what its input is told, said apart from the loop, Diagnostic the patterns of
--   diagnostic.rs and the encoding of their frames (`DiagnosticFrame::encode`), which Diagnostic.Encoder
--   gives to Sender as its diagnostic frames, Canvas the `MonoCanvas` of
--   mono_renderer.rs (`fill_rect`), GrayCanvas that of gray_renderer.rs.
-- - src/net: Paperpad.Net. Frames is `read_v2_frame` of mod.rs, Mailbox is its `FrameMailbox`,
--   Connection is connection.rs and `write_outbound`.
-- - src/ui and src/app.rs: Paperpad.Ui.Screen is `ScreenLayout`, Paperpad.Ui.System the local Exit
--   control, Paperpad.App is `AppState`, which owns one and asks the other.
-- - src/discovery.rs: Paperpad.Discovery (`select_endpoint`).
-- - src/display: Paperpad.Display, the validated `RemoteFrame` and the `RemoteFrameCache`.
-- - src/mxcfb: Paperpad.Mxcfb. Region is region.rs, Request is update_marker.rs and update_request.rs,
--   Layout is layout.rs, Metadata is metadata.rs (`from_kernel`), Pixels is pixels.rs (`blit_remote`,
--   `prepare_remote`), Mapped is mapped.rs (`write_prepared`, `write_system_ui`), Memory the loops of
--   both that store bytes, SystemPixels is system_pixels.rs (`rasterize_system_ui`), Present is
--   present.rs and controller.rs (`present_remote`, `submit_update`), Backend is backend.rs.
--
-- How they interact: Payload builds on Message and Frame; Stream decodes with Message, and
-- Inbound and Frames with Payload; a frame that Frames has read goes through Mailbox to Display;
-- Sender numbers and encodes frames and forwards them with Server; Session asks Sender for frames and
-- Application for the button of a pointer; Region and App take the layout of Screen. Present prepares with Pixels or SystemPixels, asks Request for the
-- update, writes with Mapped and submits; Backend presents what the event loop gives it, and keeps the
-- cache of Display.
--
-- How the code is modelled. Bytes and machine integers are natural numbers, with their width as a
-- hypothesis (`IsU8`, `IsU16`, `IsU64`) where a property needs it and the wrap-around written out where
-- the source wraps; coordinates of a window are integers (`ℤ`), within `i16` where that matters. `usize`
-- is the one of the 32-bit Kindle, 2^32, the smaller of the two targets: what fits there fits the host.
-- An error is a value of a sum (`Result`); the texts of errors are left out. `&mut self` is a state
-- passed on. What threads do under a lock is a list of operations, the latest one first, and a property
-- for every list is one for every interleaving. A socket is a number and a reader is the list of the
-- bytes that the peer sends before it closes; an error of the system other than that end is a Boolean
-- argument of the operation that meets it (`cloned`, `writes`), of `write_outbound` with the number of bytes
-- that the socket takes first. What a socket takes and what the kernel is asked are logs of their states
-- (`received`, `asked`). A reservation of memory succeeds. `Arc::new(())` is a number not used before.
--
-- Loops. Those over rows and bytes are structural. The loop over a connection takes fuel, one more than
-- the bytes that are left: each message takes at least its header of 12 bytes, so the fuel is never used
-- up.
--
-- Not modelled: the device access of src/mxcfb (the ioctls, of which the answer to an update request is
-- an argument `ioctl`, and mmap, which gives the bytes of a mapping); the conversion of pixels in src/x11; the calls of the X server; starting and stopping threads, and timeouts; the datagrams of the discovery over
-- UDP; the configuration; the texts and layouts that PaperSpoon's renderers draw, of which the sender takes
-- the results as arguments, and the parsing of its commands; JPEG decoding,
-- which is a library; the scripts and packaging.
pub mod Prelude
pub mod Protocol
pub mod Stream
pub mod Paperspoon
pub mod Paperpad
