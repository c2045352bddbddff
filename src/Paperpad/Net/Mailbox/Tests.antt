-- ===== src/Paperpad/Net/Mailbox/Tests.antt =====
-- The mailbox at a frame of one grey pixel.
use rust_x11_hello.Prelude.{◌≡◌, List, [], ◌∷◌, some, refl, ◌↔◌}
use rust_x11_hello.Protocol.Frame.{gray8}
use rust_x11_hello.Paperpad.Net.Frames.{ReceivedFrame}
use rust_x11_hello.Paperpad.Net.Mailbox.{
  set_viewport, publish, take_frame, MailboxOp, resize, arrive, after, mailbox_step,
}
use rust_x11_hello.Paperpad.Net.Mailbox.Latest.{Waits, take_frame_iff}

abbrev dot : ReceivedFrame
dot = record {
  frame_id = 4;
  width = 1;
  height = 1;
  pixel_format = gray8;
  stride = 1;
  encoded = 9 ∷ [];
  receive_decode_elapsed = 0;
}

abbrev wide : ReceivedFrame
wide = record {
  frame_id = 5;
  width = 2;
  height = 1;
  pixel_format = gray8;
  stride = 2;
  encoded = 9 ∷ 8 ∷ [];
  receive_decode_elapsed = 0;
}

-- A frame of another size is refused and leaves the one that waits.
abbrev story : List MailboxOp
story = arrive wide ∷ arrive dot ∷ resize (1, 1) ∷ []

story-take_frame : (take_frame (after story)).0 ≡ some dot
unfolding after mailbox_step set_viewport publish take_frame
story-take_frame = refl

take_frame_iff_example : ((take_frame (after story)).0 ≡ some dot) ↔ Waits dot story
take_frame_iff_example = take_frame_iff story dot
