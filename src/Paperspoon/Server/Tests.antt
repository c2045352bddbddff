-- ===== src/Paperspoon/Server/Tests.antt =====
-- A PaperPad on socket 3 with both pixel formats, whose viewport changes while a frame is drawn.
use rust_x11_hello.Prelude.{◌≡◌, ◌↔◌, refl, List, [], ◌∷◌, true, some, ok}
use rust_x11_hello.Protocol.Frame.{gray8}
use rust_x11_hello.Protocol.Payload.{V2PixelFormats, supports, pixel_format_mask}
use rust_x11_hello.Paperspoon.Server.{
  ActiveConnection, empty_server, FrameTarget, sent, viewport_changed, install, install_for_hello,
  target_in, target_of, frame_target_in, frame_target, shows, check_target, forward_active,
  forward_locked, forward_frame_inner, forward_frame_to, holds_token, set_active_viewport,
  update_viewport_if_current,
}
use rust_x11_hello.Paperspoon.Server.Fate.{ServerOp, hello, resize, server_step, server_after, fate}
use rust_x11_hello.Paperspoon.Server.Target.{forward_frame_to_iff}

abbrev both : V2PixelFormats
both = record { mask = 3 }

abbrev greeted : List ServerOp
greeted = hello 3 both (9, 1) ∷ []

abbrev target : FrameTarget
target = record { token = 0; viewport = (9, 1) }

target-eq : frame_target (server_after empty_server greeted) gray8 ≡ ok target
unfolding frame_target frame_target_in target_of target_in server_after server_step
    install_for_hello install supports pixel_format_mask
target-eq = refl

-- The frame comes too late.
late :
    (forward_frame_to
      (λ n. true)
      (server_after (server_after empty_server greeted) (resize 0 (9, 2) ∷ []))
      (1 ∷ [])
      gray8
      target).0
    ≡ ok viewport_changed
unfolding forward_frame_to forward_frame_inner forward_locked forward_active check_target
    server_after server_step install_for_hello install update_viewport_if_current holds_token
    set_active_viewport
late = refl

forward_frame_to_iff_example :
    (a : ActiveConnection) × ((server_after empty_server greeted).active ≡ some a)
    × (true ≡ true
        → ((forward_frame_to
              (λ n. true)
              (server_after (server_after empty_server greeted) (resize 0 (9, 2) ∷ []))
              (1 ∷ [])
              gray8
              target).0
            ≡ ok sent)
          ↔ (shows (fate a (9, 1) (resize 0 (9, 2) ∷ [])) (9, 1) ≡ true))
    × ((forward_frame_to
            (λ n. true)
            (server_after (server_after empty_server greeted) (resize 0 (9, 2) ∷ []))
            (1 ∷ [])
            gray8
            target).0
          ≡ ok sent
        → (forward_frame_to
            (λ n. true)
            (server_after (server_after empty_server greeted) (resize 0 (9, 2) ∷ []))
            (1 ∷ [])
            gray8
            target).1.sent
          ≡ (a.stream, 1 ∷ [])
            ∷ (server_after (server_after empty_server greeted) (resize 0 (9, 2) ∷ [])).sent)
forward_frame_to_iff_example =
    forward_frame_to_iff greeted (resize 0 (9, 2) ∷ []) gray8 (λ n. true) (1 ∷ []) target-eq
