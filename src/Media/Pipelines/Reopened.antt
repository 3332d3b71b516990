-- ===== src/Media/Pipelines/Reopened.antt =====
-- lib/media/pipelines.cpp: which device is opened after another one was chosen.
use chat_up.Base.{◌≡◌, true, false, some, [], ◌∷◌, String, string_eq, ◌==◌}
use chat_up.Media.Pipelines.{
  Pipeline, opened, device_opened, decoder_started, unknown_device, set_current_device, open_camera,
  open_microphone, close_open, made,
}

module _ {C : Type 0} where
  -- A pipeline that has been open with the device of one name and is closed; another name is chosen, and
  -- the device opens. The microphone pipeline then opens the new device, and its decoder reads from it;
  -- the camera pipeline opens the old one again.
  pub open-set_current_device :
      (old new : String) (c : C) (p : Pipeline C)
      → p.is_open ≡ false
      → p.device ≡ some old
      → (new == p.dev) ≡ false
      → (new == unknown_device) ≡ false
      → let q = (set_current_device new p).0 in
        (open_microphone (some c) q ≡ (
          record q { device = some new; decoder = some c; is_open = true },
          device_opened new ∷ decoder_started c new ∷ [],
          opened c,
        ))
        × (open_camera (some c) q ≡ (
          record q { device = some old; decoder = some c; is_open = true },
          device_opened old ∷ decoder_started c old ∷ [],
          opened c,
        ))
  unfolding set_current_device open_camera open_microphone close_open made
  open-set_current_device old new c p closed had other known = (
    simp (other, closed, known, had, set_current_device, open_microphone),
    simp (other, closed, known, had, set_current_device, open_camera),
  )
