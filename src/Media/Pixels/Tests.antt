-- ===== src/Media/Pixels/Tests.antt =====
-- The theorem on pixel formats (lib/media/media.h), at a format of Qt that is changed and at a format of
-- FFmpeg with 10 bits that no switch names.
use chat_up.Base.{ℕ, ◌≡◌, Bool, false}
use chat_up.Media.Pixels.{argb8888_premultiplied, other_av, to_av_pixel, to_qt_pixel}
use chat_up.Media.Pixels.Stable.{to_av_pixel-to_qt_pixel}

abbrev is_rgb : ℕ → Bool
is_rgb f = false

abbrev depth : ℕ → ℕ
depth f = 10

to_av_pixel-to_qt_pixel_example :
    (to_av_pixel (to_qt_pixel is_rgb depth (to_av_pixel argb8888_premultiplied))
      ≡ to_av_pixel argb8888_premultiplied)
    × (to_qt_pixel is_rgb depth (to_av_pixel (to_qt_pixel is_rgb depth (other_av 66)))
        ≡ to_qt_pixel is_rgb depth (other_av 66))
to_av_pixel-to_qt_pixel_example =
    to_av_pixel-to_qt_pixel is_rgb depth argb8888_premultiplied (other_av 66)
