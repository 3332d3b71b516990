-- ===== src/Media/Pixels/Stable.antt =====
-- lib/media/media.h and media.cpp: pixel formats that are converted there and back.
use chat_up.Base.{ℕ, Bool, true, false, ◌≡◌, refl, if◌then◌else◌, ltb}
use chat_up.Media.Pixels.{
  QtPixel, AvPixel, to_av_pixel, to_qt_pixel, invalid, ayuv, ayuv_premultiplied, yv12, imc1, imc2,
  imc3, imc4, other_qt, jpeg, argb8888, argb8888_premultiplied, xrgb8888, bgra8888,
  bgra8888_premultiplied, bgrx8888, abgr8888, xbgr8888, rgba8888, rgbx8888, yuv422p, yuv420p,
  yuv420p10, uyvy, yuyv, nv12, nv21, y8, y16, p010, p016, sampler_external_oes, none_av, argb,
  zero_rgb, bgra, bgr_zero, abgr, zero_bgr, rgba, rgb_zero, yuvj422p, av_yuv422p, av_yuv420p,
  av_yuv420p10, uyvy422, yuyv422, av_nv12, av_nv21, gray8, gray16, av_p010, av_p016, mediacodec,
  other_av, by_descriptor,
}

module _ (is_rgb : ℕ → Bool) (depth : ℕ → ℕ) where
  stable : (q : QtPixel) → to_av_pixel (to_qt_pixel is_rgb depth (to_av_pixel q)) ≡ to_av_pixel q
  unfolding to_av_pixel to_qt_pixel
  stable invalid = refl
  stable ayuv = refl
  stable ayuv_premultiplied = refl
  stable yv12 = refl
  stable imc1 = refl
  stable imc2 = refl
  stable imc3 = refl
  stable imc4 = refl
  stable other_qt = refl
  stable jpeg = refl
  stable argb8888 = refl
  stable argb8888_premultiplied = refl
  stable xrgb8888 = refl
  stable bgra8888 = refl
  stable bgra8888_premultiplied = refl
  stable bgrx8888 = refl
  stable abgr8888 = refl
  stable xbgr8888 = refl
  stable rgba8888 = refl
  stable rgbx8888 = refl
  stable yuv422p = refl
  stable yuv420p = refl
  stable yuv420p10 = refl
  stable uyvy = refl
  stable yuyv = refl
  stable nv12 = refl
  stable nv21 = refl
  stable y8 = refl
  stable y16 = refl
  stable p010 = refl
  stable p016 = refl
  stable sampler_external_oes = refl

  stable_by_descriptor :
      (b : Bool) (d : ℕ)
      → to_qt_pixel is_rgb depth (to_av_pixel (by_descriptor b d)) ≡ by_descriptor b d
  unfolding to_av_pixel to_qt_pixel by_descriptor
  stable_by_descriptor true d = refl
  stable_by_descriptor false d = deep (ltb 8 d)
    where
      deep :
          (c : Bool)
          → to_qt_pixel is_rgb depth (to_av_pixel (if c then p016 else yuv420p))
            ≡ (if c then p016 else yuv420p)
      deep true = refl
      deep false = refl

  stable_qt :
      (f : AvPixel)
      → to_qt_pixel is_rgb depth (to_av_pixel (to_qt_pixel is_rgb depth f))
        ≡ to_qt_pixel is_rgb depth f
  unfolding to_av_pixel to_qt_pixel
  stable_qt none_av = refl
  stable_qt argb = refl
  stable_qt zero_rgb = refl
  stable_qt bgra = refl
  stable_qt bgr_zero = refl
  stable_qt abgr = refl
  stable_qt zero_bgr = refl
  stable_qt rgba = refl
  stable_qt rgb_zero = refl
  stable_qt yuvj422p = refl
  stable_qt av_yuv422p = refl
  stable_qt av_yuv420p = refl
  stable_qt av_yuv420p10 = refl
  stable_qt uyvy422 = refl
  stable_qt yuyv422 = refl
  stable_qt av_nv12 = refl
  stable_qt av_nv21 = refl
  stable_qt gray8 = refl
  stable_qt gray16 = refl
  stable_qt av_p010 = refl
  stable_qt av_p016 = refl
  stable_qt mediacodec = refl
  stable_qt (other_av f) = stable_by_descriptor (is_rgb f) (depth f)

  -- Whatever FFmpeg's descriptors say: the FFmpeg format of a Qt format, taken to Qt and back, is the same
  -- FFmpeg format; the Qt format of an FFmpeg format, taken there and back, is the same Qt format.
  pub to_av_pixel-to_qt_pixel :
      (q : QtPixel) (f : AvPixel)
      → (to_av_pixel (to_qt_pixel is_rgb depth (to_av_pixel q)) ≡ to_av_pixel q)
        × (to_qt_pixel is_rgb depth (to_av_pixel (to_qt_pixel is_rgb depth f))
            ≡ to_qt_pixel is_rgb depth f)
  to_av_pixel-to_qt_pixel q f = (stable q, stable_qt f)
