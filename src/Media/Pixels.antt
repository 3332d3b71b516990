-- ===== src/Media/Pixels.antt =====
-- lib/media/media.h and media.cpp: the pixel formats of Qt and of FFmpeg, as far as the conversions name
-- them.
pub mod Stable
mod Tests
use chat_up.Base.{ℕ, ltb, Bool, true, false, if◌then◌else◌}

-- QVideoFrameFormat::PixelFormat; `other_qt` is any value that the switch does not name
pub data QtPixel : Type 0 where
  invalid ayuv ayuv_premultiplied yv12 imc1 imc2 imc3 imc4 other_qt jpeg argb8888 : QtPixel
  argb8888_premultiplied xrgb8888 bgra8888 bgra8888_premultiplied bgrx8888 abgr8888 xbgr8888 :
      QtPixel
  rgba8888 rgbx8888 yuv422p yuv420p yuv420p10 uyvy yuyv nv12 nv21 y8 y16 p010 p016 : QtPixel
  sampler_external_oes : QtPixel

-- AVPixelFormat; `other_av` is any value that the switch does not name
pub data AvPixel : Type 0 where
  none_av argb zero_rgb bgra bgr_zero abgr zero_bgr rgba rgb_zero yuvj422p av_yuv422p : AvPixel
  av_yuv420p av_yuv420p10 uyvy422 yuyv422 av_nv12 av_nv21 gray8 gray16 av_p010 av_p016 : AvPixel
  mediacodec : AvPixel
  other_av : ℕ → AvPixel

pub to_av_pixel : QtPixel → AvPixel
to_av_pixel invalid = none_av
to_av_pixel ayuv = none_av
to_av_pixel ayuv_premultiplied = none_av
to_av_pixel yv12 = none_av
to_av_pixel imc1 = none_av
to_av_pixel imc2 = none_av
to_av_pixel imc3 = none_av
to_av_pixel imc4 = none_av
to_av_pixel other_qt = none_av
to_av_pixel jpeg = bgra
to_av_pixel argb8888 = argb
to_av_pixel argb8888_premultiplied = zero_rgb
to_av_pixel xrgb8888 = zero_rgb
to_av_pixel bgra8888 = bgra
to_av_pixel bgra8888_premultiplied = bgr_zero
to_av_pixel bgrx8888 = bgr_zero
to_av_pixel abgr8888 = abgr
to_av_pixel xbgr8888 = zero_bgr
to_av_pixel rgba8888 = rgba
to_av_pixel rgbx8888 = rgb_zero
to_av_pixel yuv422p = av_yuv422p
to_av_pixel yuv420p = av_yuv420p
to_av_pixel yuv420p10 = av_yuv420p10
to_av_pixel uyvy = uyvy422
to_av_pixel yuyv = yuyv422
to_av_pixel nv12 = av_nv12
to_av_pixel nv21 = av_nv21
to_av_pixel y8 = gray8
to_av_pixel y16 = gray16
to_av_pixel p010 = av_p010
to_av_pixel p016 = av_p016
to_av_pixel sampler_external_oes = mediacodec

-- The fallback by the descriptor of a format: its RGB flag and the depth of its first component.
by_descriptor : Bool → ℕ → QtPixel
by_descriptor is_rgb depth = if is_rgb then rgba8888 else if ltb 8 depth then p016 else yuv420p

-- `is_rgb` and `depth` are what av_pix_fmt_desc_get gives.
pub to_qt_pixel : (ℕ → Bool) → (ℕ → ℕ) → AvPixel → QtPixel
unfolding by_descriptor
to_qt_pixel is_rgb depth none_av = invalid
to_qt_pixel is_rgb depth argb = argb8888
to_qt_pixel is_rgb depth zero_rgb = xrgb8888
to_qt_pixel is_rgb depth bgra = bgra8888
to_qt_pixel is_rgb depth bgr_zero = bgrx8888
to_qt_pixel is_rgb depth abgr = abgr8888
to_qt_pixel is_rgb depth zero_bgr = xbgr8888
to_qt_pixel is_rgb depth rgba = rgba8888
to_qt_pixel is_rgb depth rgb_zero = rgbx8888
to_qt_pixel is_rgb depth yuvj422p = yuv422p
to_qt_pixel is_rgb depth av_yuv422p = yuv422p
to_qt_pixel is_rgb depth av_yuv420p = yuv420p
to_qt_pixel is_rgb depth av_yuv420p10 = yuv420p10
to_qt_pixel is_rgb depth uyvy422 = uyvy
to_qt_pixel is_rgb depth yuyv422 = yuyv
to_qt_pixel is_rgb depth av_nv12 = nv12
to_qt_pixel is_rgb depth av_nv21 = nv21
to_qt_pixel is_rgb depth gray8 = y8
to_qt_pixel is_rgb depth gray16 = y16
to_qt_pixel is_rgb depth av_p010 = p010
to_qt_pixel is_rgb depth av_p016 = p016
to_qt_pixel is_rgb depth mediacodec = sampler_external_oes
to_qt_pixel is_rgb depth (other_av f) = by_descriptor (is_rgb f) (depth f)
