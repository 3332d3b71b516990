-- ===== src/Media/Formats/RoundTrip.antt =====
-- Qt's sample formats and FFmpeg's (lib/media/media.h).
use chat_up.Base.{◌≡◌, refl}
use chat_up.Media.Formats.{
  QtFormat, unknown, uint8, int16, int32, float, to_qt_format, to_av_format,
}

-- A sample format of Qt that is converted to FFmpeg's and back is the same format.
pub to_qt_format-to_av_format : (f : QtFormat) → to_qt_format (to_av_format f) ≡ f
unfolding to_qt_format to_av_format
to_qt_format-to_av_format unknown = refl
to_qt_format-to_av_format uint8 = refl
to_qt_format-to_av_format int16 = refl
to_qt_format-to_av_format int32 = refl
to_qt_format-to_av_format float = refl
