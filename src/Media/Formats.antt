-- ===== src/Media/Formats.antt =====
-- lib/media/media.h: the sample formats of Qt and of FFmpeg, as far as the conversions name them.
pub mod RoundTrip

-- QAudioFormat::SampleFormat
pub data QtFormat : Type 0 where
  unknown uint8 int16 int32 float : QtFormat

-- AVSampleFormat; `other` is any value that the switch does not name
pub data AvFormat : Type 0 where
  fmt_none fmt_u8 fmt_s16 fmt_s32 fmt_flt fmt_dbl fmt_s64 : AvFormat
  fmt_u8p fmt_s16p fmt_s32p fmt_fltp fmt_dblp fmt_s64p other : AvFormat

pub to_qt_format : AvFormat → QtFormat
to_qt_format fmt_none = unknown
to_qt_format other = unknown
to_qt_format fmt_u8 = uint8
to_qt_format fmt_u8p = uint8
to_qt_format fmt_s16 = int16
to_qt_format fmt_s16p = int16
to_qt_format fmt_s32 = int32
to_qt_format fmt_s32p = int32
to_qt_format fmt_flt = float
to_qt_format fmt_fltp = float
to_qt_format fmt_dbl = float
to_qt_format fmt_dblp = float
to_qt_format fmt_s64 = float
to_qt_format fmt_s64p = float

pub to_av_format : QtFormat → AvFormat
to_av_format unknown = fmt_none
to_av_format uint8 = fmt_u8
to_av_format int16 = fmt_s16
to_av_format int32 = fmt_s32
to_av_format float = fmt_flt
