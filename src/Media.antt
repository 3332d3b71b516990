-- ===== src/Media.antt =====
-- lib/media: the pipes that carry packets and frames between threads.
pub mod DataPipe
pub mod Formats
pub mod Pixels
pub mod SinkConnector
pub mod Decoder
pub mod Demuxer
pub mod VideoEncoder
pub mod AudioEncoder
pub mod RtpPacketizer
pub mod Pipelines
pub mod Capture
pub mod AudioOutput
