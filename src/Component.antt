-- ===== src/Component.antt =====
-- src/FloralCodecComponent.cpp with FLORAL_CODEC_BACKEND_V4L2_M2M. The session, the interface of
-- the parameters and the Codec2 framework are parameters.
pub mod DecoderConfig
pub mod Work
pub mod Drain
pub mod Process
pub mod Parameters
mod Examples
