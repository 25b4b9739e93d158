-- ===== src/Bitstream.antt =====
-- src/BitstreamUtils.cpp: NAL units, start codes and codec configuration records.
-- A pointer with a length is the list of the bytes from it, so an offset counts from the
-- first byte of that list; a `std::vector *output` is passed in and handed back.
pub mod Nal
pub mod AnnexB
pub mod LengthPrefixed
pub mod ConfigRecord
pub mod Normalize
pub mod Extract
mod Examples
