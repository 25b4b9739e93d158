-- ===== src/Lib.antt =====
-- Verification of FloralDroid's hardware codec service.
--
-- The service makes hardware video codecs available to Android's Codec2. At its start it decides
-- whether it runs under a seccomp filter (service/). Its store (src/FloralCodecStore.cpp) asks the
-- probe (src/CapabilityProbe.cpp) which codecs of a table (src/CodecSpec.cpp) have a device, and
-- creates components for them. A component feeds a session (src/V4l2CodecSession.cpp), which
-- exchanges buffers with a V4L2 driver, and rewrites bitstreams (src/BitstreamUtils.cpp) on the
-- way in and out.
--
-- Common: the shared names; lists, tests and integers over the native numbers.
-- Bitstream: src/BitstreamUtils.cpp. Nal has AppendNal, AnnexB FindStartCode and NormalizeAnnexB,
--   LengthPrefixed ConvertLengthPrefixed and TryLengthSizes, ConfigRecord ParseAvcc and ParseHvcc,
--   Normalize the two entry points, Extract ExtractCodecConfig. A pointer with a length is the list
--   of its bytes, and an output vector is passed in and handed back.
-- H264Level: src/H264Level.cpp, with the wrap-around of its integers.
-- EncoderMetadata: src/V4l2EncoderMetadata.h and the timestamps of src/V4l2CodecSession.cpp.
-- DecoderGeometry: src/V4l2DecoderGeometry.h; the driver is a record of calls over a state.
-- Sandbox: service/SandboxMode.h, service/SelinuxState.cpp and service/ServiceSandbox.cpp.
-- OutputMonitor: src/V4l2OutputMonitor.h. The thread is a function of the events that it meets.
-- DmaBuf: src/MinigbmDmaBuf.cpp.
-- CodecSpec, Probe, Store: src/CodecSpec.cpp, src/CapabilityProbe.cpp and, but for its singleton,
--   src/FloralCodecStore.cpp. Probe/Vaapi has the VA-API half of the probe.
-- Session: src/V4l2CodecSession.cpp. Outcome has actions that change the members and may fail,
--   Device the calls that set a device up (SetFormat, RequestBuffers, MapBuffers, StreamOn,
--   StreamOff), Lifecycle Open, Close, Flush and ConfigureDecoderOutput, Configure
--   ConfigureEncoder, and EncoderInput QueueEncoderFrame. EncoderOutput has the way of an encoded
--   frame (PumpEncoderCapture, CopyEncoderFrame, StartEncoderDrain), EncoderFrames that of the
--   images behind it (DequeueEncoderInputs, PumpEncoder, DequeueEncoderFrame, and the slot that
--   QueueEncoderFrame takes), DecoderInput that of a packet (DequeueDecoderInputs,
--   QueueDecoderPacket), DecoderCapture the capture queue of a decoder (its setup behind a change
--   of the resolution, its slots, PumpDecoder, DequeueDecoderFrame, StartDecoderDrain), and
--   Controls the bitrate and the crop of an encoder.
-- Component: src/FloralCodecComponent.cpp with the V4L2 backend. DecoderConfig has the
--   parameter sets of a decoder and the packets that they go with; its Calls has runs of the
--   calls that change them, and its Refines shows them as lists of NAL units. Work has
--   FinishOutput and FinishEmptyWork, Drain the loop of DrainV4l2Encoder and DrainV4l2Decoder,
--   and Process process, flush, stop, ProcessV4l2Decoder and ProcessV4l2Encoder. The session is a
--   record of calls over a state, and so are the clock and the framework: the loops of the
--   component do not depend on how the session answers. Parameters has the setters of an
--   encoder's parameters and the settings that onInit makes of them.
--
-- Fuel: the loops of Bitstream run on the length of their input, since each round drops a byte
-- or more. The loops on a driver (Probe, Session) go on for as long as it answers, so their fuel
-- is an argument, and a result of `none` says that it ran out; for the list of formats, which
-- the probe walks, it is enough that the fuel is no less than the number of formats, and for the
-- calls of an encoder, that it is more than the buffers and interrupts that the device still
-- gives; for a work of a decoder, that it is more than the frames that the session still gives,
-- and than the ticks of the time that its deadline leaves.
--
-- Not modelled: of src/FloralCodecComponent.cpp, the declaration of a decoder's parameters, the
-- profiles and levels that are published, and the FFmpeg session of the VA-API backend; the
-- frame conversions by Vulkan and VA-API and the mapping of buffers, which are calls of other
-- libraries; the weak singleton of src/FloralCodecStore.cpp; the log; and service/service.cpp.
pub mod Common
pub mod Bitstream
pub mod H264Level
pub mod EncoderMetadata
pub mod DecoderGeometry
pub mod Sandbox
pub mod OutputMonitor
pub mod DmaBuf
pub mod CodecSpec
pub mod Probe
pub mod Store
pub mod Component
pub mod Session
