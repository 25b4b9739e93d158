-- ===== src/Component/Drain/Encoder.antt =====
-- src/FloralCodecComponent.cpp: the buffer of an encoded frame, with the codec configuration that
-- the first one needs.
use hardware_floral_codec.Common.{
  ℕ, ◌≡◌, ◌≢◌, Bool, true, false, Option, none, some, [], ◌∷◌, ◌==◌, if◌then◌else◌, length, take,
}
use hardware_floral_codec.Bitstream.Nal.{BitstreamCodec, Bytes}
use hardware_floral_codec.Bitstream.Extract.{extract_codec_config}
use hardware_floral_codec.Session.{C2Status, c2_bad_value, c2_no_memory, c2_corrupted}
use hardware_floral_codec.Session.EncoderOutput.{EncodedFrame}
use hardware_floral_codec.Component.Drain.{Given, FrameSource, Made, made, not_made}

-- A linear buffer: the bytes of the block that it shares, and whether it has SYNC_FRAME.
pub record EncodedBuffer : Type 0 where
  pub bytes : Bytes
  pub sync_frame : Bool

-- C2ReadView::error on some bytes, with `none` for C2_OK, and whether AllocUnique gives memory.
pub record Memory : Type 0 where
  pub map_error : Bytes → Option C2Status
  pub can_allocate : ℕ → Bool

module _ (memory : Memory) where
  -- The configuration in a frame, and `encoder_config_sent_` behind it.
  abbrev pub with_config : EncodedBuffer → Bool → Bool × Bytes → Bool × Made EncodedBuffer Bytes
  with_config buffer key_frame (true, config) =
      if memory.can_allocate (length config)
      then (true, made buffer (config ∷ []))
      else (false, not_made c2_no_memory)
  with_config buffer key_frame (false, config) =
      (false, if key_frame then not_made c2_corrupted else made buffer [])

  abbrev pub view_config :
      BitstreamCodec → EncodedBuffer → Bool → Option C2Status → Bool × Made EncodedBuffer Bytes
  view_config codec buffer key_frame (some e) = (false, not_made e)
  view_config codec buffer key_frame none =
      with_config buffer key_frame (extract_codec_config codec (some buffer.bytes) [])

  -- The part under `!encoder_config_sent_`; no codec is one that GetBitstreamCodec does not know.
  unfoldable pub first_buffer :
      Option BitstreamCodec → EncodedBuffer → Bool → Bool × Made EncodedBuffer Bytes
  first_buffer none buffer key_frame = (true, made buffer [])
  first_buffer (some codec) buffer key_frame =
      view_config codec buffer key_frame (memory.map_error buffer.bytes)

  -- `MakeEncodedBuffer` on the block of a frame.
  abbrev pub make_from_block :
      Option BitstreamCodec → EncodedFrame → Option Bytes → Bool → Bool × Made EncodedBuffer Bytes
  make_from_block codec f none sent = (sent, not_made c2_bad_value)
  make_from_block codec f (some block) sent =
      let buffer : EncodedBuffer = record {
        bytes = take f.frame.size block;
        sync_frame = f.frame.key_frame;
      } in
      if f.frame.size == 0
      then (sent, not_made c2_bad_value)
      else if sent
      then (true, made buffer [])
      else first_buffer codec buffer f.frame.key_frame

  unfoldable pub make_encoded_buffer :
      Option BitstreamCodec → EncodedFrame → Bool → Bool × Made EncodedBuffer Bytes
  unfolding first_buffer
  make_encoded_buffer codec f sent = make_from_block codec f f.block sent

-- The buffer of a frame: its block as far as the frame goes, and a sync frame just if it is a key
-- frame.
pub record IsBufferOf (f : EncodedFrame) (buffer : EncodedBuffer) : Type 0 where
  pub block : Bytes
  pub has_block : f.block ≡ some block
  pub not_empty : f.frame.size ≢ 0
  pub frame_bytes : buffer.bytes ≡ take f.frame.size block
  pub same_sync : buffer.sync_frame ≡ f.frame.key_frame

-- What an encoder's client relies on, of a frame, its buffer, and the flag before and behind it:
-- the buffer is that of the frame; once the configuration is sent no buffer has one; a buffer that
-- is made before is no key frame, or it brings the parameter sets of its own bytes.
abbrev pub ConfigComesFirst :
    BitstreamCodec → EncodedFrame → Bool → Bool × Made EncodedBuffer Bytes → Type 0
ConfigComesFirst codec f sent (sent', not_made e) = sent' ≡ sent
ConfigComesFirst codec f true (sent', made buffer updates) =
    IsBufferOf f buffer × (sent' ≡ true) × (updates ≡ [])
ConfigComesFirst codec f false (true, made buffer updates) =
    IsBufferOf f buffer
    × (config : Bytes) × (extract_codec_config codec (some buffer.bytes) [] ≡ (true, config))
    × (updates ≡ config ∷ [])
ConfigComesFirst codec f false (false, made buffer updates) =
    IsBufferOf f buffer
    × ((extract_codec_config codec (some buffer.bytes) []).0 ≡ false)
    × (f.frame.key_frame ≡ false)
    × (updates ≡ [])

-- The session's DequeueEncoderFrame, as the loop asks for it; the flag stands beside the session.
abbrev pub encoder_source :
    {S : Type 0}
    → (Bool → S → S × Given EncodedFrame)
    → Memory
    → Option BitstreamCodec
    → FrameSource (S × Bool) EncodedFrame EncodedBuffer Bytes
encoder_source dequeue memory codec = record {
  dequeue = λ wait s. let (s', r) = dequeue wait s.0 in ((s', s.1), r);
  end_of_stream = λ f. f.frame.end_of_stream;
  has_no_data = λ f. f.frame.size == 0;
  frame_index = λ f. f.frame.frame_index;
  make_buffer = λ f s. let (sent, r) = make_encoded_buffer memory codec f s.1 in ((s.0, sent), r);
}
