-- ===== src/Session/Lifecycle/Opened.antt =====
-- A session that Open or Flush has opened.
use hardware_floral_codec.Common.{
  ℕ, ◌≡◌, ◌≢◌, refl, sym, ap, subst, ◌∙◌, Bool, true, false, Option, none, some, List, [], All,
  length, replicate, arith, if-cases,
}
use hardware_floral_codec.CodecSpec.{CodecType, CodecDirection, decode, encode}
use hardware_floral_codec.Session.{
  C2Status, c2_ok, c2_blocking, c2_bad_value, c2_bad_state, c2_not_found, c2_no_init, c2_no_memory,
  c2_corrupted, c2_omitted, c2_timed_out, c2_other,
}
use hardware_floral_codec.Session.Outcome.{
  Outcome, returns, fails, Holds, Ensures, bind-Ensures, then-Ensures, modify-Ensures,
  demand-Ensures,
}
use hardware_floral_codec.Session.Device.{
  output_queue, mmap_memory, queue_buffer_count, compressed_format, compressed_buffer_size,
}
use hardware_floral_codec.Session.Device.Answers.{
  set_format-IsAnswered, request_buffers-ne-zero, OnMapped, map_buffers-OnMapped, OnStarted,
  stream_on-OnStarted,
}
use hardware_floral_codec.Session.Configure.{EncoderSettings}
use hardware_floral_codec.Session.Configure.Formats.{length-replicate, All-replicate}
use hardware_floral_codec.Session.Lifecycle.{
  Driver, Impl, DecoderSettings, is_positive, is_sized, kept_settings, coded_side, with_device,
  put_mapped, put_streaming, close, configure_decoder_output, initialized, open_encoder, open_codec,
  open_session, flush,
}
use hardware_floral_codec.Session.Lifecycle.Emptied.{
  resized, call-any, answered-IsError, IsEmptied, IsUnopened, IsEncoder, IsDecoder, IsOpening,
  Closed, on_device-Ensures,
}

kept_same : (w : Option DecoderSettings) → kept_settings w w ≡ w
kept_same none = refl
kept_same (some w) =
    if-cases (λ (o : Option DecoderSettings). o ≡ some w) (is_sized w) _ _ (λ sized. refl)
      (λ unsized. refl)

module _ {S B G K : Type 0} (d : Driver S) where
  close-IsEmptied : (x : Impl S B G K) → IsEmptied (close d x)
  unfolding close
  close-IsEmptied x = ((refl, refl, tt, refl), refl, refl)

  initialized-IsEncoder :
      (e : EncoderSettings) (x : Impl S B G K) (r : S × C2Status)
      → IsEncoder (some e) x
      → Ensures (λ u. IsEncoder (some e)) IsUnopened (initialized d x r)
  initialized-IsEncoder e x (s, c2_ok) h = record {
    holds = record {
      emptied = h.emptied;
      has_fd = h.has_fd;
      settings_now = h.settings_now;
      given = h.given;
      same = h.same;
      positive = h.positive;
    };
  }
  initialized-IsEncoder e x (s, c2_blocking) h = record {
    holds = ((λ q. cc), close-IsEmptied (with_device s x));
  }
  initialized-IsEncoder e x (s, c2_bad_value) h = record {
    holds = ((λ q. cc), close-IsEmptied (with_device s x));
  }
  initialized-IsEncoder e x (s, c2_bad_state) h = record {
    holds = ((λ q. cc), close-IsEmptied (with_device s x));
  }
  initialized-IsEncoder e x (s, c2_not_found) h = record {
    holds = ((λ q. cc), close-IsEmptied (with_device s x));
  }
  initialized-IsEncoder e x (s, c2_no_init) h = record {
    holds = ((λ q. cc), close-IsEmptied (with_device s x));
  }
  initialized-IsEncoder e x (s, c2_no_memory) h = record {
    holds = ((λ q. cc), close-IsEmptied (with_device s x));
  }
  initialized-IsEncoder e x (s, c2_corrupted) h = record {
    holds = ((λ q. cc), close-IsEmptied (with_device s x));
  }
  initialized-IsEncoder e x (s, c2_omitted) h = record {
    holds = ((λ q. cc), close-IsEmptied (with_device s x));
  }
  initialized-IsEncoder e x (s, c2_timed_out) h = record {
    holds = ((λ q. cc), close-IsEmptied (with_device s x));
  }
  initialized-IsEncoder e x (s, (c2_other n)) h = record {
    holds = ((λ q. cc), close-IsEmptied (with_device s x));
  }

  open_encoder-IsEncoder :
      (settings : Option EncoderSettings) (w : Option DecoderSettings) (x : Impl S B G K)
      → IsOpening w x
      → Ensures (λ u. IsEncoder settings) IsUnopened (open_encoder d settings x)
  open_encoder-IsEncoder none w x h = record { holds = ((λ q. cc), h.0) }
  open_encoder-IsEncoder (some e) w x h =
      then-Ensures (λ u x'. IsOpening w x' × (is_positive e ≡ true)) _ _ _
        (demand-Ensures _ _ _ (λ positive. (h, positive)) ((λ q. cc), h.0))
        (λ u x1 h1.
          then-Ensures (λ u. IsEncoder (some e)) _ _ _
            (modify-Ensures _ _ (record {
              emptied = h1.0.0;
              has_fd = h1.0.1.0;
              settings_now = e;
              given = refl;
              same = refl;
              positive = h1.1;
            }))
            (λ u x2 h2. initialized-IsEncoder e x2 (d.initialize_converter x2.encoder.device) h2))

  put_mapped-Ensures :
      (w : Option DecoderSettings) (count : ℕ) (x : Impl S B G K)
      (r : S × List (List ℕ) × Outcome (Unit {0}))
      → IsOpening w x
      → OnMapped d.device count r
      → Ensures
          (λ u x'. IsOpening w x' × (length x'.output_mmaps ≡ count))
          IsUnopened
          (put_mapped x r)
  put_mapped-Ensures w count x (s, mmaps, returns u) h q = record { holds = (h, q) }
  put_mapped-Ensures w count x (s, mmaps, fails e) h q = record { holds = (q, h.0) }

  -- The input queue before its start.
  abbrev HasSlots : Option DecoderSettings → ℕ → Impl S B G K → Type 0
  HasSlots w count x =
      (IsEmptied x × ((x.has_fd ≡ true) × (x.decoder_settings ≡ w)))
      × (length x.output_mmaps ≡ count)
      × (x.decoder_inputs ≡ replicate count false)

  put_streaming-IsDecoder :
      (w : Option DecoderSettings) (count : ℕ) (x : Impl S B G K)
      (r : S × Bool × Outcome (Unit {0}))
      → count ≢ 0
      → HasSlots w count x
      → OnStarted d.device r
      → Ensures (λ u. IsDecoder w) IsUnopened (put_streaming x r)
  put_streaming-IsDecoder w count x (s, b, returns u) ne h q = record {
    holds = record {
      emptied = h.0.0;
      has_fd = h.0.1.0;
      same = h.0.1.1;
      streams = q;
      free =
          subst (All (λ queued. queued ≡ false)) (sym h.2)
            (All-replicate (λ queued. queued ≡ false) count false refl);
      mapped = ap length h.2 ∙ length-replicate count false ∙ sym h.1;
      some_slot =
          λ none_there. ne (sym (length-replicate count false) ∙ sym (ap length h.2) ∙ none_there);
    };
  }
  put_streaming-IsDecoder w count x (s, b, fails e) ne h q = record { holds = (q, h.0.0) }

  configure_decoder_output-IsDecoder :
      (codec : CodecType) (w : Option DecoderSettings) (x : Impl S B G K)
      → IsOpening w x
      → Ensures (λ u. IsDecoder w) IsUnopened (configure_decoder_output d codec x)
  unfolding configure_decoder_output
  configure_decoder_output-IsDecoder codec w x h =
      then-Ensures _ _ _ _
        (on_device-Ensures (IsOpening w) (λ x s k. k) (λ x k. k.0) (λ u. Unit) _ x h
          (answered-IsError (d.subscribe x.encoder.device)))
        (λ u x1 h1.
          bind-Ensures _ _ _ _
            (on_device-Ensures (IsOpening w) (λ x s k. k) (λ x k. k.0) _ _ x1 h1.1
              (set_format-IsAnswered d.device output_queue (compressed_format codec)
                (coded_side (λ w. w.width) 1_280 x1.decoder_settings)
                (coded_side (λ w. w.height) 720 x1.decoder_settings) 0 compressed_buffer_size
                x1.encoder.device))
            (λ format x2 h2.
              then-Ensures (λ u. IsOpening w) _ _ _ (modify-Ensures _ _ h2.1)
                (λ u x3 h3.
                  bind-Ensures _ _ _ _
                    (on_device-Ensures (IsOpening w) (λ x s k. k) (λ x k. k.0) _ _ x3 h3
                      (request_buffers-ne-zero d.device output_queue mmap_memory queue_buffer_count
                        x3.encoder.device (omega arith)))
                    (λ count x4 h4.
                      then-Ensures _ _ _ _
                        (put_mapped-Ensures w count x4 _ h4.1 (
                          map_buffers-OnMapped d.device output_queue count 0 count []
                            x4.encoder.device (omega arith)))
                        (λ u x5 h5.
                          then-Ensures (λ u. HasSlots w count) _ _ _
                            (modify-Ensures _ _ (
                              (h5.0.0, (h5.0.1.0, h5.0.1.1)),
                              h5.1,
                              resized count x5.decoder_inputs h5.0.1.2,
                            ))
                            (λ u x6 h6. put_streaming-IsDecoder w count x6 _ h4.0 h6 (
                              stream_on-OnStarted d.device output_queue x6.encoder.output_streaming
                                x6.encoder.device)))))))

  -- What an opened session is, by its direction.
  abbrev pub IsOpened :
      CodecDirection → Option EncoderSettings → Option DecoderSettings → Impl S B G K → Type 0
  IsOpened encode settings w x = IsEncoder settings x
  IsOpened decode settings w x = IsDecoder w x

  open_codec-IsOpened :
      (codec : CodecType) (direction : CodecDirection) (settings : Option EncoderSettings)
      (old w : Option DecoderSettings) (x : Impl S B G K)
      → IsOpening old x
      → Ensures
          (λ u. IsOpened direction settings (kept_settings old w))
          IsUnopened
          (open_codec d codec direction settings w x)
  open_codec-IsOpened codec encode settings old w x h = open_encoder-IsEncoder settings old x h
  open_codec-IsOpened codec decode settings old w x h =
      then-Ensures (λ u. IsOpening (kept_settings old w)) _ _ _
        (modify-Ensures _ _
          (h.0, (h.1.0, ap (λ (o : Option DecoderSettings). kept_settings o w) h.1.1, h.1.2)))
        (λ u x1 h1. configure_decoder_output-IsDecoder codec (kept_settings old w) x1 h1)

  open_session-Ensures :
      (has_path : Bool) (codec : CodecType) (direction : CodecDirection)
      (settings : Option EncoderSettings) (w : Option DecoderSettings) (x : Impl S B G K)
      → Ensures
          (λ u. IsOpened direction settings (kept_settings x.decoder_settings w))
          IsUnopened
          (open_session d has_path codec direction settings w x)
  unfolding open_session close
  open_session-Ensures has_path codec direction settings w x =
      let old = x.decoder_settings in
      then-Ensures (λ u. Closed old) _ _ _ (modify-Ensures _ _ (close-IsEmptied x, (refl, refl)))
        (λ u x1 h1.
          then-Ensures (λ u. Closed old) _ _ _
            (demand-Ensures _ _ _ (λ there. h1) ((λ q. cc), h1.0))
            (λ u x2 h2.
              then-Ensures _ _ _ _
                (on_device-Ensures (Closed old) (λ x s k. k) (λ x k. k.0) (λ u. Unit) _ x2 h2
                  (answered-IsError (d.open_device x2.encoder.device)))
                (λ u x3 h3.
                  then-Ensures (λ u. IsOpening old) _ _ _
                    (modify-Ensures _ _ (h3.1.0, (refl, h3.1.1.0, h3.1.1.1)))
                    (λ u x4 h4.
                      bind-Ensures _ _ _ _
                        (on_device-Ensures (IsOpening old) (λ x s k. k) (λ x k. k.0) _ _ x4 h4
                          (call-any (d.querycap x4.encoder.device)))
                        (λ capability x5 h5.
                          then-Ensures (λ u. IsOpening old) _ _ _
                            (demand-Ensures _ _ _ (λ fit. h5.1) ((λ q. cc), h5.1.0))
                            (λ u x6 h6.
                              then-Ensures (λ u. IsOpening old) _ _ _ (modify-Ensures _ _ h6)
                                (λ u x7 h7.
                                  open_codec-IsOpened codec direction settings old w x7 h7)))))))

  -- How Open and Flush end.
  abbrev pub Ends :
      CodecDirection
      → Option EncoderSettings
      → Option DecoderSettings
      → Impl S B G K × Outcome (Unit {0})
      → Type 0
  Ends direction settings w (x, returns u) = IsOpened direction settings w x
  Ends direction settings w (x, fails e) = IsUnopened e x

  ended :
      (direction : CodecDirection) (settings : Option EncoderSettings) (w : Option DecoderSettings)
      (r : Impl S B G K × Outcome (Unit {0}))
      → Holds (λ u. IsOpened direction settings w) IsUnopened r
      → Ends direction settings w r
  ended direction settings w (x, returns u) h = h
  ended direction settings w (x, fails e) h = h

  -- Open of a session in any state, whatever its device answers: with C2_OK the session has the
  -- device open and no image and no frame of before; an encoder has the settings that were given,
  -- all positive, and is not configured yet; a decoder has the given settings if both sides are
  -- positive, and its earlier ones otherwise, and an input queue that runs, with at least one
  -- slot, all of them free, and a mapped buffer for each. With an error there is no image and no
  -- frame, and the encoder is not configured.
  pub open_session-Ends :
      (has_path : Bool) (codec : CodecType) (direction : CodecDirection)
      (settings : Option EncoderSettings) (w : Option DecoderSettings) (x : Impl S B G K)
      → Ends direction settings
          (kept_settings x.decoder_settings w)
          (open_session d has_path codec direction settings w x)
  open_session-Ends has_path codec direction settings w x =
      ended direction settings _ _
        (open_session-Ensures has_path codec direction settings w x).holds

  -- Flush of a session in any state, whatever its device answers: with C2_OK the session is open
  -- again with no image and no frame of before; an encoder has the settings that it had, all
  -- positive, and is not configured yet, and a decoder has the settings that it had, and an input
  -- queue that runs, with at least one slot, all of them free, and a mapped buffer for each. With
  -- an error there is no image and no frame, and the encoder is not configured.
  pub flush-Ends :
      (has_path : Bool) (codec : CodecType) (direction : CodecDirection) (x : Impl S B G K)
      → Ends direction x.encoder.encoder_settings x.decoder_settings
          (flush d has_path codec direction x)
  unfolding flush close
  flush-Ends has_path codec direction x =
      subst
        (λ (w : Option DecoderSettings). Ends direction x.encoder.encoder_settings w (
          open_session d has_path codec direction x.encoder.encoder_settings x.decoder_settings
            (close d x)))
        (kept_same x.decoder_settings)
        (open_session-Ends has_path codec direction x.encoder.encoder_settings x.decoder_settings
          (close d x))
