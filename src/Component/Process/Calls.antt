-- ===== src/Component/Process/Calls.antt =====
-- The calls that a work is to make of the parameter sets, and the part of them that it makes.
use hardware_floral_codec.Common.{
  ◌≡◌, refl, sym, ap, ◌∙◌, Bool, true, false, Option, none, some, List, [], ◌∷◌, ◌++◌,
}
use hardware_floral_codec.Bitstream.Nal.{BitstreamCodec, Bytes}
use hardware_floral_codec.Session.{
  C2Status, c2_ok, c2_blocking, c2_bad_value, c2_bad_state, c2_not_found, c2_no_init, c2_no_memory,
  c2_corrupted, c2_omitted, c2_timed_out, c2_other,
}
use hardware_floral_codec.Component.DecoderConfig.{
  DecoderConfig, store_decoder_config, if_ok, process_updates,
}
use hardware_floral_codec.Component.DecoderConfig.Calls.{
  Call, configures, sends, after_call, after_calls,
}
use hardware_floral_codec.Component.Process.Decoder.{
  InputBuffer, no_buffer, not_linear, view, Input,
}

-- The calls that a work is to make of the parameter sets: its updates, and its bytes, which are a
-- configuration or go to the session in a packet.
unfoldable pub update_calls : List (Option Bytes) → List Call
update_calls [] = []
update_calls (none ∷ params) = update_calls params
update_calls (some bytes ∷ params) = configures bytes ∷ update_calls params

abbrev pub bytes_calls : Bool → Bytes → List Call
bytes_calls true bytes = configures bytes ∷ []
bytes_calls false [] = []
bytes_calls false (b ∷ bytes) = sends (b ∷ bytes) true ∷ []

abbrev pub buffer_calls : Bool → InputBuffer → List Call
buffer_calls config no_buffer = []
buffer_calls config not_linear = []
buffer_calls config (view e bytes) = bytes_calls config bytes

abbrev pub calls_of : Input → List Call
calls_of input =
    update_calls input.config_update ++ buffer_calls input.flags.codec_config input.buffer

-- The first of the calls, where the last packet may be one that the session does not take.
pub data IsPart : List Call → List Call → Type 0 where
  nothing : {calls : List Call} → IsPart [] calls
  not_taken :
      {calls : List Call} (bytes : Bytes)
      → IsPart (sends bytes false ∷ []) (sends bytes true ∷ calls)
  behind :
      {part calls : List Call} (call : Call)
      → IsPart part calls
      → IsPart (call ∷ part) (call ∷ calls)

-- A part of the calls leads from the one configuration to the other.
pub record PartOf (codec : BitstreamCodec) (calls : List Call) (c c' : DecoderConfig) : Type 0 where
  pub part : List Call
  pub is_part : IsPart part calls
  pub left : c' ≡ after_calls codec part c

abbrev pub AllOf : BitstreamCodec → List Call → DecoderConfig → DecoderConfig → Type 0
AllOf codec calls c c' = c' ≡ after_calls codec calls c

IsPart-append : {part xs : List Call} (ys : List Call) → IsPart part xs → IsPart part (xs ++ ys)
IsPart-append ys nothing = nothing
IsPart-append ys (not_taken bytes) = not_taken bytes
IsPart-append ys (behind call h) = behind call (IsPart-append ys h)

append-IsPart :
    {part ys : List Call} (xs : List Call) → IsPart part ys → IsPart (xs ++ part) (xs ++ ys)
append-IsPart [] h = h
append-IsPart (x ∷ xs) h = behind x (append-IsPart xs h)

after_calls-append :
    (codec : BitstreamCodec) (xs ys : List Call) (c : DecoderConfig)
    → after_calls codec (xs ++ ys) c ≡ after_calls codec ys (after_calls codec xs c)
unfolding after_calls
after_calls-append codec [] ys c = refl
after_calls-append codec (x ∷ xs) ys c = after_calls-append codec xs ys (after_call codec x c)

module _ (codec : BitstreamCodec) where
  pub PartOf-append :
      (xs ys : List Call) (c c' : DecoderConfig)
      → PartOf codec xs c c'
      → PartOf codec (xs ++ ys) c c'
  PartOf-append xs ys c c' h = record {
    part = h.part;
    is_part = IsPart-append ys h.is_part;
    left = h.left;
  }

  pub AllOf-PartOf :
      (xs ys : List Call) (c c1 c2 : DecoderConfig)
      → AllOf codec xs c c1
      → PartOf codec ys c1 c2
      → PartOf codec (xs ++ ys) c c2
  AllOf-PartOf xs ys c c1 c2 h k = record {
    part = xs ++ k.part;
    is_part = append-IsPart xs k.is_part;
    left = k.left ∙ ap (after_calls codec k.part) h ∙ sym (after_calls-append codec xs k.part c);
  }

  pub AllOf-append :
      (xs ys : List Call) (c c1 c2 : DecoderConfig)
      → AllOf codec xs c c1
      → AllOf codec ys c1 c2
      → AllOf codec (xs ++ ys) c c2
  AllOf-append xs ys c c1 c2 h k =
      k ∙ ap (after_calls codec ys) h ∙ sym (after_calls-append codec xs ys c)

  pub same-PartOf : (calls : List Call) (c c' : DecoderConfig) → c' ≡ c → PartOf codec calls c c'
  unfolding after_calls
  same-PartOf calls c c' h = record { part = []; is_part = nothing; left = h }

  -- The same of a status and a configuration.
  pub record Stores (calls : List Call) (c : DecoderConfig) (r : C2Status × DecoderConfig)
      : Type 0 where
    pub some_of : PartOf codec calls c r.1
    pub all_of : r.0 ≡ c2_ok → AllOf codec calls c r.1

  error-Stores :
      (xs ys : List Call) (c c' : DecoderConfig) (e : C2Status)
      → PartOf codec xs c c'
      → (e ≡ c2_ok → AllOf codec (xs ++ ys) c c')
      → Stores (xs ++ ys) c (e, c')
  error-Stores xs ys c c' e h k = record { some_of = PartOf-append xs ys c c' h; all_of = k }

  if_ok-Stores :
      (xs ys : List Call) (c : DecoderConfig) (r : C2Status × DecoderConfig)
      (next : DecoderConfig → C2Status × DecoderConfig)
      → Stores xs c r
      → ((c1 : DecoderConfig) → Stores ys c1 (next c1))
      → Stores (xs ++ ys) c (if_ok r next)
  if_ok-Stores xs ys c (c2_ok, c1) next h k = record {
    some_of = AllOf-PartOf xs ys c c1 (next c1).1 (h.all_of refl) (k c1).some_of;
    all_of = λ q. AllOf-append xs ys c c1 (next c1).1 (h.all_of refl) ((k c1).all_of q);
  }
  if_ok-Stores xs ys c (c2_blocking, c1) next h k =
      error-Stores xs ys c c1 c2_blocking h.some_of (λ q. absurd (cc))
  if_ok-Stores xs ys c (c2_bad_value, c1) next h k =
      error-Stores xs ys c c1 c2_bad_value h.some_of (λ q. absurd (cc))
  if_ok-Stores xs ys c (c2_bad_state, c1) next h k =
      error-Stores xs ys c c1 c2_bad_state h.some_of (λ q. absurd (cc))
  if_ok-Stores xs ys c (c2_not_found, c1) next h k =
      error-Stores xs ys c c1 c2_not_found h.some_of (λ q. absurd (cc))
  if_ok-Stores xs ys c (c2_no_init, c1) next h k =
      error-Stores xs ys c c1 c2_no_init h.some_of (λ q. absurd (cc))
  if_ok-Stores xs ys c (c2_no_memory, c1) next h k =
      error-Stores xs ys c c1 c2_no_memory h.some_of (λ q. absurd (cc))
  if_ok-Stores xs ys c (c2_corrupted, c1) next h k =
      error-Stores xs ys c c1 c2_corrupted h.some_of (λ q. absurd (cc))
  if_ok-Stores xs ys c (c2_omitted, c1) next h k =
      error-Stores xs ys c c1 c2_omitted h.some_of (λ q. absurd (cc))
  if_ok-Stores xs ys c (c2_timed_out, c1) next h k =
      error-Stores xs ys c c1 c2_timed_out h.some_of (λ q. absurd (cc))
  if_ok-Stores xs ys c ((c2_other n), c1) next h k =
      error-Stores xs ys c c1 (c2_other n) h.some_of (λ q. absurd (cc))

  pub store-Stores :
      (bytes : Bytes) (c : DecoderConfig)
      → Stores (configures bytes ∷ []) c (store_decoder_config codec bytes c)
  unfolding after_calls
  store-Stores bytes c = record {
    some_of = record {
      part = configures bytes ∷ [];
      is_part = behind (configures bytes) nothing;
      left = refl;
    };
    all_of = λ q. refl;
  }

  pub process_updates-Stores :
      (params : List (Option Bytes)) (c : DecoderConfig)
      → Stores (update_calls params) c (process_updates codec params c)
  unfolding process_updates after_calls update_calls
  process_updates-Stores [] c = record { some_of = same-PartOf [] c c refl; all_of = λ q. refl }
  process_updates-Stores (none ∷ params) c = process_updates-Stores params c
  process_updates-Stores (some bytes ∷ params) c =
      if_ok-Stores (configures bytes ∷ []) (update_calls params) c
        (store_decoder_config codec bytes c) (process_updates codec params) (store-Stores bytes c)
        (process_updates-Stores params)
