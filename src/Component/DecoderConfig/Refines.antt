-- ===== src/Component/DecoderConfig/Refines.antt =====
-- The component as a refinement of its parameter sets: for any calls, what it sends is what the
-- sets call for.
use hardware_floral_codec.Common.{
  ℕ, ◌≡◌, refl, sym, subst, Bool, true, false, List, [], ◌∷◌, map, ◌||◌, not, is_empty,
}
use hardware_floral_codec.Bitstream.Nal.{BitstreamCodec, Bytes, annex_b}
use hardware_floral_codec.Session.{C2Status}
use hardware_floral_codec.Component.DecoderConfig.{DecoderConfig, cleared, Packet}
use hardware_floral_codec.Component.DecoderConfig.Calls.{
  Call, configures, sends, flushes, drains, stops, behind_packet, after_call, packet_sent, sent_by,
  run,
}
use hardware_floral_codec.Component.DecoderConfig.Streams.{
  ParameterSets, no_sets, add_sets, StandsFor, normalized, Gives, are_full, Stored, not_stored,
  stored, store_decoder_config-Stored,
}
use hardware_floral_codec.Component.DecoderConfig.Packets.{
  with_sets, Packed, not_packed, packed, make_packet-Packed,
}

abbrev sent_sets : ParameterSets → ParameterSets
sent_sets p = record p { pending = false }

-- A flush asks for the sets again, if there are any.
abbrev resend_sets : ParameterSets → ParameterSets
resend_sets p = record p { pending = not (is_empty p.units) || p.pending }

-- What the same calls, the latest first, make of the sets, of the size of a length, and of the
-- packets as lists of units.
pub data SetsRun (codec : BitstreamCodec)
    : List Call → ParameterSets → ℕ → List (List Bytes) → Type 0 where
  started : SetsRun codec [] no_sets 4 []
  not_configured :
      {calls : List Call} {p : ParameterSets} {n : ℕ} {sent : List (List Bytes)} (bytes : Bytes)
      → (normalized true codec bytes n).0 ≡ false
      → SetsRun codec calls p n sent
      → SetsRun codec (configures bytes ∷ calls) p n sent
  config_too_long :
      {calls : List Call} {p : ParameterSets} {n : ℕ} {sent : List (List Bytes)} (bytes : Bytes)
      (units : List Bytes) (m : ℕ)
      → Gives codec true bytes n units m
      → are_full p units ≡ true
      → SetsRun codec calls p n sent
      → SetsRun codec (configures bytes ∷ calls) p n sent
  configured :
      {calls : List Call} {p : ParameterSets} {n : ℕ} {sent : List (List Bytes)} (bytes : Bytes)
      (units : List Bytes) (m : ℕ)
      → Gives codec true bytes n units m
      → are_full p units ≡ false
      → SetsRun codec calls p n sent
      → SetsRun codec (configures bytes ∷ calls) (add_sets units p) m sent
  not_made :
      {calls : List Call} {p : ParameterSets} {n : ℕ} {sent : List (List Bytes)} (bytes : Bytes)
      (taken : Bool)
      → (normalized false codec bytes n).0 ≡ false
      → SetsRun codec calls p n sent
      → SetsRun codec (sends bytes taken ∷ calls) p n sent
  packet_too_long :
      {calls : List Call} {p : ParameterSets} {n : ℕ} {sent : List (List Bytes)} (bytes : Bytes)
      (taken : Bool) (units : List Bytes) (m : ℕ)
      → Gives codec false bytes n units m
      → are_full p units ≡ true
      → SetsRun codec calls p n sent
      → SetsRun codec (sends bytes taken ∷ calls) p m sent
  not_taken :
      {calls : List Call} {p : ParameterSets} {n : ℕ} {sent : List (List Bytes)} (bytes : Bytes)
      (units : List Bytes) (m : ℕ)
      → Gives codec false bytes n units m
      → are_full p units ≡ false
      → SetsRun codec calls p n sent
      → SetsRun codec (sends bytes false ∷ calls) p m sent
  was_taken :
      {calls : List Call} {p : ParameterSets} {n : ℕ} {sent : List (List Bytes)} (bytes : Bytes)
      (units : List Bytes) (m : ℕ)
      → Gives codec false bytes n units m
      → are_full p units ≡ false
      → SetsRun codec calls p n sent
      → SetsRun codec (sends bytes true ∷ calls) (sent_sets p) m (with_sets units p ∷ sent)
  flushed :
      {calls : List Call} {p : ParameterSets} {n : ℕ} {sent : List (List Bytes)}
      → SetsRun codec calls p n sent
      → SetsRun codec (flushes ∷ calls) (resend_sets p) n sent
  drained :
      {calls : List Call} {p : ParameterSets} {n : ℕ} {sent : List (List Bytes)}
      → SetsRun codec calls p n sent
      → SetsRun codec (drains ∷ calls) p n sent
  stopped :
      {calls : List Call} {p : ParameterSets} {n : ℕ} {sent : List (List Bytes)}
      → SetsRun codec calls p n sent
      → SetsRun codec (stops ∷ calls) no_sets 4 sent

pub record Refines (codec : BitstreamCodec) (calls : List Call) (r : DecoderConfig × List Bytes)
    : Type 0 where
  pub sets : ParameterSets
  pub units_sent : List (List Bytes)
  pub same_calls : SetsRun codec calls sets r.0.decoder_nal_length_size units_sent
  pub stands_for : StandsFor codec r.0 sets
  pub same_sent : r.1 ≡ map annex_b units_sent

is_empty-annex_b : (units : List Bytes) → is_empty (annex_b units) ≡ is_empty units
is_empty-annex_b [] = refl
is_empty-annex_b (u ∷ units) = refl

cleared-StandsFor : (codec : BitstreamCodec) → StandsFor codec cleared no_sets
cleared-StandsFor codec = record { bytes = refl; headers = tt; same_pending = refl }

module _ (codec : BitstreamCodec) (calls : List Call) where
  -- What is left alone is what it was.
  unchanged :
      (call : Call) (c : DecoderConfig) (sent : List Bytes) (f : Refines codec calls (c, sent))
      → SetsRun codec (call ∷ calls) f.sets c.decoder_nal_length_size f.units_sent
      → Refines codec (call ∷ calls) (c, sent)
  unchanged call c sent f r = record {
    sets = f.sets;
    units_sent = f.units_sent;
    same_calls = r;
    stands_for = f.stands_for;
    same_sent = f.same_sent;
  }

  configured-Refines :
      (bytes : Bytes) (c : DecoderConfig) (sent : List Bytes) (r : C2Status × DecoderConfig)
      (f : Refines codec calls (c, sent))
      → Stored codec bytes c f.sets r
      → Refines codec (configures bytes ∷ calls) (r.1, sent)
  configured-Refines bytes c sent r f (not_stored q no_units) =
      subst (λ c'. Refines codec (configures bytes ∷ calls) (c', sent)) (sym q)
        (unchanged (configures bytes) c sent f (not_configured bytes no_units f.same_calls))
  configured-Refines bytes c sent r f (Stored.too_long units m q g full) =
      subst (λ c'. Refines codec (configures bytes ∷ calls) (c', sent)) (sym q)
        (unchanged (configures bytes) c sent f (config_too_long bytes units m g full f.same_calls))
  configured-Refines bytes c sent r f (stored units e g fits h) = record {
    sets = add_sets units f.sets;
    units_sent = f.units_sent;
    same_calls = configured bytes units _ g fits f.same_calls;
    stands_for = h;
    same_sent = f.same_sent;
  }

  sends-Refines :
      (bytes : Bytes) (taken : Bool) (c : DecoderConfig) (sent : List Bytes) (r : Packet)
      (f : Refines codec calls (c, sent))
      → Packed codec bytes c.decoder_nal_length_size f.sets r
      → Refines codec
          (sends bytes taken ∷ calls)
          (behind_packet codec taken r, packet_sent taken r sent)
  sends-Refines bytes taken c sent r f (not_packed e c' no_units same h) = record {
    sets = f.sets;
    units_sent = f.units_sent;
    same_calls =
        subst (λ n. SetsRun codec (sends bytes taken ∷ calls) f.sets n f.units_sent) (sym same)
          (not_made bytes taken no_units f.same_calls);
    stands_for = h;
    same_sent = f.same_sent;
  }
  sends-Refines bytes taken c sent r f (Packed.too_long units e c' g full h) = record {
    sets = f.sets;
    units_sent = f.units_sent;
    same_calls = packet_too_long bytes taken units _ g full f.same_calls;
    stands_for = h;
    same_sent = f.same_sent;
  }
  sends-Refines bytes false c sent r f (packed units out c' g fits w h) = record {
    sets = f.sets;
    units_sent = f.units_sent;
    same_calls = not_taken bytes units _ g fits f.same_calls;
    stands_for = h;
    same_sent = f.same_sent;
  }
  sends-Refines bytes true c sent r f (packed units out c' g fits w h) = record {
    sets = sent_sets f.sets;
    units_sent = with_sets units f.sets ∷ f.units_sent;
    same_calls = was_taken bytes units _ g fits f.same_calls;
    stands_for = record { bytes = h.bytes; headers = h.headers; same_pending = refl };
    same_sent = rw (w, f.same_sent);
  }

  call-Refines :
      (call : Call) (c : DecoderConfig) (sent : List Bytes) (f : Refines codec calls (c, sent))
      → Refines codec (call ∷ calls) (after_call codec call c, sent_by codec call c sent)
  unfolding after_call sent_by
  call-Refines (configures bytes) c sent f =
      configured-Refines bytes c sent _ f
        (store_decoder_config-Stored codec bytes c f.sets f.stands_for)
  call-Refines (sends bytes taken) c sent f =
      sends-Refines bytes taken c sent _ f (make_packet-Packed codec bytes c f.sets f.stands_for)
  call-Refines flushes c sent f = record {
    sets = resend_sets f.sets;
    units_sent = f.units_sent;
    same_calls = flushed f.same_calls;
    stands_for = record {
      bytes = f.stands_for.bytes;
      headers = f.stands_for.headers;
      same_pending =
          rw (f.stands_for.bytes, is_empty-annex_b f.sets.units, f.stands_for.same_pending);
    };
    same_sent = f.same_sent;
  }
  call-Refines drains c sent f = unchanged drains c sent f (drained f.same_calls)
  call-Refines stops c sent f = record {
    sets = no_sets;
    units_sent = f.units_sent;
    same_calls = stopped f.same_calls;
    stands_for = cleared-StandsFor codec;
    same_sent = f.same_sent;
  }

-- For any list of calls of an AVC or HEVC decoder, of configurations, access units whose packet
-- the session takes or not, flushes, drains and stops: the members that they leave stand for the
-- parameter sets, and the packets that the session took are those of lists of units, that the same
-- calls give by rules on units alone. There, the units of a configuration are those that its
-- normalisation gives; they join sets that wait and replace sets that were sent; a packet that is
-- taken is the units of its access unit, behind the sets if these wait; a flush lets sets that are
-- there wait again; a drain leaves them, and a stop forgets them. Bytes are refused only where the
-- normalisation fails, or where sets that wait and the units are too long together.
pub run-Refines :
    (codec : BitstreamCodec) (calls : List Call) → Refines codec calls (run codec calls)
unfolding run
run-Refines codec [] = record {
  sets = no_sets;
  units_sent = [];
  same_calls = started;
  stands_for = cleared-StandsFor codec;
  same_sent = refl;
}
run-Refines codec (call ∷ calls) =
    call-Refines codec calls call (run codec calls).0 (run codec calls).1 (run-Refines codec calls)
