-- ===== src/Bitstream/LengthPrefixed.antt =====
-- `ConvertLengthPrefixed` and `TryLengthSizes`.
pub mod RoundTrip
use hardware_floral_codec.Common.{
  ℕ, zero, suc, ◌+◌, ◌*◌, ◌%◌, ◌^◌, Bool, true, false, not, ◌&&◌, ◌||◌, Option, none, some, List,
  [], ◌∷◌, ltb, leb, ◌==◌, if◌then◌else◌, length, is_empty, take, drop, any,
}
use hardware_floral_codec.Bitstream.Nal.{BitstreamCodec, Bytes, append_nal}

-- `nalSize = (nalSize << 8) | data[offset + index]` in uint32_t, for the given number of bytes.
-- The low byte of the shifted value is 0, so `|` is a sum.
unfoldable pub read_length : ℕ → ℕ → Bytes → ℕ
read_length zero nal_size bytes = nal_size
read_length (suc n) nal_size [] = nal_size
read_length (suc n) nal_size (b ∷ bytes) = read_length n (nal_size * 256 % 2 ^ 32 + b) bytes

-- The loop of `ConvertLengthPrefixed`, on the bytes from `offset` on. `none`: out of fuel.
unfoldable pub convert_loop : ℕ → BitstreamCodec → ℕ → Bytes → Bytes → Option (Bool × Bytes)
convert_loop fuel codec nal_length_size [] output = some (not (is_empty output), output)
convert_loop zero codec nal_length_size (b ∷ bytes) output = none
convert_loop (suc fuel) codec nal_length_size (b ∷ bytes) output =
    if ltb (length (b ∷ bytes)) nal_length_size
    then some (false, [])
    else let nal_size = read_length nal_length_size 0 (b ∷ bytes) in
      let rest = drop nal_length_size (b ∷ bytes) in
      elim (if nal_size == 0 || ltb (length rest) nal_size
        then none
        else append_nal (take nal_size rest) codec output) [
          | none ↦ some (false, [])
          | some output' ↦ convert_loop fuel codec nal_length_size (drop nal_size rest) output'
        ]

abbrev pub run_out : Option (Bool × Bytes) → Bool × Bytes
run_out none = (false, [])
run_out (some r) = r

-- `ConvertLengthPrefixed`. A round drops at least one byte, so the length is fuel enough.
unfoldable pub convert_length_prefixed : BitstreamCodec → Bytes → ℕ → Bytes → Bool × Bytes
unfolding convert_loop read_length append_nal
convert_length_prefixed codec bytes nal_length_size output =
    if ltb nal_length_size 1 || ltb 4 nal_length_size
    then (false, output)
    else run_out (convert_loop (length bytes) codec nal_length_size bytes [])

-- `preferred` of `TryLengthSizes`, and the length size that `Normalize` reports.
unfoldable pub preferred_length_size : ℕ → ℕ
preferred_length_size n = if leb 1 n && leb n 4 then n else 4

-- What a conversion leaves: the return value, the output, and the byte behind
-- `detectedNalLengthSize`, with `none` for a null pointer.
pub record Converted : Type 0 where
  pub ok : Bool
  pub output : Bytes
  pub detected : Option ℕ

abbrev pub converted : Bool → Bytes → Option ℕ → Converted
converted ok output detected = record { ok = ok; output = output; detected = detected }

-- `if (detected != nullptr) *detected = size`.
abbrev pub write : Option ℕ → ℕ → Option ℕ
write none size = none
write (some old) size = some size

-- The loop of `TryLengthSizes` over the candidates; `attempted` lists those tried before.
unfoldable pub try_candidates :
    BitstreamCodec → Bytes → List ℕ → List ℕ → Bytes → Option ℕ → Converted
unfolding convert_length_prefixed
try_candidates codec bytes attempted [] output detected = converted false output detected
try_candidates codec bytes attempted (candidate ∷ candidates) output detected =
    let skipped = try_candidates codec bytes attempted candidates output detected in
    let (done, output') = convert_length_prefixed codec bytes candidate output in
    let failed = try_candidates codec bytes (candidate ∷ attempted) candidates output' detected in
    if candidate == 0 || any (λ a. a == candidate) attempted
    then skipped
    else if done
    then converted true output' (write detected candidate)
    else failed

-- `TryLengthSizes`.
unfoldable pub try_length_sizes : BitstreamCodec → Bytes → ℕ → Bytes → Option ℕ → Converted
unfolding try_candidates preferred_length_size
try_length_sizes codec bytes preferred output detected =
    try_candidates codec bytes [] (preferred_length_size preferred ∷ 4 ∷ 2 ∷ 1 ∷ []) output detected
