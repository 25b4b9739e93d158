-- ===== src/Bitstream/AnnexB.antt =====
-- `FindStartCode` and `NormalizeAnnexB`.
pub mod Scan
pub mod Sound
pub mod Fixed
use hardware_floral_codec.Common.{
  ℕ, zero, suc, ◌+◌, Bool, true, false, ◌&&◌, Option, none, some, [], ◌∷◌, ◌==◌, if◌then◌else◌,
  length, get_or, take, drop,
}
use hardware_floral_codec.Bitstream.Nal.{BitstreamCodec, Bytes, append_nal}

pub record StartCode : Type 0 where
  pub offset : ℕ
  pub size : ℕ

-- The body of `FindStartCode`'s loop at one index, on the bytes from that index on: the size of
-- the start code that begins there, and 0 where the loop goes on.
unfoldable pub start_code_size : Bytes → ℕ
start_code_size [] = 0
start_code_size (a ∷ []) = 0
start_code_size (a ∷ b ∷ []) = 0
start_code_size (a ∷ b ∷ c ∷ []) = if a == 0 && (b == 0 && c == 1) then 3 else 0
start_code_size (a ∷ b ∷ c ∷ d ∷ rest) =
    if a == 0 && b == 0 then if c == 1 then 3 else if c == 0 && d == 1 then 4 else 0 else 0

abbrev pub later : Option StartCode → Option StartCode
later none = none
later (some c) = some (record { offset = suc c.offset; size = c.size })

-- `FindStartCode` from the head of the list; the offset of the result counts from there.
unfoldable pub find_start_code : Bytes → Option StartCode
unfolding start_code_size
find_start_code [] = none
find_start_code (a ∷ rest) = elim (start_code_size (a ∷ rest)) [
  | zero ↦ later (find_start_code rest)
  | suc n ↦ some (record { offset = 0; size = suc n })
]

-- `while (nalEnd > nalStart && data[nalEnd - 1] == 0) --nalEnd`, counted from nalStart.
unfoldable pub trim_end : Bytes → ℕ → ℕ
trim_end bytes zero = zero
trim_end bytes (suc n) =
    let shorter = trim_end bytes n in if get_or bytes n 0 == 0 then shorter else suc n

abbrev pub end_of : Bytes → Option StartCode → ℕ
end_of rest none = length rest
end_of rest (some next) = next.offset

-- The loop of `NormalizeAnnexB` with `rest` the bytes from nalStart on. The result is the return
-- value and the output; `none` means that the fuel ran out.
unfoldable pub normalize_loop : ℕ → BitstreamCodec → Bytes → Bytes → Option (Bool × Bytes)
normalize_loop zero codec rest output = none
normalize_loop (suc fuel) codec rest output =
    let next = find_start_code rest in
    let nal_end = trim_end rest (end_of rest next) in
    elim (if nal_end == 0 then none else append_nal (take nal_end rest) codec output) [
      | none ↦ some (false, [])
      | some output' ↦ elim next [
        | none ↦ some (true, output')
        | some c ↦ normalize_loop fuel codec (drop (c.offset + c.size) rest) output'
      ]
    ]

abbrev pub run_out : Option (Bool × Bytes) → Bool × Bytes
run_out none = (false, [])
run_out (some r) = r

-- `NormalizeAnnexB`. Each round of the loop drops a start code, so the length is fuel enough.
unfoldable pub normalize_annex_b : BitstreamCodec → Bytes → Bytes → Bool × Bytes
unfolding find_start_code trim_end normalize_loop append_nal
normalize_annex_b codec bytes output = elim (find_start_code bytes) [
  | none ↦ (false, [])
  | some c ↦ run_out (normalize_loop (suc (length bytes)) codec (drop (c.offset + c.size) bytes) [])
]
