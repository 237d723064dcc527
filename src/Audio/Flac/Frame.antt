-- ===== src/Audio/Flac/Frame.antt =====
-- flacsplit.go: `parseFrame` and `crc8`. A read past the end of the bytes, where the source would panic, is a
-- result of its own.
pub mod Total
use Prim.Native.Nat.{bit_xor}
use tiramisu.Base.{
  ℕ, zero, suc, ◌+◌, ◌*◌, ◌-◌, ◌/◌, ◌%◌, Bool, true, false, not, ◌||◌, ◌&&◌, Option, none, some,
  List, [], ◌∷◌, length, get_elem?, get_or, take, drop, ltb, leb, ◌==◌, if◌then◌else◌,
}
use tiramisu.Audio.Flac.Bytes.{big_endian}
use tiramisu.Audio.Flac.Image.{StreamInfo}
use tiramisu.Audio.Flac.Number.{read_utf8_number}

pub record Frame : Type 0 where
  pub sample : ℕ
  pub block : ℕ

pub data Parsed : Type 0 where
  parsed : Frame → Parsed
  refused out_of_range : Parsed

-- The eight shifts of one byte.
unfoldable pub crc_shift : ℕ → ℕ → ℕ
crc_shift zero c = c
crc_shift (suc n) c = crc_shift n (if leb 128 c then bit_xor (c * 2 % 256) 7 else c * 2 % 256)

unfoldable pub crc8_from : ℕ → List ℕ → ℕ
unfolding crc_shift
crc8_from c [] = c
crc8_from c (x ∷ b) = crc8_from (crc_shift 8 (bit_xor c x)) b

unfoldable pub crc8 : List ℕ → ℕ
unfolding crc8_from
crc8 b = crc8_from 0 b

-- `576 << n`, `256 << n`
abbrev pub shifted : ℕ → ℕ → ℕ
shifted v zero = v
shifted v (suc n) = shifted (v * 2) n

-- The first switch, from the position behind the number: the block and the next position.
unfoldable pub block_size : List ℕ → ℕ → ℕ → Option (ℕ × ℕ)
block_size b code j =
    if code == 1
    then some (192, j)
    else if leb 2 code && leb code 5
    then some (shifted 576 (code - 2), j)
    else if code == 6
    then (if ltb (length b) (j + 1) then none else some (big_endian (take 1 (drop j b)) + 1, j + 1))
    else if code == 7
    then (if ltb (length b) (j + 2) then none else some (big_endian (take 2 (drop j b)) + 1, j + 2))
    else some (shifted 256 (code - 8), j)

-- The rates of the codes 1 to 11.
abbrev pub fixed_rates : List ℕ
fixed_rates =
    0 ∷ 88200 ∷ 176400 ∷ 192000 ∷ 8000 ∷ 16000 ∷ 22050 ∷ 24000 ∷ 32000 ∷ 44100 ∷ 48000 ∷ 96000 ∷ []

-- The second switch; none is a read out of range.
unfoldable pub frame_rate : StreamInfo → List ℕ → ℕ → ℕ → Option (ℕ × ℕ)
frame_rate info b code j =
    if code == 0
    then some (info.rate, j)
    else if code == 12
    then (if ltb (length b) (j + 1)
        then none
        else some (big_endian (take 1 (drop j b)) * 1000, j + 1))
    else if code == 13
    then (if ltb (length b) (j + 2) then none else some (big_endian (take 2 (drop j b)), j + 2))
    else if code == 14
    then (if ltb (length b) (j + 2)
        then none
        else some (big_endian (take 2 (drop j b)) * 10, j + 2))
    else some (get_or fixed_rates code 0, j)

-- `[8]int{0, 8, 12, 0, 16, 20, 24, 32}`
abbrev pub sample_bits : List ℕ
sample_bits = 0 ∷ 8 ∷ 12 ∷ 0 ∷ 16 ∷ 20 ∷ 24 ∷ 32 ∷ []

-- The checks behind the CRC: the frame agrees with the STREAMINFO.
unfoldable pub agrees : StreamInfo → ℕ → ℕ → ℕ → ℕ → Bool
agrees info rate channel_code size_code block =
    let channels = if leb 8 channel_code then 2 else channel_code + 1 in
    let bps = get_or sample_bits size_code 0 in
    not (
      not (rate == info.rate)
      || not (channels == info.channels)
      || (not (bps == 0) && not (bps == info.bits_per_sample))
      || (ltb info.max_block block && ltb 0 info.max_block))

-- From the number on.
unfoldable pub parse_sizes : StreamInfo → List ℕ → ℕ → (b1 b2 b3 : ℕ) → (number j : ℕ) → Parsed
unfolding block_size frame_rate crc8 agrees
parse_sizes info b i b1 b2 b3 number j = elim (block_size b (b2 / 16) j) [
  | none ↦ refused
  | some (block, j) ↦ elim (frame_rate info b (b2 % 16) j) [
    | none ↦ out_of_range
    | some (rate, j) ↦ elim (get_elem? b j) [
      | none ↦ refused
      | some c ↦
          if not (crc8 (take (j - i) (drop i b)) == c)
          then refused
          else if agrees info rate (b3 / 16) (b3 / 2 % 8) block
          then parsed (record {
            sample = if b1 % 2 == 1 then number else number * info.min_block;
            block = block;
          })
          else refused
    ]
  ]
]

-- The four bytes of a header.
unfoldable pub parse_head : StreamInfo → List ℕ → ℕ → (b0 b1 b2 b3 : ℕ) → Parsed
unfolding parse_sizes
parse_head info b i b0 b1 b2 b3 =
    if not (b0 == 255) || not (b1 / 2 == 124)
    then refused
    else if not (b3 % 2 == 0)
        || b2 / 16 == 0
        || b2 % 16 == 15
        || ltb 10 (b3 / 16)
        || b3 / 2 % 8 == 3
    then refused
    else (elim (read_utf8_number (drop (i + 4) b)) [
      | none ↦ refused
      | some (number, n) ↦ parse_sizes info b i b1 b2 b3 number (i + 4 + n)
    ])

-- `parseFrame`
unfoldable pub parse_frame : StreamInfo → List ℕ → ℕ → Parsed
unfolding parse_head
parse_frame info b i = if ltb (length b) (i + 16) then refused else (elim (take 4 (drop i b)) [
  | b0 ∷ b1 ∷ b2 ∷ b3 ∷ _ ↦ parse_head info b i b0 b1 b2 b3
  | _ ↦ out_of_range
])
