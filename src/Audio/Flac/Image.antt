-- ===== src/Audio/Flac/Image.antt =====
-- flacsplit.go: `StreamInfo`, `Open` and `Header`. A reader is a function from a position and a count to
-- the bytes; none is an error or a short read.
pub mod Ends
pub mod Trip
use tiramisu.Base.{
  ℕ, zero, suc, ◌+◌, ◌-◌, ◌*◌, ◌/◌, ◌%◌, ◌≡◌, Bool, true, false, ◌||◌, Option, none, some, List, [],
  ◌∷◌, ◌++◌, length, get_or, take, drop, replicate, ltb, leb, ◌==◌, if◌then◌else◌,
}
use tiramisu.Base.Eq.{GoString, codes, str_eq}
use tiramisu.Audio.Flac.Bytes.{big_endian, put_big_endian, put_little_endian}

pub record StreamInfo : Type 0 where
  pub raw : List ℕ
  pub min_block : ℕ
  pub max_block : ℕ
  pub rate : ℕ
  pub channels : ℕ
  pub bits_per_sample : ℕ
  pub total_samples : ℕ

pub record Image : Type 0 where
  pub info : StreamInfo
  pub audio_start : ℕ
  pub size : ℕ

pub record Tag : Type 0 where
  pub key : GoString
  pub value : GoString

-- A reader failed, the stream is no FLAC stream, or the loop took more rounds than the model has.
pub data OpenError : Type 0 where
  read_failed not_flac out_of_rounds : OpenError

pub data Opened (A : Type 0) : Type 0 where
  ok : A → Opened A
  failed : OpenError → Opened A

abbrev pub max_header_size : ℕ
max_header_size = 65536

-- The numbers of a STREAMINFO's bytes 10 to 17.
abbrev pub packed : List ℕ → ℕ
packed raw = big_endian (take 8 (drop 10 raw))

-- `decode`
unfoldable pub decode : List ℕ → StreamInfo
decode raw = record {
  raw = raw;
  min_block = big_endian (take 2 raw);
  max_block = big_endian (take 2 (drop 2 raw));
  rate = packed raw / 17592186044416;
  channels = packed raw / 2199023255552 % 8 + 1;
  bits_per_sample = packed raw / 68719476736 % 32 + 1;
  total_samples = packed raw % 68719476736;
}

module _ (read_at : ℕ → ℕ → Option (List ℕ)) where
  -- One metadata block: the STREAMINFO so far, the end of the block, and whether it is the last.
  unfoldable pub read_block : ℕ → Option StreamInfo → Opened (Option StreamInfo × ℕ × Bool)
  unfolding decode
  read_block pos info = elim (read_at pos 4) [
    | none ↦ failed read_failed
    | some hdr ↦
        let kind = get_or hdr 0 0 in
        let len = get_or hdr 1 0 * 65536 + get_or hdr 2 0 * 256 + get_or hdr 3 0 in
        if kind % 128 == 0
        then (if len == 34
            then (elim (read_at (pos + 4) 34) [
              | none ↦ failed read_failed
              | some raw ↦ ok (some (decode raw), pos + 4 + len, leb 128 kind)
            ])
            else failed not_flac)
        else ok (info, pos + 4 + len, leb 128 kind)
  ]

  -- The loop of `Open`, from a block's start.
  unfoldable pub read_blocks : ℕ → ℕ → ℕ → Option StreamInfo → Opened (Option StreamInfo × ℕ)
  unfolding read_block
  read_blocks zero size pos info = failed out_of_rounds
  read_blocks (suc fuel) size pos info = elim (read_block pos info) [
    | failed e ↦ failed e
    | ok (info, next, last) ↦
        let rest = read_blocks fuel size next info in
        if last then ok (info, next) else if leb size next then failed not_flac else rest
  ]

  -- `Open`. A round passes four bytes or more, so the size is fuel enough.
  unfoldable pub open_image : ℕ → Opened Image
  unfolding read_blocks
  open_image size = elim (read_at 0 4) [
    | none ↦ failed read_failed
    | some head ↦
        if str_eq head (codes "fLaC")
        then (elim (read_blocks (suc size) size 4 none) [
          | failed e ↦ failed e
          | ok (none, pos) ↦ failed not_flac
          | ok (some info, pos) ↦
              if info.rate == 0 || info.total_samples == 0 || ltb info.min_block 16
              then failed not_flac
              else ok (record { info = info; audio_start = pos; size = size })
        ])
        else failed not_flac
  ]

-- The STREAMINFO of a track with so many samples.
unfoldable pub track_info : List ℕ → ℕ → List ℕ
track_info raw total =
    take 4 raw
    ++ replicate 6 0
    ++ put_big_endian 8 (packed raw / 68719476736 * 68719476736 + total % 68719476736)
    ++ replicate 16 0

-- The comments, each with its length.
unfoldable pub write_tags : List Tag → List ℕ
write_tags [] = []
write_tags (t ∷ ts) =
    let kv = t.key ++ (codes "=" ++ t.value) in
    put_little_endian 4 (length kv) ++ (kv ++ write_tags ts)

unfoldable pub vorbis_comment : List Tag → List ℕ
unfolding write_tags
vorbis_comment tags =
    put_little_endian 4 8
    ++ (codes "tiramisu" ++ (put_little_endian 4 (length tags) ++ write_tags tags))

-- The blocks behind each other; none if they are too large.
unfoldable pub assemble : List ℕ → List ℕ → Option (List ℕ)
assemble info comment =
    let cl = length comment in
    let out =
      codes "fLaC"
      ++ ((0 ∷ 0 ∷ 0 ∷ 34 ∷ [])
          ++ (info ++ ((132 ∷ cl / 65536 % 256 ∷ cl / 256 % 256 ∷ cl % 256 ∷ []) ++ comment))) in
    if ltb max_header_size (length out) then none else some out

-- `Header`
unfoldable pub header : List ℕ → ℕ → List Tag → Option (List ℕ)
unfolding track_info vorbis_comment assemble
header raw total tags = assemble (track_info raw total) (vorbis_comment tags)
