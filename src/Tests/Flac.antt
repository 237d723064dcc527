-- ===== src/Tests/Flac.antt =====
-- flacsplit.go: a small image, with four frames of 192 samples.
use tiramisu.Base.{
  ℕ, ◌+◌, ◌≤◌, ◌<◌, ◌≡◌, ◌≢◌, refl, Option, none, some, List, [], ◌∷◌, ◌++◌, length, take, drop,
  leb, replicate, if◌then◌else◌, arith,
}
use tiramisu.Base.Int.{pos, negsuc}
use tiramisu.Base.Eq.{codes}
use tiramisu.Audio.Flac.Number.{write_utf8_number, read_utf8_number, read_utf8_number-write}
use tiramisu.Audio.Flac.Image.{
  Image, StreamInfo, Tag, ok, failed, out_of_rounds, decode, track_info, write_tags, vorbis_comment,
  assemble, header, open_image,
}
use tiramisu.Audio.Flac.Image.Trip.{Serves, open_image-header}
use tiramisu.Audio.Flac.Image.Ends.{open_image-ends}
use tiramisu.Audio.Flac.Frame.{
  parsed, out_of_range, parse_frame, crc8, crc8_from, crc_shift, block_size, frame_rate, agrees,
  parse_sizes, parse_head,
}
use tiramisu.Audio.Flac.Frame.Total.{parse_frame-total}
use tiramisu.Audio.Flac.Search.{
  at, boundary, probes, window_start, decide, follow, walk, scan_window, confirmed, successor,
  successor_from,
}
use tiramisu.Audio.Flac.Search.Sound.{Answered, boundary-Answered}

abbrev raw_info : List ℕ
raw_info =
    0 ∷ 192 ∷ 0 ∷ 192 ∷ 0 ∷ 0 ∷ 1 ∷ 0 ∷ 0 ∷ 9 ∷ 10 ∷ 196 ∷ 66 ∷ 240 ∷ 0 ∷ 0 ∷ 3 ∷ 0 ∷ 7 ∷ 7 ∷ 7 ∷ 7
    ∷ 7 ∷ 7 ∷ 7 ∷ 7 ∷ 7 ∷ 7 ∷ 7 ∷ 7 ∷ 7 ∷ 7 ∷ 7 ∷ 7 ∷ []

abbrev tags : List Tag
tags = record { key = codes "TITLE"; value = codes "A" } ∷ []

abbrev written : Option (List ℕ) → List ℕ
written none = []
written (some h) = h

abbrev track_header : List ℕ
track_header = written (header raw_info 384 tags)

abbrev frames : List ℕ
frames =
    (255 ∷ 248 ∷ 25 ∷ 24 ∷ 0 ∷ 237 ∷ replicate 14 0)
    ++ (255 ∷ 248 ∷ 25 ∷ 24 ∷ 1 ∷ 234 ∷ replicate 14 0)
    ++ (255 ∷ 248 ∷ 25 ∷ 24 ∷ 2 ∷ 227 ∷ replicate 14 0)
    ++ (255 ∷ 248 ∷ 25 ∷ 24 ∷ 3 ∷ 228 ∷ replicate 14 0)

abbrev reader : List ℕ → ℕ → ℕ → Option (List ℕ)
reader bytes off n = if leb (off + n) (length bytes) then some (take n (drop off bytes)) else none

reader-Serves : (bytes : List ℕ) → Serves (reader bytes) bytes
reader-Serves bytes off n h = ground (arith, h)

open_image-header_example :
    open_image (reader (track_header ++ frames)) (length (track_header ++ frames))
    ≡ ok (record {
      info = record (decode raw_info) { raw = track_info raw_info 384; total_samples = 384 };
      audio_start = length track_header;
      size = length (track_header ++ frames);
    })
unfolding header track_info assemble vorbis_comment write_tags decode
open_image-header_example =
    open_image-header (reader (track_header ++ frames)) raw_info 384 tags track_header frames refl
      (omega arith) (omega arith) (omega arith) (omega arith) refl
      (reader-Serves (track_header ++ frames))

open_image-ends_example : open_image (λ off n. some (0 ∷ 0 ∷ 0 ∷ 0 ∷ [])) 9 ≢ failed out_of_rounds
open_image-ends_example = open_image-ends (λ off n. some (0 ∷ 0 ∷ 0 ∷ 0 ∷ [])) 9

-- A number of three bytes.
read_utf8_number-write_example :
    read_utf8_number (write_utf8_number 2050 ++ (255 ∷ []))
    ≡ some (2050, length (write_utf8_number 2050))
read_utf8_number-write_example = read_utf8_number-write 2050 (255 ∷ []) (omega arith)

abbrev info : StreamInfo
info = decode raw_info

second_frame : parse_frame info frames 20 ≡ parsed (record { sample = 192; block = 192 })
unfolding parse_frame parse_head parse_sizes block_size frame_rate crc8 crc8_from crc_shift agrees
    read_utf8_number tiramisu.Audio.Flac.Number.first_byte tiramisu.Audio.Flac.Number.read_more
    decode
second_frame = refl

parse_frame-total_example : parse_frame info frames 20 ≢ out_of_range
parse_frame-total_example = parse_frame-total info frames 20

abbrev bytes : List ℕ
bytes = replicate 42 0 ++ (frames ++ replicate 16 0)

abbrev image : Image
image = record { info = info; audio_start = 42; size = 138 }

abbrev windows : ℕ → ℕ → Option (List ℕ)
windows off n = some (take n (drop off bytes))

boundary-Answered_example :
    (boundary windows (λ n. n) image (negsuc 200) ≡ at 42 0)
    × (boundary windows (λ n. n) image (pos 0) ≡ at 42 0)
    × (768 ≤ 200 → 0 < 200 → boundary windows (λ n. n) image (pos 200) ≡ at 138 768)
    × (200 < 768
        → 0 < 200
        → Answered windows (λ n. n) image 200 (boundary windows (λ n. n) image (pos 200)))
unfolding decode
boundary-Answered_example = boundary-Answered windows (λ n. n) image 200

-- The third frame is the first at or after the sample.
third_frame : boundary windows (λ n. n) image (pos 200) ≡ at 82 384
unfolding boundary probes window_start decide follow walk scan_window confirmed successor
    successor_from parse_frame parse_head parse_sizes block_size frame_rate crc8 crc8_from crc_shift
    agrees read_utf8_number tiramisu.Audio.Flac.Number.first_byte
    tiramisu.Audio.Flac.Number.read_more decode
third_frame = refl
