-- ===== src/Audio/Flac/Frame/Total.antt =====
-- flacsplit.go: `parseFrame` stays within its bytes.
use tiramisu.Base.{
  ℕ, ◌+◌, ◌/◌, ◌%◌, ◌≤◌, ◌≡◌, ◌≢◌, refl, none, some, List, [], ◌∷◌, length, length-drop, take, drop,
  ltb, arith, inl, inr, Bool-cases, Option-cases,
}
use tiramisu.Audio.Flac.Image.{StreamInfo}
use tiramisu.Audio.Flac.Number.{first_byte, read_utf8_number}
use tiramisu.Audio.Flac.Frame.{
  out_of_range, block_size, frame_rate, parse_sizes, parse_head, parse_frame,
}

first_byte-le : (c extra v : ℕ) → first_byte c ≡ some (extra, v) → extra ≤ 6
unfolding first_byte
first_byte-le c extra v h = ground (arith, h)

read_utf8_number-length :
    (b : List ℕ) (v n : ℕ) → read_utf8_number b ≡ some (v, n) → (n ≤ 7) × (n ≤ length b)
unfolding read_utf8_number
read_utf8_number-length [] v n h = absurd (cc h)
read_utf8_number-length (c ∷ b) v n h = elim (Option-cases (first_byte c)) [
  | inl e ↦ absurd (ground (arith, h, e))
  | inr ((extra, w), e) ↦ ground (arith, h, e, first_byte-le c extra w e)
]

block_size-le :
    (b : List ℕ) (code j k block : ℕ) → block_size b code j ≡ some (block, k) → k ≤ j + 2
unfolding block_size
block_size-le b code j k block h = ground (arith, h)

frame_rate-some :
    (info : StreamInfo) (b : List ℕ) (code j : ℕ)
    → j + 2 ≤ length b
    → frame_rate info b code j ≢ none
unfolding frame_rate
frame_rate-some info b code j h e = ground (arith, h, e)

parse_sizes-total :
    (info : StreamInfo) (b : List ℕ) (i b1 b2 b3 number j : ℕ)
    → j + 4 ≤ length b
    → parse_sizes info b i b1 b2 b3 number j ≢ out_of_range
unfolding parse_sizes
parse_sizes-total info b i b1 b2 b3 number j h e = elim (Option-cases (block_size b (b2 / 16) j)) [
  | inl q ↦ absurd (ground (arith, e, q))
  | inr ((block, k), q) ↦ elim (Option-cases (frame_rate info b (b2 % 16) k)) [
    | inl r ↦
        frame_rate-some info b (b2 % 16) k (omega (arith, h, block_size-le b (b2 / 16) j k block q))
          r
    | inr ((rate, l), r) ↦ absurd (ground (arith, e, q, r))
  ]
]

parse_head-total :
    (info : StreamInfo) (b : List ℕ) (i b0 b1 b2 b3 : ℕ)
    → i + 16 ≤ length b
    → parse_head info b i b0 b1 b2 b3 ≢ out_of_range
unfolding parse_head
parse_head-total info b i b0 b1 b2 b3 h e =
    elim (Option-cases (read_utf8_number (drop (i + 4) b))) [
      | inl q ↦ absurd (ground (arith, e, q))
      | inr ((number, n), q) ↦
          let short = (read_utf8_number-length (drop (i + 4) b) number n q).0 in
          parse_sizes-total info b i b1 b2 b3 number (i + 4 + n) (omega (arith, h, short))
            (ground (arith, e, q))
    ]

take_four :
    (l : List ℕ)
    → 4 ≤ length l
    → (b0 : ℕ) × (b1 : ℕ) × (b2 : ℕ) × (b3 : ℕ) × (take 4 l ≡ b0 ∷ b1 ∷ b2 ∷ b3 ∷ [])
take_four (b0 ∷ b1 ∷ b2 ∷ b3 ∷ l) h = (b0, b1, b2, b3, refl)
take_four _ h = absurd (omega (arith, h))

-- No bytes and no position make `parseFrame` read past their end: the sixteen bytes that it asks for are
-- enough for every form of a header, whatever the codes in it say.
pub parse_frame-total :
    (info : StreamInfo) (b : List ℕ) (i : ℕ) → parse_frame info b i ≢ out_of_range
unfolding parse_frame
parse_frame-total info b i e = elim (Bool-cases (ltb (length b) (i + 16))) [
  | inl short ↦ absurd (ground (arith, e, short))
  | inr long ↦
      let (b0, b1, b2, b3, q) = take_four (drop i b) (ground (arith, long, length-drop i b)) in
      parse_head-total info b i b0 b1 b2 b3 (ground (arith, long)) (ground (arith, e, long, q))
]
