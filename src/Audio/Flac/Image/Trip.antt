-- ===== src/Audio/Flac/Image/Trip.antt =====
-- flacsplit.go: `Open` of what `Header` wrote, with frames behind it.
use tiramisu.Base.{
  ℕ, suc, ◌+◌, ◌-◌, ◌*◌, ◌/◌, ◌%◌, ◌≤◌, ◌<◌, ◌≡◌, ◌≢◌, refl, sym, ap, ◌∙◌, true, false, ◌||◌,
  Option, none, some, List, [], ◌∷◌, ◌++◌, length, length-append, take, drop, ltb, leb, ◌==◌, arith,
}
use mathlib.Core.Path.{subst}
use mathlib.Core.List.{append_assoc}
use tiramisu.Base.Eq.{codes, str_eq}
use tiramisu.Audio.Flac.Bytes.{big_endian, big_endian-put}
use tiramisu.Audio.Flac.Image.{
  StreamInfo, Tag, ok, packed, decode, read_block, read_blocks, open_image, track_info,
  vorbis_comment, assemble, header,
}

-- The documented behaviour of a reader on bytes: what lies within them is read in full.
abbrev pub Serves : (ℕ → ℕ → Option (List ℕ)) → List ℕ → Type 0
Serves read_at bytes =
    (off n : ℕ) → off + n ≤ length bytes → read_at off n ≡ some (take n (drop off bytes))

take_left : (xs ys : List ℕ) → take (length xs) (xs ++ ys) ≡ xs
take_left [] ys = refl
take_left (x ∷ xs) ys = ap (λ l. x ∷ l) (take_left xs ys)

drop_left : (xs ys : List ℕ) → drop (length xs) (xs ++ ys) ≡ ys
drop_left [] ys = refl
drop_left (x ∷ xs) ys = drop_left xs ys

-- The 64 bits with the sample count replaced.
abbrev repacked : List ℕ → ℕ → ℕ
repacked raw total = packed raw / 68719476736 * 68719476736 + total % 68719476736

length-track_info :
    (raw : List ℕ) (total : ℕ) → length raw ≡ 34 → length (track_info raw total) ≡ 34
unfolding track_info
length-track_info (a ∷ b ∷ c ∷ d ∷ raw) total h = refl
length-track_info _ total h = absurd (omega (arith, h))

-- The fields of a track's STREAMINFO, from its 64 bits.
abbrev fields : List ℕ → ℕ → ℕ → ℕ → ℕ → ℕ → StreamInfo
fields raw total r c b t = record {
  raw = track_info raw total;
  min_block = big_endian (take 2 raw);
  max_block = big_endian (take 2 (drop 2 raw));
  rate = r;
  channels = c % 8 + 1;
  bits_per_sample = b % 32 + 1;
  total_samples = t;
}

abbrev unpacked : List ℕ → ℕ → ℕ → StreamInfo
unpacked raw total v =
    fields raw total (v / 17592186044416) (v / 2199023255552) (v / 68719476736) (v % 68719476736)

fields_cong :
    (raw : List ℕ) (total r s c e b d t u : ℕ)
    → r ≡ s
    → c ≡ e
    → b ≡ d
    → t ≡ u
    → fields raw total r c b t ≡ fields raw total s e d u
fields_cong raw total r s c e b d t u p q x y = cc (p, q, x, y)

decode-track_info :
    (raw : List ℕ) (total : ℕ)
    → length raw ≡ 34
    → packed raw < 18446744073709551616
    → decode (track_info raw total)
      ≡ record (decode raw) { raw = track_info raw total; total_samples = total % 68719476736 }
unfolding track_info decode
decode-track_info (a ∷ b ∷ c ∷ d ∷ raw) total h small =
    let bits : packed (track_info (a ∷ b ∷ c ∷ d ∷ raw) total)
        ≡ repacked (a ∷ b ∷ c ∷ d ∷ raw) total =
      big_endian-put 8 (repacked (a ∷ b ∷ c ∷ d ∷ raw) total) (omega (arith, small)) in
    let old = packed (a ∷ b ∷ c ∷ d ∷ raw) in
    let new = repacked (a ∷ b ∷ c ∷ d ∷ raw) total in
    let rates : new / 17592186044416 ≡ old / 17592186044416 = omega arith in
    let counts : new / 2199023255552 ≡ old / 2199023255552 = omega arith in
    let depths : new / 68719476736 ≡ old / 68719476736 = omega arith in
    let samples : new % 68719476736 ≡ total % 68719476736 = omega arith in
    ap (unpacked (a ∷ b ∷ c ∷ d ∷ raw) total) bits
    ∙ fields_cong (a ∷ b ∷ c ∷ d ∷ raw) total _ _ _ _ _ _ _ _ rates counts depths samples
decode-track_info _ total h small = absurd (omega (arith, h))

abbrev second_header : ℕ → List ℕ
second_header cl = 132 ∷ cl / 65536 % 256 ∷ cl / 256 % 256 ∷ cl % 256 ∷ []

-- The header with what stands behind it, in the order of the bytes.
abbrev laid_out : List ℕ → List ℕ → List ℕ → List ℕ
laid_out info comment rest =
    codes "fLaC"
    ++ ((0 ∷ 0 ∷ 0 ∷ 34 ∷ []) ++ (info ++ (second_header (length comment) ++ (comment ++ rest))))

assemble-laid_out :
    (info comment h rest : List ℕ)
    → assemble info comment ≡ some h
    → (h ++ rest ≡ laid_out info comment rest)
      × (length h ≡ 12 + length info + length comment)
      × (length h ≤ 65536)
unfolding assemble
assemble-laid_out info comment h rest wrote =
    let second = second_header (length comment) in
    let out = codes "fLaC" ++ ((0 ∷ 0 ∷ 0 ∷ 34 ∷ []) ++ (info ++ (second ++ comment))) in
    let same : out ≡ h = ground (arith, wrote) in
    let size : length out ≡ 12 + length info + length comment =
      omega (arith, length-append info (second ++ comment)) in
    (
      ap (λ l. l ++ rest) (sym same)
          ∙ ap (λ l. codes "fLaC" ++ ((0 ∷ 0 ∷ 0 ∷ 34 ∷ []) ++ l))
              (append_assoc info (second ++ comment) rest),
      ap length (sym same) ∙ size,
      subst (λ l. length l ≤ 65536) same (ground (arith, wrote)),
    )

module _ (read_at : ℕ → ℕ → Option (List ℕ)) (info comment rest : List ℕ) where
  abbrev Reads : Type 0
  Reads =
      (read_at 0 4 ≡ some (codes "fLaC"))
      × (read_at 4 4 ≡ some (0 ∷ 0 ∷ 0 ∷ 34 ∷ []))
      × (read_at 8 34 ≡ some info)
      × (read_at 42 4 ≡ some (second_header (length comment)))

  Serves-Reads : length info ≡ 34 → Serves read_at (laid_out info comment rest) → Reads
  Serves-Reads full serves =
      let behind = second_header (length comment) ++ (comment ++ rest) in
      let sized : length (laid_out info comment rest) ≡ 46 + length (comment ++ rest) =
        omega (arith, full, length-append info behind) in
      let first : take 34 (info ++ behind) ≡ info =
        subst (λ n. take n (info ++ behind) ≡ info) full (take_left info behind) in
      let second : drop 34 (info ++ behind) ≡ behind =
        subst (λ n. drop n (info ++ behind) ≡ behind) full (drop_left info behind) in
      (
        serves 0 4 (omega (arith, sized)),
        serves 4 4 (omega (arith, sized)),
        serves 8 34 (omega (arith, sized)) ∙ ap some first,
        serves 42 4 (omega (arith, sized)) ∙ ap (λ l. some (take 4 l)) second,
      )

  read_blocks-header :
      (fuel size : ℕ)
      → 42 < size
      → length comment < 65536
      → Reads
      → read_blocks read_at (suc (suc fuel)) size 4 none
        ≡ ok (some (decode info), 46 + length comment)
  unfolding read_blocks read_block
  read_blocks-header fuel size big small reads =
      let more : leb size 42 ≡ false = ground (arith, big) in
      let len : length comment / 65536 % 256 * 65536
            + length comment / 256 % 256 * 256
            + length comment % 256
          ≡ length comment =
        omega (arith, small) in
      let block1 : read_block read_at 4 none ≡ ok (some (decode info), 42, false) =
        rw (reads.1, read_block, reads.2) refl in
      let block2 : read_block read_at 42 (some (decode info))
          ≡ ok (some (decode info), 46 + length comment, true) =
        rw (reads.3, read_block, len) refl in
      rw (block1, read_blocks, more, block2) refl

open_image-assemble :
    (read_at : ℕ → ℕ → Option (List ℕ)) (info comment h rest : List ℕ)
    → length info ≡ 34
    → (decode info).rate ≢ 0
    → 16 ≤ (decode info).min_block
    → (decode info).total_samples ≢ 0
    → assemble info comment ≡ some h
    → Serves read_at (h ++ rest)
    → open_image read_at (length (h ++ rest))
      ≡ ok (record { info = decode info; audio_start = length h; size = length (h ++ rest) })
unfolding open_image str_eq
open_image-assemble read_at info comment h rest long usable blocks counted wrote serves =
    let laid = assemble-laid_out info comment h rest wrote in
    let size = length (h ++ rest) in
    let reads =
      Serves-Reads read_at info comment rest long (subst (Serves read_at) laid.0 serves) in
    let more : size ≡ suc (size - 1) = omega (arith, length-append h rest, laid.1) in
    let read : read_blocks read_at (suc size) size 4 none
        ≡ ok (some (decode info), 46 + length comment) =
      subst
        (λ n.
          read_blocks read_at (suc n) size 4 none ≡ ok (some (decode info), 46 + length comment))
        (sym more)
        (read_blocks-header read_at info comment rest (size - 1) size
          (omega (arith, length-append h rest, laid.1, long)) (omega (arith, laid.1, laid.2))
          reads) in
    let ends : 46 + length comment ≡ length h = omega (arith, laid.1, long) in
    let fine : ((decode info).rate == 0
          || (decode info).total_samples == 0
          || ltb (decode info).min_block 16)
        ≡ false =
      ground (arith, usable, counted, blocks) in
    rw (reads.0, open_image, read, fine, ends) refl

module _ (read_at : ℕ → ℕ → Option (List ℕ)) (raw : List ℕ) (total : ℕ) (tags : List Tag)
    (h rest : List ℕ) where
  -- Opening what `header` wrote with frames behind it gives the image's own numbers with the sample count
  -- replaced, and the end of the header as the start of the frames. Of the image: its STREAMINFO is 34
  -- bytes, its 64 packed bits are no more, and its rate and block size are usable; of the count: it is
  -- not a multiple of 2 ^ 36, which is what the format holds.
  pub open_image-header :
      length raw ≡ 34
      → packed raw < 18446744073709551616
      → (decode raw).rate ≢ 0
      → 16 ≤ (decode raw).min_block
      → total % 68719476736 ≢ 0
      → header raw total tags ≡ some h
      → Serves read_at (h ++ rest)
      → open_image read_at (length (h ++ rest))
        ≡ ok (record {
          info = record (decode raw) {
            raw = track_info raw total;
            total_samples = total % 68719476736;
          };
          audio_start = length h;
          size = length (h ++ rest);
        })
  unfolding header
  open_image-header full packs usable blocks counted wrote serves =
      let same = decode-track_info raw total full packs in
      open_image-assemble read_at (track_info raw total) (vorbis_comment tags) h rest
        (length-track_info raw total full) (λ e. usable (sym (ap (λ i. i.rate) same) ∙ e))
        (subst (λ i. 16 ≤ i.min_block) (sym same) blocks)
        (λ e. counted (sym (ap (λ i. i.total_samples) same) ∙ e)) wrote serves
      ∙ ap (λ i. ok (record { info = i; audio_start = length h; size = length (h ++ rest) })) same
