-- ===== src/Vfs/Segment/Reads.antt =====
-- segment.go: a split read returns the bytes of the track.
use tiramisu.Base.{
  ℕ, zero, suc, ◌+◌, ◌-◌, ◌≤◌, ◌<◌, ◌≡◌, refl, sym, ◌∙◌, inl, inr, true, ◌||◌, List, [], ◌++◌, take,
  drop, length, length-take, length-append, length-drop, ltb, leb, ◌==◌, if◌then◌else◌, arith,
  Bool-cases,
}
use tiramisu.Base.Slices.{
  take-append, drop-append, take-take, drop-take, drop-drop, take_clip, slice_cong, drop-all,
  take-nil,
}
use tiramisu.Base.Int.{ℤ, pos, negsuc}
use tiramisu.Vfs.Segment.{SegmentParts, segment_parts, segment_read}

-- The end of a read, cut to the end of the track.
abbrev cut : ℕ → ℕ → ℕ → ℕ → ℕ
cut h len off n = if ltb (h + len) (off + n) then h + len else off + n

module _ {A : Type 0} where
  -- The bytes that a file system gets for the parts.
  abbrev pub served : List A → List A → SegmentParts → List A
  served header image p =
      take (p.hdr_to - p.hdr_from) (drop p.hdr_from header)
      ++ take p.inner_n (drop p.inner_off image)

  -- The track as one file.
  abbrev pub track_bytes : List A → List A → ℕ → ℕ → List A
  track_bytes header image base len = header ++ take len (drop base image)

  -- A read that starts inside the header, and one behind it.
  read_pieces :
      (header image : List A) (base len off n : ℕ)
      → take n (drop off (track_bytes header image base len))
        ≡ take n (drop off header)
          ++ take
              (n - (length header - off))
              (take (len - (off - length header)) (drop (base + (off - length header)) image))
  read_pieces header image base len off n =
      let h = length header in
      rw
        (
          drop-append off header (take len (drop base image)),
          take-append n (drop off header) (drop (off - h) (take len (drop base image))),
          drop-take (off - h) len (drop base image),
          drop-drop (off - h) base image,
          length-drop off header,
        )
        refl

  header_part :
      (header : List A) (base len off n : ℕ)
      → let p = segment_parts (length header) base off (cut (length header) len off n) in
        take (p.hdr_to - p.hdr_from) (drop p.hdr_from header) ≡ take n (drop off header)
  unfolding segment_parts
  header_part header base len off n = elim (Bool-cases (ltb off (length header))) [
    | inl e ↦ rw e (take_clip _ _ (drop off header) (ground (arith, length-drop off header)))
    | inr e ↦ rw (e, drop-all off header (ground arith), take-nil n) refl
  ]

  inner_part :
      (image : List A) (h base len off n : ℕ)
      → off < h + len
      → let p = segment_parts h base off (cut h len off n) in
        take p.inner_n (drop p.inner_off image)
        ≡ take (n - (h - off)) (take (len - (off - h)) (drop (base + (off - h)) image))
  unfolding segment_parts
  inner_part image h base len off n inside =
      slice_cong _ _ _ _ image (ground arith) (λ some_bytes. ground arith)
      ∙ sym (take-take (n - (h - off)) (len - (off - h)) (drop (base + (off - h)) image))

  length-track-le :
      (header image : List A) (base len : ℕ)
      → length (track_bytes header image base len) ≤ length header + len
  length-track-le header image base len =
      omega (
        arith,
        length-append header (take len (drop base image)),
        length-take len (drop base image),
      )

  parts_lem :
      (header image : List A) (base len off n : ℕ)
      → off < length header + len
      → served header image (segment_parts (length header) base off (cut (length header) len off n))
        ≡ take n (drop off (track_bytes header image base len))
  parts_lem header image base len off n inside =
      rw (header_part header base len off n, inner_part image (length header) base len off n inside)
        (sym (read_pieces header image base len off n))

  nothing_there :
      (header image : List A) (base len o m : ℕ)
      → (leb (length header + len) o || (m == 0)) ≡ true
      → take m (drop o (track_bytes header image base len)) ≡ []
  nothing_there header image base len o zero e = refl
  nothing_there header image base len o (suc m) e =
      rw
        (drop-all o (track_bytes header image base len)
          (ground (arith, length-track-le header image base len)))
        refl

  -- A read at an offset from the start on returns what a read of the whole track as one file
  -- would, header and image bytes together and cut at its end; a negative offset or count reads
  -- nothing.
  pub segment_read-slice :
      (header image : List A) (base len : ℕ)
      → ((off n : ℕ)
          → served header image (segment_read (length header) base len (pos off) (pos n))
            ≡ take n (drop off (track_bytes header image base len)))
        × ((k : ℕ) (z : ℤ)
            → (served header image (segment_read (length header) base len (negsuc k) z) ≡ [])
              × (served header image (segment_read (length header) base len z (negsuc k)) ≡ []))
  unfolding segment_read
  segment_read-slice header image base len = (inside, λ k z. (refl, negative_count k z))
    where
      inside :
          (off n : ℕ)
          → served header image (segment_read (length header) base len (pos off) (pos n))
            ≡ take n (drop off (track_bytes header image base len))
      inside off n = elim (Bool-cases (leb (length header + len) off || (n == 0))) [
        | inl e ↦ rw e (sym (nothing_there header image base len off n e))
        | inr e ↦ rw e (parts_lem header image base len off n (ground arith))
      ]

      negative_count :
          (k : ℕ) (z : ℤ)
          → served header image (segment_read (length header) base len z (negsuc k)) ≡ []
      negative_count k (pos o) = refl
      negative_count k (negsuc o) = refl
