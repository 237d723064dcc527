-- ===== src/Audio/Flac/Image/Ends.antt =====
-- flacsplit.go: the loop of `Open` ends.
use tiramisu.Base.{
  ℕ, zero, suc, ◌+◌, ◌*◌, ◌≤◌, ◌<◌, ◌≡◌, ◌≢◌, refl, ◌∙◌, ◌⊎◌, inl, inr, Bool, Option, none, List,
  leb, arith, Bool-cases,
}
use tiramisu.Audio.Flac.Image.{
  StreamInfo, Opened, ok, failed, OpenError, out_of_rounds, read_block, read_blocks, open_image,
}

module _ (read_at : ℕ → ℕ → Option (List ℕ)) where
  -- A block that is read takes its four bytes at least.
  read_block-next :
      (pos next : ℕ) (info now : Option StreamInfo) (last : Bool)
      → read_block read_at pos info ≡ ok (now, next, last)
      → 4 + pos ≤ next
  unfolding read_block
  read_block-next pos next info now last h = ground (arith, h)

  read_block-ends :
      (pos : ℕ) (info : Option StreamInfo) → read_block read_at pos info ≢ failed out_of_rounds
  unfolding read_block
  read_block-ends pos info h = ground (arith, h)

  result_cases :
      (r : Opened (Option StreamInfo × ℕ × Bool))
      → ((e : OpenError) × (r ≡ failed e))
        ⊎ ((now : Option StreamInfo) × (next : ℕ) × (last : Bool) × (r ≡ ok (now, next, last)))
  result_cases (failed e) = inl (e, refl)
  result_cases (ok (now, next, last)) = inr (now, next, last, refl)

  read_blocks-ends :
      (fuel size pos : ℕ) (info : Option StreamInfo)
      → size < 4 * fuel + pos
      → 0 < fuel
      → read_blocks read_at fuel size pos info ≢ failed out_of_rounds
  unfolding read_blocks
  read_blocks-ends zero size pos info h p q = absurd (omega (arith, p))
  read_blocks-ends (suc fuel) size pos info h p q =
      elim (result_cases (read_block read_at pos info)) [
        | inl (e, b) ↦ read_block-ends pos info (b ∙ ground (arith, q, b))
        | inr (now, next, last, b) ↦
            let more = read_block-next pos next info now last b in
            elim (Bool-cases (leb size next)) [
              | inl past ↦ absurd (ground (arith, q, b, past))
              | inr within ↦
                  read_blocks-ends fuel size next now (omega (arith, h, more))
                    (ground (arith, h, more, within)) (ground (arith, q, b, within))
            ]
      ]

  -- Whatever the reader answers, opening an image ends with an image or an error of the source: the
  -- loop over the blocks never takes more rounds than the image has bytes.
  pub open_image-ends : (size : ℕ) → open_image read_at size ≢ failed out_of_rounds
  unfolding open_image
  open_image-ends size h =
      absurd
        (ground (arith, h, read_blocks-ends (suc size) size 4 none (omega arith) (omega arith)))
