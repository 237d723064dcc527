-- ===== src/Audio/Flac/Search/Sound.antt =====
-- flacsplit.go: the frame that `Boundary` answers with.
use tiramisu.Base.{
  ℕ, zero, suc, ◌+◌, ◌-◌, ◌≤◌, ◌<◌, ◌≡◌, refl, ◌⊎◌, inl, inr, false, Option, none, some, List,
  length, leb, ◌==◌, arith, Bool-cases, Option-cases, ==_iff,
}
use mathlib.Core.Path.{subst}
use tiramisu.Base.Int.{pos, negsuc}
use tiramisu.Audio.Flac.Image.{Image}
use tiramisu.Audio.Flac.Frame.{Frame}
use tiramisu.Audio.Flac.Search.Windows.{Before, NotBefore, scan_window-Before, Walked, walk-Walked}
use tiramisu.Audio.Flac.Search.{
  follow, window, max_probes, frame_end, scan_window, Walk, stream_end, out_of_steps, at_frame,
  left_behind, walk, Boundary, at, not_found, read_failed, out_of_rounds, Bracket, Probe, answer,
  again, window_start, decide, probes, boundary,
}

module _ (read_at : ℕ → ℕ → Option (List ℕ)) (scaled : ℕ → ℕ) (im : Image) (target : ℕ) where
  -- The frame at the place, in some window that was read: it is at the target or after it, and either the
  -- frame before it stands in the window, starts before the target and ends where it starts, or the
  -- window is the first one.
  abbrev pub FrameAt : ℕ → ℕ → Type 0
  FrameAt off sample =
      (start : ℕ) × (b : List ℕ) × (k : ℕ) × (f : Frame) × (read_at start window ≡ some b)
      × (off ≡ start + k)
      × (sample ≡ f.sample)
      × NotBefore im.info b target k f
      × (((j : ℕ) × (g : Frame) × Before im.info b target j g × (frame_end g ≡ sample) × (j < k))
          ⊎ (start ≡ im.audio_start))

  -- The end of the image, which a frame that starts before the target reaches.
  abbrev pub LastFrame : ℕ → ℕ → Type 0
  LastFrame off sample =
      (off ≡ im.size)
      × (sample ≡ im.info.total_samples)
      × ((start : ℕ) × (b : List ℕ) × (k : ℕ) × (g : Frame) × (read_at start window ≡ some b)
          × Before im.info b target k g
          × (im.info.total_samples ≤ frame_end g))

  abbrev pub Answered : Boundary → Type 0
  Answered (at off sample) = FrameAt off sample ⊎ LastFrame off sample
  Answered read_failed = (start : ℕ) × (read_at start window ≡ none)
  Answered not_found = Unit
  Answered out_of_rounds = ⊥

  abbrev Decided : Probe → Type 0
  Decided (answer r) = Answered r
  Decided (again br) = Unit

  follow-Decided :
      (start : ℕ) (b : List ℕ) (br : Bracket) (w : Walk)
      → read_at start window ≡ some b
      → Walked im.info b target w
      → Decided (follow read_at scaled im target start br w)
  unfolding follow
  follow-Decided start b br stream_end r (k, g, p, e) = inr (refl, refl, (start, b, k, g, r, p, e))
  follow-Decided start b br (at_frame k f) r (p, before) =
      inl (start, b, k, f, r, refl, refl, p, inl before)
  follow-Decided start b br (left_behind k g) r p = tt
  follow-Decided start b br out_of_steps r p = p

  decide-Decided :
      (start : ℕ) (b : List ℕ) (br : Bracket)
      → read_at start window ≡ some b
      → Decided (decide read_at scaled im target start b br)
  unfolding decide
  decide-Decided start b br r =
      let found = scan_window im.info b target (length b - 16) 0 none in
      let known =
        scan_window-Before im.info b target (length b - 16) 0 none (λ k f h. absurd (cc h)) in
      elim (Option-cases found.anchor) [
        | inr ((off, f), e) ↦
            rw (e, decide)
              (follow-Decided start b br (walk im.info b target (length b) off f) r
                (walk-Walked im.info b target (length b) off f (omega arith) (known.0 off f e)))
        | inl e ↦ elim (Option-cases found.first_ge) [
          | inl n ↦ rw (e, decide, n) tt
          | inr ((k, f), n) ↦ elim (Bool-cases (start == im.audio_start)) [
            | inl q ↦
                rw (e, decide, n, q)
                  (inl (
                    start,
                    b,
                    k,
                    f,
                    r,
                    refl,
                    refl,
                    known.1 k f n,
                    inr ((==_iff start im.audio_start).0 q),
                  ))
            | inr q ↦ rw (e, decide, n, q) tt
          ]
        ]
      ]

  Probe-cases : (p : Probe) → ((r : Boundary) × (p ≡ answer r)) ⊎ ((br : Bracket) × (p ≡ again br))
  Probe-cases (answer r) = inl (r, refl)
  Probe-cases (again br) = inr (br, refl)

  pub probes-Answered :
      (count : ℕ) (br : Bracket) → Answered (probes read_at scaled im count target br)
  unfolding probes
  probes-Answered zero br = tt
  probes-Answered (suc count) br =
      let start = window_start im br.est in
      elim (Option-cases (read_at start window)) [
        | inl e ↦ rw (e, probes) (start, e)
        | inr (b, e) ↦
            let known = decide-Decided start b br e in
            elim (Probe-cases (decide read_at scaled im target start b br)) [
              | inl (r, d) ↦ rw (e, probes, d) (subst Decided d known)
              | inr (next, d) ↦ rw (e, probes, d) (probes-Answered count next)
            ]
      ]

-- A boundary at or before the first sample is the start of the frames; one at the end or behind it is the
-- end of the image. Between them, an answer is a frame that parses in a window that was read, starts at
-- the sample or after it, and follows, without a gap, a frame that starts before the sample, unless the
-- window is the first; or it is the end of the image, where a frame before the sample reaches the end of
-- the stream. The walk over a window's frames always ends, and a failed read is one that the reader
-- reports. The estimates of the search do not matter.
pub boundary-Answered :
    (read_at : ℕ → ℕ → Option (List ℕ)) (scaled : ℕ → ℕ) (im : Image) (target : ℕ)
    → (boundary read_at scaled im (negsuc target) ≡ at im.audio_start 0)
      × (boundary read_at scaled im (pos 0) ≡ at im.audio_start 0)
      × (im.info.total_samples ≤ target
          → 0 < target
          → boundary read_at scaled im (pos target) ≡ at im.size im.info.total_samples)
      × (target < im.info.total_samples
          → 0 < target
          → Answered read_at scaled im target (boundary read_at scaled im (pos target)))
unfolding boundary
boundary-Answered read_at scaled im target = (refl, refl, behind target, between target)
  where
    behind :
        (t : ℕ)
        → im.info.total_samples ≤ t
        → 0 < t
        → boundary read_at scaled im (pos t) ≡ at im.size im.info.total_samples
    behind zero h p = absurd (omega (arith, p))
    behind (suc t) h p = ground (arith, h)

    between :
        (t : ℕ)
        → t < im.info.total_samples
        → 0 < t
        → Answered read_at scaled im t (boundary read_at scaled im (pos t))
    between zero h p = absurd (omega (arith, p))
    between (suc t) h p =
        let inside : leb im.info.total_samples (suc t) ≡ false = ground (arith, h) in
        rw inside (
          probes-Answered read_at scaled im (suc t) max_probes
            (record { lo = im.audio_start; hi = im.size; est = im.audio_start + scaled (suc t) }))
