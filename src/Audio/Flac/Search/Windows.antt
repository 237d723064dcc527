-- ===== src/Audio/Flac/Search/Windows.antt =====
-- flacsplit.go: the scan of a window and the walk over its frames.
use tiramisu.Base.{
  ℕ, zero, suc, ◌+◌, ◌-◌, ◌≤◌, ◌<◌, ◌≡◌, refl, sym, ◌⊎◌, inl, inr, true, not, ◌&&◌, Option, some,
  List, length, ltb, leb, ◌==◌, if◌then◌else◌, arith, Bool-cases, Option-cases,
}
use mathlib.Core.Path.{subst}
use tiramisu.Audio.Flac.Image.{StreamInfo}
use tiramisu.Audio.Flac.Frame.{Frame, Parsed, parsed, refused, out_of_range, parse_frame}
use tiramisu.Audio.Flac.Search.{
  max_frame_scan, frame_end, successor_from, successor, confirmed, scan_window, Walk, stream_end,
  out_of_steps, at_frame, left_behind, walk,
}

Parsed-cases : (r : Parsed) → ((f : Frame) × (r ≡ parsed f)) ⊎ ((r ≡ refused) ⊎ (r ≡ out_of_range))
Parsed-cases (parsed f) = inl (f, refl)
Parsed-cases refused = inr (inl refl)
Parsed-cases out_of_range = inr (inr refl)

-- A frame that stands before the target, and one at it or after it.
module _ (info : StreamInfo) (b : List ℕ) (target : ℕ) where
  abbrev pub Before : ℕ → Frame → Type 0
  Before k f = (parse_frame info b k ≡ parsed f) × (f.sample < target)

  abbrev pub NotBefore : ℕ → Frame → Type 0
  NotBefore k f = (parse_frame info b k ≡ parsed f) × (target ≤ f.sample)

abbrev first : ℕ → Frame → Option (ℕ × Frame)
first k f = some (k, f)

module _ (info : StreamInfo) (b : List ℕ) where
  successor_from-some :
      (want count k j : ℕ) (next : Frame)
      → successor_from info b want count k ≡ some (j, next)
      → (parse_frame info b j ≡ parsed next) × (next.sample ≡ want) × (k ≤ j) × (j < k + count)
  unfolding successor_from
  successor_from-some want zero k j next h = absurd (cc h)
  successor_from-some want (suc count) k j next h = elim (Parsed-cases (parse_frame info b k)) [
    | inl (f, e) ↦ elim (Bool-cases (f.sample == want)) [
      | inl q ↦ ground (arith, h, e, q)
      | inr q ↦ ground (arith, h, e, q, successor_from-some want count (k + 1) j next)
    ]
    | inr n ↦ ground (arith, h, n, successor_from-some want count (k + 1) j next)
  ]

  successor-some :
      (i j : ℕ) (f next : Frame)
      → successor info b i f ≡ some (j, next)
      → (parse_frame info b j ≡ parsed next)
        × (next.sample ≡ frame_end f)
        × (i + 16 ≤ j)
        × (j < length b)
  unfolding successor
  successor-some i j f next h =
      let end =
        if ltb (i + max_frame_scan) (length b - 16) then i + max_frame_scan else length b - 16 in
      let found = successor_from-some (frame_end f) (end - (i + 16)) (i + 16) j next h in
      (found.0, found.1, found.2, ground (arith, found.2, found.3))

  parsed-within : (i : ℕ) (f : Frame) → parse_frame info b i ≡ parsed f → i + 16 ≤ length b
  unfolding parse_frame
  parsed-within i f h = ground (arith, h)

  pub scan_window-Before :
      (target count i : ℕ) (anchor : Option (ℕ × Frame))
      → ((k : ℕ) (f : Frame) → anchor ≡ some (k, f) → Before info b target k f)
      → ((k : ℕ) (f : Frame)
          → (scan_window info b target count i anchor).anchor ≡ some (k, f)
          → Before info b target k f)
        × ((k : ℕ) (f : Frame)
            → (scan_window info b target count i anchor).first_ge ≡ some (k, f)
            → NotBefore info b target k f)
  unfolding scan_window
  scan_window-Before target zero i anchor old = (old, λ k f h. absurd (cc h))
  scan_window-Before target (suc count) i anchor old = elim (Parsed-cases (parse_frame info b i)) [
    | inl (f, e) ↦
        let real = confirmed info b i f in
        let before = ltb f.sample target in
        let later =
          scan_window-Before target count (i + 1) (if real && before then some (i, f) else anchor)
            (λ k g h. chosen f e k g h) in
        elim (Bool-cases (real && not before)) [
          | inl q ↦ rw (e, scan_window, q) ((old, λ k g h. refused_before f e q k g h))
          | inr q ↦ rw (e, scan_window, q) later
        ]
    | inr (inl e) ↦ rw (e, scan_window) (scan_window-Before target count (i + 1) anchor old)
    | inr (inr e) ↦ rw (e, scan_window) (scan_window-Before target count (i + 1) anchor old)
  ]
    where
      chosen :
          (f : Frame)
          → parse_frame info b i ≡ parsed f
          → (k : ℕ) (g : Frame)
          → (if confirmed info b i f && ltb f.sample target then some (i, f) else anchor)
            ≡ some (k, g)
          → Before info b target k g
      chosen f e k g h = elim (Bool-cases (confirmed info b i f && ltb f.sample target)) [
        | inl q ↦
            let same : (i ≡ k) × (f ≡ g) = ground (arith, h, q) in
            let less : f.sample < target = ground (arith, q) in
            (cc (e, same.0, same.1), subst (λ x. x.sample < target) same.1 less)
        | inr q ↦ old k g (ground (arith, h, q))
      ]

      refused_before :
          (f : Frame)
          → parse_frame info b i ≡ parsed f
          → (confirmed info b i f && not (ltb f.sample target)) ≡ true
          → (k : ℕ) (g : Frame) → first i f ≡ some (k, g)
          → NotBefore info b target k g
      refused_before f e q k g h =
          let same : (i ≡ k) × (f ≡ g) = ground (arith, h) in
          let more : target ≤ f.sample = ground (arith, q) in
          (cc (e, same.0, same.1), subst (λ x. target ≤ x.sample) same.1 more)

  -- What is known at the end of a walk from a frame before the target.
  abbrev pub Walked : ℕ → Walk → Type 0
  Walked target stream_end =
      (k : ℕ) × (g : Frame) × Before info b target k g × (info.total_samples ≤ frame_end g)
  Walked target (at_frame k f) =
      NotBefore info b target k f
      × ((j : ℕ) × (g : Frame) × Before info b target j g × (frame_end g ≡ f.sample) × (j < k))
  Walked target (left_behind k g) = Before info b target k g
  Walked target out_of_steps = ⊥

  pub walk-Walked :
      (target fuel off : ℕ) (cur : Frame)
      → length b ≤ fuel + off
      → Before info b target off cur
      → Walked target (walk info b target fuel off cur)
  unfolding walk
  walk-Walked target zero off cur h p = absurd (omega (arith, h, parsed-within off cur p.0))
  walk-Walked target (suc fuel) off cur h p =
      elim (Bool-cases (leb info.total_samples (frame_end cur))) [
        | inl e ↦ rw (e, walk) (off, cur, p, ground (arith, e))
        | inr e ↦ elim (Option-cases (successor info b off cur)) [
          | inl n ↦ rw (e, walk, n) p
          | inr ((k, next), n) ↦
              let found = successor-some off k cur next n in
              elim (Bool-cases (leb target next.sample)) [
                | inl q ↦
                    rw (e, walk, n, q)
                      (
                        (found.0, ground (arith, q)),
                        (off, cur, p, sym found.1, omega (arith, found.2)),
                      )
                | inr q ↦
                    rw (e, walk, n, q)
                      (walk-Walked target fuel k next (omega (arith, h, found.2))
                        (found.0, ground (arith, q)))
              ]
        ]
      ]
