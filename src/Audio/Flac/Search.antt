-- ===== src/Audio/Flac/Search.antt =====
-- flacsplit.go: `successor`, `confirmed` and `Boundary`. The estimates, which the source computes in floating
-- point, are arguments; positions are naturals, and an estimate below nought is nought, since both are
-- replaced by the middle of the bracket.
pub mod Windows
pub mod Sound
use tiramisu.Base.{
  ℕ, zero, suc, ◌+◌, ◌*◌, ◌-◌, ◌/◌, Bool, true, false, not, ◌||◌, ◌&&◌, Option, none, some, List,
  [], ◌∷◌, length, ltb, leb, ◌==◌, if◌then◌else◌,
}
use tiramisu.Base.Int.{ℤ, pos, negsuc}
use tiramisu.Audio.Flac.Image.{StreamInfo, Image}
use tiramisu.Audio.Flac.Frame.{Frame, Parsed, parsed, refused, out_of_range, parse_frame}

-- 256 and 128 KiB
abbrev pub window : ℕ
window = 262144

abbrev pub max_frame_scan : ℕ
max_frame_scan = 131072

abbrev pub max_probes : ℕ
max_probes = 8

abbrev pub frame_end : Frame → ℕ
frame_end f = f.sample + f.block

-- The loop of `successor` over so many positions from one.
unfoldable pub successor_from : StreamInfo → List ℕ → ℕ → ℕ → ℕ → Option (ℕ × Frame)
successor_from info b want zero k = none
successor_from info b want (suc count) k =
    let rest = successor_from info b want count (k + 1) in
    elim (parse_frame info b k) [
      | parsed next ↦ if next.sample == want then some (k, next) else rest
      | _ ↦ rest
    ]

unfoldable pub successor : StreamInfo → List ℕ → ℕ → Frame → Option (ℕ × Frame)
unfolding successor_from
successor info b i f =
    let end =
      if ltb (i + max_frame_scan) (length b - 16) then i + max_frame_scan else length b - 16 in
    successor_from info b (frame_end f) (end - (i + 16)) (i + 16)

unfoldable pub confirmed : StreamInfo → List ℕ → ℕ → Frame → Bool
unfolding successor
confirmed info b i f =
    if leb info.total_samples (frame_end f)
    then true
    else (elim (successor info b i f) [ some _ ↦ true | none ↦ false ])

-- What the scan of a window finds: the last confirmed frame before the target, and the first at or after it.
pub record Found : Type 0 where
  pub anchor : Option (ℕ × Frame)
  pub first_ge : Option (ℕ × Frame)

-- The scan over so many positions from one.
unfoldable pub scan_window : StreamInfo → List ℕ → (target count i : ℕ) → Option (ℕ × Frame) → Found
unfolding confirmed
scan_window info b target zero i anchor = record { anchor = anchor; first_ge = none }
scan_window info b target (suc count) i anchor = elim (parse_frame info b i) [
  | parsed f ↦
      let real = confirmed info b i f in
      let before = ltb f.sample target in
      let rest =
        scan_window info b target count (i + 1) (if real && before then some (i, f) else anchor) in
      if real && not before then record { anchor = anchor; first_ge = some (i, f) } else rest
  | _ ↦ scan_window info b target count (i + 1) anchor
]

-- How the walk from an anchor ends: the stream ends within a frame, a frame is at or after the target, or
-- the window ends behind a frame.
pub data Walk : Type 0 where
  stream_end out_of_steps : Walk
  at_frame left_behind : ℕ → Frame → Walk

unfoldable pub walk : StreamInfo → List ℕ → (target fuel off : ℕ) → Frame → Walk
unfolding successor
walk info b target zero off cur = out_of_steps
walk info b target (suc fuel) off cur =
    if leb info.total_samples (frame_end cur)
    then stream_end
    else (elim (successor info b off cur) [
      | none ↦ left_behind off cur
      | some (next_off, next) ↦
          let rest = walk info b target fuel next_off next in
          if leb target next.sample then at_frame next_off next else rest
    ])

-- An offset and a sample, or why there is none.
pub data Boundary : Type 0 where
  at : ℕ → ℕ → Boundary
  read_failed not_found out_of_rounds : Boundary

pub record Bracket : Type 0 where
  pub lo : ℕ
  pub hi : ℕ
  pub est : ℕ

pub data Probe : Type 0 where
  answer : Boundary → Probe
  again : Bracket → Probe

-- `lo + (hi-lo)/2`, where the bracket may have crossed.
abbrev pub middle : ℕ → ℕ → ℕ
middle lo hi = if leb lo hi then lo + (hi - lo) / 2 else lo - (lo - hi) / 2

abbrev pub clamp : Bracket → Bracket
clamp b = if leb b.est b.lo || leb b.hi b.est then record b { est = middle b.lo b.hi } else b

unfoldable pub window_start : Image → ℕ → ℕ
window_start im est =
    let start =
      if ltb (est - window / 2) im.audio_start then im.audio_start else est - window / 2 in
    let start = if ltb (im.size - 16) start then im.size - window else start in
    if ltb start im.audio_start then im.audio_start else start

-- `scaled` is the number of bytes that so many samples are taken for. A read gives the bytes up to the end of
-- the image; none is an error other than its end.
module _ (read_at : ℕ → ℕ → Option (List ℕ)) (scaled : ℕ → ℕ) (im : Image) where
  -- What a probe makes of a walk.
  unfoldable pub follow : (target start : ℕ) → Bracket → Walk → Probe
  follow target start br stream_end = answer (at im.size im.info.total_samples)
  follow target start br (at_frame k next) = answer (at (start + k) next.sample)
  follow target start br (left_behind k cur) = again (
      clamp (record br {
        lo = if ltb br.lo (start + k) then start + k else br.lo;
        est = start + k + scaled (target - cur.sample);
      }))
  follow target start br out_of_steps = answer out_of_rounds

  -- What a probe makes of a window.
  unfoldable pub decide : (target start : ℕ) → List ℕ → Bracket → Probe
  unfolding scan_window walk follow
  decide target start b br =
      let found = scan_window im.info b target (length b - 16) 0 none in
      elim found.anchor [
        | some (off, f) ↦ follow target start br (walk im.info b target (length b) off f)
        | none ↦ elim found.first_ge [
          | some (k, f) ↦
              if start == im.audio_start
              then answer (at (start + k) f.sample)
              else again (
                  clamp (record br {
                    hi = if ltb (start + k) br.hi then start + k else br.hi;
                    est = start + k - scaled (f.sample - target);
                  }))
          | none ↦ again (clamp (record br { est = middle br.lo br.hi }))
        ]
      ]

  unfoldable pub probes : ℕ → ℕ → Bracket → Boundary
  unfolding decide window_start
  probes zero target br = not_found
  probes (suc count) target br =
      let start = window_start im br.est in
      elim (read_at start window) [
        | none ↦ read_failed
        | some b ↦ elim (decide target start b br) [
          | answer r ↦ r
          | again next ↦ probes count target next
        ]
      ]

  -- `Boundary`
  unfoldable pub boundary : ℤ → Boundary
  unfolding probes
  boundary (negsuc n) = at im.audio_start 0
  boundary (pos zero) = at im.audio_start 0
  boundary (pos (suc n)) =
      let target = suc n in
      if leb im.info.total_samples target
      then at im.size im.info.total_samples
      else probes max_probes target
          (record { lo = im.audio_start; hi = im.size; est = im.audio_start + scaled target })
