-- ===== src/Audio/Cue/Starts.antt =====
-- cue.go: what a sheet that parses is like.
use tiramisu.Base.{
  ℕ, ◌+◌, ◌≡◌, ◌≢◌, refl, sym, ◌∙◌, ap, ◌⊎◌, inl, inr, Bool, true, false, not, Option, none, some,
  List, [], ◌∷◌, ◌++◌, if◌then◌else◌, arith, Option-cases,
}
use mathlib.Core.Path.{subst}
use tiramisu.Base.Eq.{GoString, codes, str_eq}
use tiramisu.Base.Int.{pos, ltb_ℤ, leb_ℤ, eq_ℤ}
use tiramisu.Audio.Cue.{
  Track, File, Sheet, CueError, Parsed, ok, failed, Parser, on_last, on_file, on_track, with_track,
  on_file_command, on_track_command, on_title_command, on_performer_command, on_index_command,
  command, parse_line, parse_lines, check_tracks, check_files, check_sheet, parse, start_parser,
}
use tiramisu.Audio.Cue.Text.{parse_int, parse_time, trim_space, trim_return, split}

-- The start comes after the one of the track before.
abbrev pub After : Option Track → Track → Type 0
After none t = Unit
After (some b) t = leb_ℤ t.start b.start ≡ false

-- Starts from zero on, each after the one before.
abbrev pub Growing : Option Track → List Track → Type 0
Growing before [] = Unit
Growing before (t ∷ ts) = (ltb_ℤ t.start (pos 0) ≡ false) × After before t × Growing (some t) ts

abbrev pub Numbered : List Track → Type 0
Numbered [] = Unit
Numbered (t ∷ ts) = (leb_ℤ t.number (pos 0) ≡ false) × Numbered ts

abbrev pub EachFile {ℓ} : (List Track → Type ℓ) → List File → Type ℓ
EachFile P [] = Unit
EachFile P (f ∷ fs) = P f.tracks × EachFile P fs

check_tracks-Growing :
    (before : Option Track) (ts : List Track) → check_tracks before ts ≡ none → Growing before ts
unfolding check_tracks
check_tracks-Growing before [] h = tt
check_tracks-Growing none (t ∷ ts) h = ground (arith, check_tracks-Growing (some t) ts)
check_tracks-Growing (some b) (t ∷ ts) h = ground (arith, check_tracks-Growing (some t) ts)

check_files-Growing : (fs : List File) → check_files fs ≡ none → EachFile (Growing none) fs
unfolding check_files
check_files-Growing [] h = tt
check_files-Growing (f ∷ fs) h = elim (Option-cases (check_tracks none f.tracks)) [
  | inl e ↦ (check_tracks-Growing none f.tracks e, check_files-Growing fs (ground (arith, h)))
  | inr (x, e) ↦ absurd (ground arith)
]

on_last-Numbered :
    (f : Track → Track) (ts : List Track)
    → ((t : Track) → (f t).number ≡ t.number)
    → Numbered ts
    → Numbered (on_last f ts)
on_last-Numbered f [] same h = tt
on_last-Numbered f (t ∷ []) same h = (ap (λ n. leb_ℤ n (pos 0)) (same t) ∙ h.0, tt)
on_last-Numbered f (t ∷ u ∷ ts) same h = (h.0, on_last-Numbered f (u ∷ ts) same h.1)

append-Numbered :
    (t : Track) (ts : List Track)
    → leb_ℤ t.number (pos 0) ≡ false
    → Numbered ts
    → Numbered (ts ++ (t ∷ []))
append-Numbered t [] p h = (p, tt)
append-Numbered t (u ∷ ts) p h = (h.0, append-Numbered t ts p h.1)

on_last-EachFile :
    (f : File → File) (fs : List File)
    → ((file : File) → Numbered file.tracks → Numbered (f file).tracks)
    → EachFile Numbered fs
    → EachFile Numbered (on_last f fs)
on_last-EachFile f [] keeps h = tt
on_last-EachFile f (x ∷ []) keeps h = (keeps x h.0, tt)
on_last-EachFile f (x ∷ y ∷ fs) keeps h = (h.0, on_last-EachFile f (y ∷ fs) keeps h.1)

append-EachFile :
    (name : GoString) (fs : List File)
    → EachFile Numbered fs
    → EachFile Numbered (fs ++ (record { name = name; tracks = [] } ∷ []))
append-EachFile name [] h = (tt, tt)
append-EachFile name (f ∷ fs) h = (h.0, append-EachFile name fs h.1)

-- Every track that was taken has a positive number.
abbrev Good : Parser → Type 0
Good p = EachFile Numbered p.sheet.files

abbrev GoodResult : Parsed Parser → Type 0
GoodResult (ok p) = Good p
GoodResult (failed e) = Unit

either {ℓ ℓ'} :
    {A : Type ℓ} (P : A → Type ℓ') (b : Bool) {x y : A}
    → P x
    → (b ≡ false → P y)
    → P (if b then x else y)
either P true p q = p
either P false p q = q refl

on_track-Good :
    (f : Track → Track) (p : Parser)
    → ((t : Track) → (f t).number ≡ t.number)
    → Good p
    → Good (on_track f p)
unfolding on_track on_file
on_track-Good f p same g =
    on_last-EachFile _ p.sheet.files (λ file h. on_last-Numbered f file.tracks same h) g

track_command-Good :
    (args : List GoString) (n : ℕ) (p : Parser) → Good p → GoodResult (on_track_command args n p)
unfolding on_track_command on_file
track_command-Good [] n p g = tt
track_command-Good (arg ∷ args) n p g = either GoodResult (not p.file) tt (λ _.
    elim (Option-cases (parse_int arg)) [
      | inl e ↦ rw e tt
      | inr (number, e) ↦ rw e (
          either GoodResult (leb_ℤ number (pos 0)) tt (λ is_positive.
            on_last-EachFile (with_track number) p.sheet.files
              (λ file h. append-Numbered _ file.tracks is_positive h) g))
    ])

title_command-Good : (args : List GoString) (p : Parser) → Good p → Good (on_title_command args p)
unfolding on_title_command
title_command-Good [] p g = g
title_command-Good (arg ∷ args) p g =
    either Good p.track (on_track-Good _ p (λ t. refl) g) (λ _. either Good (not p.file) g (λ _. g))

performer_command-Good :
    (args : List GoString) (p : Parser) → Good p → Good (on_performer_command args p)
unfolding on_performer_command
performer_command-Good [] p g = g
performer_command-Good (arg ∷ args) p g =
    either Good p.track (on_track-Good _ p (λ t. refl) g) (λ _. either Good (not p.file) g (λ _. g))

index_command-Good :
    (args : List GoString) (n : ℕ) (p : Parser) → Good p → GoodResult (on_index_command args n p)
unfolding on_index_command
index_command-Good [] n p g = g
index_command-Good (index ∷ []) n p g = g
index_command-Good (index ∷ time ∷ args) n p g = either GoodResult (not p.track) g (λ _.
    elim (Option-cases (parse_int index)) [
      | inl e ↦ rw e g
      | inr (i, e) ↦ rw e (
          either GoodResult (not (eq_ℤ i (pos 1))) g (λ _. elim (Option-cases (parse_time time)) [
            | inl d ↦ rw d tt
            | inr (frames, d) ↦ rw d (on_track-Good _ p (λ t. refl) g)
          ]))
    ])

file_command-Good :
    (args : List GoString) (n : ℕ) (p : Parser) → Good p → GoodResult (on_file_command args n p)
unfolding on_file_command
file_command-Good [] n p g = tt
file_command-Good (name ∷ args) n p g = append-EachFile name p.sheet.files g

command-Good :
    (cmd : GoString) (args : List GoString) (n : ℕ) (p : Parser)
    → Good p
    → GoodResult (command cmd args n p)
unfolding command
command-Good cmd args n p g =
    either GoodResult (str_eq cmd (codes "FILE")) (file_command-Good args n p g) (λ _.
      either GoodResult (str_eq cmd (codes "TRACK")) (track_command-Good args n p g) (λ _.
        either GoodResult (str_eq cmd (codes "TITLE")) (title_command-Good args p g) (λ _.
          either GoodResult (str_eq cmd (codes "PERFORMER")) (performer_command-Good args p g) (λ _.
            either GoodResult (str_eq cmd (codes "INDEX")) (index_command-Good args n p g)
              (λ _. g)))))

list_cases {ℓ} : {A : Type ℓ} (s : List A) → (s ≡ []) ⊎ ((c : A) × (t : List A) × (s ≡ c ∷ t))
list_cases [] = inl refl
list_cases (c ∷ t) = inr (c, t, refl)

parse_line-Good : (raw : GoString) (n : ℕ) (p : Parser) → Good p → GoodResult (parse_line raw n p)
unfolding parse_line
parse_line-Good raw n p g = elim (list_cases (trim_space (trim_return raw))) [
  | inl e ↦ rw (e, GoodResult) g
  | inr (c, s, e) ↦ rw (e, GoodResult) (command-Good _ _ n p g)
]

result_cases : (r : Parsed Parser) → ((e : CueError) × (r ≡ failed e)) ⊎ ((p : Parser) × (r ≡ ok p))
result_cases (failed e) = inl (e, refl)
result_cases (ok p) = inr (p, refl)

parse_lines-Good :
    (n : ℕ) (lines : List GoString) (p : Parser) → Good p → GoodResult (parse_lines n lines p)
unfolding parse_lines
parse_lines-Good n [] p g = g
parse_lines-Good n (raw ∷ lines) p g = elim (result_cases (parse_line raw n p)) [
  | inl (x, e) ↦ rw (e, GoodResult) tt
  | inr (q, e) ↦
      rw (e, GoodResult)
        (parse_lines-Good (n + 1) lines q (subst GoodResult e (parse_line-Good raw n p g)))
]

check_sheet-ok :
    (sheet sheet' : Sheet)
    → check_sheet sheet ≡ ok sheet'
    → (sheet' ≡ sheet) × (sheet.files ≢ []) × EachFile (Growing none) sheet.files
unfolding check_sheet
check_sheet-ok sheet sheet' h = elim (list_cases sheet.files) [
  | inl e ↦ absurd (ground (arith, e))
  | inr (f, fs, e) ↦ elim (Option-cases (check_files sheet.files)) [
    | inl good ↦ (ground arith, λ z. ground arith, check_files-Growing sheet.files good)
    | inr (x, bad) ↦ absurd (ground arith)
  ]
]

-- A sheet that parses has a file; in each of its files the tracks have positive numbers and start
-- at zero or later, each after the one before it.
pub parse-ok :
    (text : GoString) (sheet : Sheet)
    → parse text ≡ ok sheet
    → (sheet.files ≢ []) × EachFile Numbered sheet.files × EachFile (Growing none) sheet.files
unfolding parse
parse-ok text sheet h = elim (result_cases (parse_lines 1 (split 10 text) start_parser)) [
  | inl (x, e) ↦ absurd (ground arith)
  | inr (p, e) ↦
      let (same, some_file, growing) = check_sheet-ok p.sheet sheet (ground arith) in
      let numbered = subst GoodResult e (parse_lines-Good 1 (split 10 text) start_parser tt) in
      subst (λ s. (s.files ≢ []) × EachFile Numbered s.files × EachFile (Growing none) s.files)
        (sym same) (some_file, numbered, growing)
]
