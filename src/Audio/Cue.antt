-- ===== src/Audio/Cue.antt =====
-- internal/audio/cue/cue.go: the parser of cue sheets, from the decoded text on. A file or track pointer of
-- the source always leads to the last file, or to its last track; it is a flag that says whether it is nil.
-- Track numbers and starts are int64.
pub mod Text
pub mod Fields
pub mod Starts
pub mod Lookup
use tiramisu.Base.{
  ℕ, zero, suc, ◌+◌, ◌≤◌, Bool, true, false, not, ◌&&◌, ◌||◌, Option, none, some, List, [], ◌∷◌,
  ◌++◌, length, ltb, leb, ◌==◌, if◌then◌else◌,
}
use tiramisu.Base.Eq.{GoString, codes, str_eq}
use tiramisu.Base.Int.{ℤ, pos, negsuc, ltb_ℤ, leb_ℤ, eq_ℤ}
use tiramisu.Audio.Cue.Text.{
  trim_space, trim_return, to_upper, split, parse_int, split_command, parse_time,
}

pub record Track : Type 0 where
  pub number : ℤ
  pub title : GoString
  pub performer : GoString
  pub start : ℤ

pub record File : Type 0 where
  pub name : GoString
  pub tracks : List Track

pub record Sheet : Type 0 where
  pub title : GoString
  pub performer : GoString
  pub files : List File

-- The errors, with the line or the track that they name.
pub data CueError : Type 0 where
  file_without_name track_outside_file bad_track_number bad_time : ℕ → CueError
  no_file : CueError
  no_index : ℤ → CueError
  not_after : ℤ → ℤ → CueError

pub data Parsed (A : Type 0) : Type 0 where
  ok : A → Parsed A
  failed : CueError → Parsed A

-- The sheet so far, and whether `file` and `track` are set.
pub record Parser : Type 0 where
  pub sheet : Sheet
  pub file : Bool
  pub track : Bool

abbrev pub on_last {ℓ} : {A : Type ℓ} → (A → A) → List A → List A
on_last f [] = []
on_last f (x ∷ []) = f x ∷ []
on_last f (x ∷ y ∷ l) = x ∷ on_last f (y ∷ l)

-- A write through `file`, and one through `track`.
unfoldable pub on_file : (File → File) → Parser → Parser
on_file f p = record p { sheet = record p.sheet { files = on_last f p.sheet.files } }

unfoldable pub on_track : (Track → Track) → Parser → Parser
unfolding on_file
on_track f p = on_file (λ file. record file { tracks = on_last f file.tracks }) p

abbrev pub with_track : ℤ → File → File
with_track number file = record file {
  tracks =
      file.tracks
      ++ (record { number = number; title = []; performer = []; start = negsuc 0 } ∷ []);
}

-- The cases of the switch.
unfoldable pub on_file_command : List GoString → ℕ → Parser → Parsed Parser
on_file_command [] n p = failed (file_without_name n)
on_file_command (name ∷ args) n p = ok record {
  sheet = record p.sheet { files = p.sheet.files ++ (record { name = name; tracks = [] } ∷ []) };
  file = true;
  track = false;
}

unfoldable pub on_track_command : List GoString → ℕ → Parser → Parsed Parser
unfolding on_file
on_track_command [] n p = failed (track_outside_file n)
on_track_command (arg ∷ args) n p =
    if not p.file then failed (track_outside_file n) else (elim (parse_int arg) [
      | none ↦ failed (bad_track_number n)
      | some number ↦
          if leb_ℤ number (pos 0)
          then failed (bad_track_number n)
          else ok (record (on_file (with_track number) p) { track = true })
    ])

unfoldable pub on_title_command : List GoString → Parser → Parser
unfolding on_track
on_title_command [] p = p
on_title_command (arg ∷ args) p =
    if p.track
    then on_track (λ t. record t { title = arg }) p
    else if not p.file
    then record p { sheet = record p.sheet { title = arg } }
    else p

unfoldable pub on_performer_command : List GoString → Parser → Parser
unfolding on_track
on_performer_command [] p = p
on_performer_command (arg ∷ args) p =
    if p.track
    then on_track (λ t. record t { performer = arg }) p
    else if not p.file
    then record p { sheet = record p.sheet { performer = arg } }
    else p

unfoldable pub on_index_command : List GoString → ℕ → Parser → Parsed Parser
unfolding on_track
on_index_command (index ∷ time ∷ args) n p = if not p.track then ok p else (elim (parse_int index) [
  | none ↦ ok p
  | some i ↦ if not (eq_ℤ i (pos 1)) then ok p else (elim (parse_time time) [
    | none ↦ failed (bad_time n)
    | some frames ↦ ok (on_track (λ t. record t { start = frames }) p)
  ])
])
on_index_command _ n p = ok p

unfoldable pub command : GoString → List GoString → ℕ → Parser → Parsed Parser
unfolding on_file_command on_track_command on_title_command on_performer_command on_index_command
command cmd args n p =
    if str_eq cmd (codes "FILE")
    then on_file_command args n p
    else if str_eq cmd (codes "TRACK")
    then on_track_command args n p
    else if str_eq cmd (codes "TITLE")
    then ok (on_title_command args p)
    else if str_eq cmd (codes "PERFORMER")
    then ok (on_performer_command args p)
    else if str_eq cmd (codes "INDEX")
    then on_index_command args n p
    else ok p

-- One line of the loop.
unfoldable pub parse_line : GoString → ℕ → Parser → Parsed Parser
unfolding command
parse_line raw n p = elim (trim_space (trim_return raw)) [
  | [] ↦ ok p
  | c ∷ s ↦ let (cmd, args) = split_command (c ∷ s) in command (to_upper cmd) args n p
]

-- The loop over the lines, numbered from one.
unfoldable pub parse_lines : ℕ → List GoString → Parser → Parsed Parser
unfolding parse_line
parse_lines n [] p = ok p
parse_lines n (raw ∷ lines) p = elim (parse_line raw n p) [
  | failed e ↦ failed e
  | ok p' ↦ parse_lines (n + 1) lines p'
]

-- The checks at the end: of the tracks of one file, and of all files.
unfoldable pub check_tracks : Option Track → List Track → Option CueError
check_tracks before [] = none
check_tracks before (t ∷ ts) =
    let rest = check_tracks (some t) ts in
    if ltb_ℤ t.start (pos 0) then some (no_index t.number) else (elim before [
      | none ↦ rest
      | some b ↦ if leb_ℤ t.start b.start then some (not_after t.number b.number) else rest
    ])

unfoldable pub check_files : List File → Option CueError
unfolding check_tracks
check_files [] = none
check_files (f ∷ fs) = elim (check_tracks none f.tracks) [ some e ↦ some e | none ↦ check_files fs ]

abbrev pub start_parser : Parser
start_parser = record {
  sheet = record { title = []; performer = []; files = [] };
  file = false;
  track = false;
}

unfoldable pub check_sheet : Sheet → Parsed Sheet
unfolding check_files
check_sheet sheet = elim sheet.files [
  | [] ↦ failed no_file
  | _ ∷ _ ↦ elim (check_files sheet.files) [ some e ↦ failed e | none ↦ ok sheet ]
]

-- `Parse` after `Decode`.
unfoldable pub parse : GoString → Parsed Sheet
unfolding parse_lines check_sheet
parse text = elim (parse_lines 1 (split 10 text) start_parser) [
  | failed e ↦ failed e
  | ok p ↦ check_sheet p.sheet
]
