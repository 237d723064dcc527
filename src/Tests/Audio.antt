-- ===== src/Tests/Audio.antt =====
-- cue.go: the parser at concrete inputs.
use tiramisu.Base.{◌+◌, leb, ◌&&◌, if◌then◌else◌, ◌≡◌, ◌≢◌, refl, none, some, [], ◌∷◌, ◌++◌}
use tiramisu.Base.Eq.{GoString, codes, str_eq}
use tiramisu.Base.Int.{pos}
use tiramisu.Audio.Cue.{
  Sheet, ok, parse, parse_lines, parse_line, command, on_file_command, on_track_command,
  on_title_command, on_performer_command, on_index_command, on_track, on_file, check_sheet,
  check_files, check_tracks,
}
use tiramisu.Audio.Cue.Text.{
  split, trim_space, trim_left, trim_right, trim_return, to_upper, parse_int, decimal, parse_time,
  split_command, fields, cut_at,
}
use tiramisu.Audio.Cue.Starts.{EachFile, Numbered, Growing, parse-ok}
use tiramisu.Audio.Cue.Lookup.{
  base_name, stem, file_for, first_match, path_base, to_slashes, trim_slashes, after_last_slash,
  no_slash, before_ext,
}

abbrev text : GoString
text =
    codes "FILE \"a.wav\" WAVE"
    ++ (10 ∷ (codes " track 01 AUDIO" ++ (10 ∷ (codes "INDEX 01 00:02:37" ++ (13 ∷ 10 ∷ [])))))

abbrev album : Sheet
album = record {
  title = [];
  performer = [];
  files =
      record {
        name = codes "a.wav";
        tracks = record { number = pos 1; title = []; performer = []; start = pos 187 } ∷ [];
      }
      ∷ [];
}

parse-text : parse text ≡ ok album
unfolding parse parse_lines parse_line command on_file_command on_track_command on_title_command
    on_performer_command on_index_command on_track on_file check_sheet check_files check_tracks
    split trim_space trim_left trim_right trim_return to_upper parse_int decimal parse_time
    split_command fields cut_at str_eq
parse-text = refl

parse-ok_example :
    (album.files ≢ []) × EachFile Numbered album.files × EachFile (Growing none) album.files
parse-ok_example = parse-ok text album parse-text

-- The lower case of ASCII letters, for the runs.
abbrev ascii_lower : GoString → GoString
ascii_lower [] = []
ascii_lower (c ∷ s) = (if leb 65 c && leb c 90 then c + 32 else c) ∷ ascii_lower s

abbrev name : GoString
name = codes "Disc\\A.FLAC"

-- The sheet names the file before it was encoded.
found_flac : elim (file_for ascii_lower name album) [ none ↦ [] | some f ↦ f.name ] ≡ codes "a.wav"
unfolding file_for first_match base_name stem path_base to_slashes trim_slashes after_last_slash
    no_slash before_ext str_eq
found_flac = refl
