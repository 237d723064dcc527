-- ===== src/Tests/Library.antt =====
-- idempotency.go: planning at a concrete registry, which holds one row; keys are the paths themselves.
-- pathvalidation.go: the syntax of paths.
use tiramisu.Base.{◌≤◌, ◌↔◌, true, ◌≡◌, refl, none, some, List, [], ◌∷◌, length, if◌then◌else◌}
use tiramisu.Base.Eq.{GoString, codes, str_eq, string_eq}
use tiramisu.Base.GoMap.{lookup, insert}
use tiramisu.Base.Int.{pos}
use tiramisu.Library.Idempotency.{
  AudioProjection, ResolvedSource, AudioFileRequest, not_found, found, committed,
  AudioProjectionLookup, present, created, AudioProjectionPlan, ok, zip, source_key,
  classify_audio_projection, same_content, plan_from, plan_audio_projections,
}
use tiramisu.Audio.Cue.Text.{split, to_upper}
use tiramisu.Library.Paths.{
  bytes, reserved_name, is_bad, any_bad, has, ends_in, starts_in, is_reserved, before_period,
  validate_path_component, validate_components, validate_path_syntax,
}
use tiramisu.Library.Paths.Syntax.{AllPlain, validate_path_syntax-ok}
use tiramisu.Base.Distinct.{Distinct}
use tiramisu.Library.Idempotency.Rounds.{AllFit}
use tiramisu.Library.Idempotency.Planning.{path_key, plan_audio_projections-ok}

abbrev row : AudioProjection
row = record {
  virtual_path = codes "a.flac";
  hash = codes "h";
  file_index = pos 1;
  cue_track = pos 0;
  source_path = codes "1.flac";
  size = pos 70;
  state = committed;
}

abbrev registry : AudioProjectionLookup
registry = record {
  get_audio_projection =
      λ section path. if str_eq path (codes "a.flac") then found row else not_found;
  audio_projection_by_source = λ hash index track. not_found;
  audio_projection_by_portable_key = λ section key. not_found;
}

abbrev requests : List AudioFileRequest
requests =
    record { path = codes "a.flac"; cue_track = pos 0 }
    ∷ record { path = codes "b.flac"; cue_track = pos 0 }
    ∷ []

abbrev sources : List ResolvedSource
sources =
    record { source_path = codes "1.flac"; file_index = pos 1; size = pos 70 }
    ∷ record { source_path = codes "2.flac"; file_index = pos 2; size = pos 80 }
    ∷ []

abbrev plans : List AudioProjectionPlan
plans =
    record {
      virtual_path = codes "a.flac";
      source = record { source_path = codes "1.flac"; file_index = pos 1; size = pos 70 };
      status = present;
      existing = some row;
    }
    ∷ record {
      virtual_path = codes "b.flac";
      source = record { source_path = codes "2.flac"; file_index = pos 2; size = pos 80 };
      status = created;
      existing = none;
    }
    ∷ []

mixed_album :
    plan_audio_projections (λ path. path) registry (codes "music") (codes "h") requests sources
    ≡ ok plans
unfolding plan_audio_projections plan_from classify_audio_projection same_content lookup insert
    str_eq
mixed_album = refl

plan_audio_projections-ok_example :
    (length requests ≡ length sources)
    × AllFit (λ path. path) registry (codes "music") (codes "h") (zip requests sources) plans
    × Distinct (path_key (λ path. path) registry (codes "music") (codes "h")) (zip requests sources)
    × Distinct source_key (zip requests sources)
plan_audio_projections-ok_example =
    plan_audio_projections-ok (λ path. path) registry (codes "music") (codes "h") requests sources
      plans mixed_album

abbrev song : GoString
song = codes "Artist/Album/01 Song_deadbeef.flac"

song_accepted : validate_path_syntax true (λ path. true) song ≡ none
unfolding validate_path_syntax validate_components validate_path_component split any_bad is_bad has
    ends_in starts_in is_reserved before_period to_upper str_eq
song_accepted = refl

-- A device name with an extension.
device_refused :
    validate_path_syntax true (λ path. true) (codes "Album/nul.flac") ≡ some reserved_name
unfolding validate_path_syntax validate_components validate_path_component split any_bad is_bad has
    ends_in starts_in is_reserved before_period to_upper str_eq
device_refused = refl

validate_path_syntax-ok_example :
    ((validate_path_syntax true (λ path. true) song ≡ none)
      ↔ ((true ≡ true) × (true ≡ true) × (length (split 47 song) ≤ 16) × AllPlain (split 47 song)))
    × (length (split 47 song) ≤ 16 → AllPlain (split 47 song) → bytes song ≤ 4095)
validate_path_syntax-ok_example = validate_path_syntax-ok (λ path. true) true song
