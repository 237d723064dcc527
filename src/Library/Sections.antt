-- ===== src/Library/Sections.antt =====
-- internal/library/audio.go: the sections of the library, their extensions, and the hash in a name. Go's
-- simple case folding of a character is an argument.
pub mod Stubs
use tiramisu.Base.{
  ℕ, ◌+◌, ◌-◌, ◌≡◌, Bool, true, false, not, ◌&&◌, ◌||◌, Option, none, some, List, [], ◌∷◌, length,
  drop, ltb, leb, ◌==◌, if◌then◌else◌,
}
use tiramisu.Base.Eq.{GoString, codes, str_eq}
use tiramisu.Audio.Cue.Lookup.{after_last_slash}

pub data Section : Type 0 where
  movies tv music audiobooks other : Section

unfoldable pub section_extensions : Section → List GoString
section_extensions movies = codes ".mkv" ∷ []
section_extensions tv = codes ".mkv" ∷ []
section_extensions music = codes ".flac" ∷ []
section_extensions audiobooks = codes ".m4b" ∷ codes ".m4a" ∷ codes ".mp3" ∷ []
section_extensions other = []

unfoldable pub section_for_type : GoString → Option Section
section_for_type t =
    if str_eq t (codes "movie")
    then some movies
    else if str_eq t (codes "tv")
    then some tv
    else if str_eq t (codes "music")
    then some music
    else if str_eq t (codes "audiobook")
    then some audiobooks
    else none

unfoldable pub is_audio_section : Section → Bool
is_audio_section music = true
is_audio_section audiobooks = true
is_audio_section _ = false

-- In front of the last period, and from it on.
unfoldable pub cut_last_period : GoString → Option (GoString × GoString)
cut_last_period [] = none
cut_last_period (c ∷ s) = elim (cut_last_period s) [
  | some (a, b) ↦ some (c ∷ a, b)
  | none ↦ if c == 46 then some ([], c ∷ s) else none
]

unfoldable pub split_stub : GoString → Option (GoString × GoString)
unfolding cut_last_period
split_stub name = elim (cut_last_period (after_last_slash name)) [
  | none ↦ none
  | some (stem, ext) ↦ if (length stem == 0) || (length ext == 1) then none else some (stem, ext)
]

-- `strings.ToLower` as far as a comparison with a text of ASCII characters can tell: the characters outside
-- ASCII with a lower case inside are the capital i with a dot and the Kelvin sign.
abbrev lower : ℕ → ℕ
lower c =
    if leb 65 c && leb c 90 then c + 32 else if c == 304 then 105 else if c == 8490 then 107 else c

unfoldable pub to_lower : GoString → GoString
to_lower [] = []
to_lower (c ∷ s) = lower c ∷ to_lower s

unfoldable pub admits : List GoString → GoString → Bool
admits [] ext = false
admits (allowed ∷ rest) ext = str_eq ext allowed || admits rest ext

unfoldable pub section_admits : Section → GoString → Bool
unfolding admits section_extensions
section_admits s ext = admits (section_extensions s) ext

unfoldable pub extension_allowed : Section → GoString → Bool
unfolding section_admits split_stub to_lower
extension_allowed s name = elim (split_stub name) [
  | none ↦ false
  | some (stem, ext) ↦ section_admits s (to_lower ext)
]

unfoldable pub starts_with_dot : GoString → Bool
starts_with_dot [] = false
starts_with_dot (c ∷ s) = c == 46

unfoldable pub is_virtual_stub : Section → GoString → Bool
unfolding section_admits split_stub to_lower is_audio_section starts_with_dot
is_virtual_stub s name = elim (split_stub name) [
  | none ↦ false
  | some (stem, ext) ↦
      if not (is_audio_section s)
      then section_admits s ext
      else if starts_with_dot stem
      then false
      else section_admits s (to_lower ext)
]

abbrev is_hex : ℕ → Bool
is_hex c = (leb 48 c && leb c 57) || ((leb 97 c && leb c 102) || (leb 65 c && leb c 70))

unfoldable pub all_hex : GoString → Bool
all_hex [] = true
all_hex (c ∷ s) = is_hex c && all_hex s

unfoldable pub hash_suffix_token : GoString → Option GoString
unfolding all_hex to_lower
hash_suffix_token hash =
    if not (length hash == 40) || not (all_hex hash) then none else some (to_lower (drop 32 hash))

module _ (fold : ℕ → ℕ) where
  unfoldable pub equal_fold : GoString → GoString → Bool
  equal_fold s t = str_eq (tiramisu.Base.map fold s) (tiramisu.Base.map fold t)

  unfoldable pub extensions_agree : GoString → GoString → Bool
  unfolding equal_fold
  extensions_agree source virtual = elim (split_stub source) [
    | none ↦ false
    | some (_, ext) ↦ elim (split_stub virtual) [
      | none ↦ false
      | some (_, ext') ↦ equal_fold ext ext'
    ]
  ]

  unfoldable pub has_hash_suffix : GoString → GoString → Bool
  unfolding equal_fold
  has_hash_suffix name hash = elim (hash_suffix_token hash) [
    | none ↦ false
    | some token ↦ elim (split_stub name) [
      | none ↦ false
      | some (stem, _) ↦ elim (drop (length stem - length token - 1) stem) [
        | [] ↦ false
        | c ∷ rest ↦ leb (length token + 1) (length stem) && ((c == 95) && equal_fold rest token)
      ]
    ]
  ]
