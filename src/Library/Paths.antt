-- ===== src/Library/Paths.antt =====
-- internal/library/pathvalidation.go: the syntax of a destination path. A path is its characters, with the
-- bytes that each takes in UTF-8; whether its bytes are valid UTF-8 at all is an argument, and so is
-- the test for the normal form, which a package for Unicode makes.
pub mod Syntax
use tiramisu.Base.{
  ℕ, ◌+◌, ◌≡◌, Bool, true, false, not, ◌&&◌, ◌||◌, Option, none, some, List, [], ◌∷◌, length, ltb,
  leb, ◌==◌, if◌then◌else◌,
}
use tiramisu.Base.Eq.{GoString, codes, str_eq}
use tiramisu.Audio.Cue.Text.{split, to_upper}

abbrev pub max_path_components : ℕ
max_path_components = 16

abbrev pub max_component_bytes : ℕ
max_component_bytes = 255

abbrev pub max_path_bytes : ℕ
max_path_bytes = 4096

-- The bytes of a character in UTF-8, and of a string.
abbrev pub width : ℕ → ℕ
width c = if ltb c 128 then 1 else if ltb c 2048 then 2 else if ltb c 65536 then 3 else 4

abbrev pub bytes : GoString → ℕ
bytes [] = 0
bytes (c ∷ s) = width c + bytes s

unfoldable pub has : ℕ → GoString → Bool
has c [] = false
has c (d ∷ s) = (c == d) || has c s

abbrev forbidden_path_chars : GoString
forbidden_path_chars = codes "\\:*?\"<>|"

unfoldable pub is_reserved : List GoString → GoString → Bool
is_reserved [] name = false
is_reserved (r ∷ rs) name = str_eq r name || is_reserved rs name

abbrev pub reserved_device_names : List GoString
reserved_device_names =
    codes "CON"
    ∷ codes "PRN"
    ∷ codes "AUX"
    ∷ codes "NUL"
    ∷ codes "COM1"
    ∷ codes "COM2"
    ∷ codes "COM3"
    ∷ codes "COM4"
    ∷ codes "COM5"
    ∷ codes "COM6"
    ∷ codes "COM7"
    ∷ codes "COM8"
    ∷ codes "COM9"
    ∷ codes "LPT1"
    ∷ codes "LPT2"
    ∷ codes "LPT3"
    ∷ codes "LPT4"
    ∷ codes "LPT5"
    ∷ codes "LPT6"
    ∷ codes "LPT7"
    ∷ codes "LPT8"
    ∷ codes "LPT9"
    ∷ []

pub data PathError : Type 0 where
  not_utf8 path_too_long not_normal too_many_components : PathError
  empty_component component_too_long traverses starts_with_period ends_badly : PathError
  bad_character : PathError
  reserved_name : PathError

-- A control character, or a forbidden one.
unfoldable pub is_bad : ℕ → Bool
unfolding has
is_bad r = leb r 31 || ((leb 128 r && leb r 159) || has r forbidden_path_chars)

unfoldable pub any_bad : GoString → Bool
unfolding is_bad
any_bad [] = false
any_bad (r ∷ s) = is_bad r || any_bad s

-- What is in front of the first period.
unfoldable pub before_period : GoString → GoString
before_period [] = []
before_period (c ∷ s) = if c == 46 then [] else c ∷ before_period s

unfoldable pub ends_in : (ℕ → Bool) → GoString → Bool
ends_in test [] = false
ends_in test (c ∷ s) = elim s [ [] ↦ test c | _ ∷ _ ↦ ends_in test s ]

unfoldable pub starts_in : ℕ → GoString → Bool
starts_in d [] = false
starts_in d (c ∷ s) = c == d

-- `validatePathComponent`; none is a component that is accepted.
unfoldable pub validate_path_component : GoString → Option PathError
unfolding any_bad before_period ends_in starts_in is_reserved
validate_path_component component =
    if length component == 0
    then some empty_component
    else if ltb max_component_bytes (bytes component)
    then some component_too_long
    else if str_eq component (codes ".") || str_eq component (codes "..")
    then some traverses
    else if starts_in 46 component
    then some starts_with_period
    else if ends_in (λ c. (c == 46) || (c == 32)) component
    then some ends_badly
    else if any_bad component
    then some bad_character
    else if is_reserved reserved_device_names (to_upper (before_period component))
    then some reserved_name
    else none

unfoldable pub validate_components : List GoString → Option PathError
unfolding validate_path_component
validate_components [] = none
validate_components (c ∷ cs) = elim (validate_path_component c) [
  | some e ↦ some e
  | none ↦ validate_components cs
]

-- `validatePathSyntax`
unfoldable pub validate_path_syntax : Bool → (GoString → Bool) → GoString → Option PathError
unfolding validate_components
validate_path_syntax is_utf8 is_nfc path =
    if not is_utf8
    then some not_utf8
    else if ltb max_path_bytes (bytes path)
    then some path_too_long
    else if not (is_nfc path)
    then some not_normal
    else if ltb max_path_components (length (split 47 path))
    then some too_many_components
    else validate_components (split 47 path)
