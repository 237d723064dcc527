-- ===== src/Library/Paths/Syntax.antt =====
-- pathvalidation.go: what an accepted path is like, and how long it can be.
use tiramisu.Base.{
  ℕ, ◌+◌, ◌*◌, ◌≤◌, ◌<◌, ◌≡◌, ◌⊎◌, ◌↔◌, refl, true, sym, ◌∙◌, ap, inl, inr, Bool, false, ◌||◌, none,
  List, [], ◌∷◌, length, leb, ◌==◌, arith, Bool-cases, Option-cases,
}
use tiramisu.Base.Eq.{GoString, codes, str_eq}
use tiramisu.Audio.Cue.Text.{split, to_upper}
use tiramisu.Library.Paths.{
  bytes, any_bad, is_bad, has, forbidden_path_chars, ends_in, starts_in, is_reserved, before_period,
  reserved_device_names, validate_path_component, validate_components, validate_path_syntax,
}

-- No character up to U+001F, none from U+0080 to U+009F, and no forbidden one.
abbrev AllClean : GoString → Type 0
AllClean [] = Unit
AllClean (c ∷ s) =
    (31 < c) × ((c < 128) ⊎ (159 < c)) × (has c forbidden_path_chars ≡ false) × AllClean s

any_bad-AllClean : (s : GoString) → any_bad s ≡ false → AllClean s
unfolding any_bad is_bad
any_bad-AllClean [] h = tt
any_bad-AllClean (c ∷ s) h = (
  ground (arith, h),
  elim (Bool-cases (leb 128 c)) [
    | inl e ↦ inr (ground (arith, h, e))
    | inr e ↦ inl (ground (arith, e))
  ],
  ground (arith, h),
  any_bad-AllClean s (ground (arith, h)),
)

-- A name that no file system reads as anything but a visible file.
pub record IsPlain (component : GoString) : Type 0 where
  pub some_bytes : 1 ≤ length component
  pub short : bytes component ≤ 255
  pub ended : ends_in (λ c. (c == 46) || (c == 32)) component ≡ false
  pub visible : starts_in 46 component ≡ false
  pub clean : AllClean component
  pub free : is_reserved reserved_device_names (to_upper (before_period component)) ≡ false

abbrev pub AllPlain : List GoString → Type 0
AllPlain [] = Unit
AllPlain (c ∷ cs) = IsPlain c × AllPlain cs

component-IsPlain : (c : GoString) → validate_path_component c ≡ none → IsPlain c
unfolding validate_path_component
component-IsPlain c h = record {
  some_bytes = ground (arith, h);
  short = ground (arith, h);
  ended = ground (arith, h);
  visible = ground (arith, h);
  clean = any_bad-AllClean c (ground (arith, h));
  free = ground (arith, h);
}

components-AllPlain : (cs : List GoString) → validate_components cs ≡ none → AllPlain cs
unfolding validate_components
components-AllPlain [] h = tt
components-AllPlain (c ∷ cs) h = elim (Option-cases (validate_path_component c)) [
  | inl e ↦ (component-IsPlain c e, components-AllPlain cs (ground arith))
  | inr (x, e) ↦ absurd (ground arith)
]

AllClean-any_bad : (s : GoString) → AllClean s → any_bad s ≡ false
unfolding any_bad is_bad
AllClean-any_bad [] h = refl
AllClean-any_bad (c ∷ s) h = elim h.1 [
  | inl low ↦ ground (arith, h.0, low, h.2, AllClean-any_bad s h.3)
  | inr far ↦ ground (arith, h.0, far, h.2, AllClean-any_bad s h.3)
]

dots-start :
    (s : GoString) → (str_eq s (codes ".") || str_eq s (codes "..")) ≡ true → starts_in 46 s ≡ true
unfolding starts_in str_eq
dots-start [] h = absurd (cc h)
dots-start (c ∷ s) h = ground (arith, h)

IsPlain-component : (c : GoString) → IsPlain c → validate_path_component c ≡ none
unfolding validate_path_component
IsPlain-component c p = ground (
  arith,
  p.some_bytes,
  p.short,
  p.ended,
  p.visible,
  AllClean-any_bad c p.clean,
  p.free,
  dots-start c,
)

AllPlain-components : (cs : List GoString) → AllPlain cs → validate_components cs ≡ none
unfolding validate_components
AllPlain-components [] h = refl
AllPlain-components (c ∷ cs) h =
    rw (IsPlain-component c h.0, validate_components) (AllPlain-components cs h.1)

-- The bytes of the components, each with one for a separator.
abbrev with_separators : List GoString → ℕ
with_separators [] = 0
with_separators (c ∷ cs) = bytes c + 1 + with_separators cs

split_cases :
    (sep : ℕ) (s : GoString)
    → (first : GoString) × (rest : List GoString) × (split sep s ≡ first ∷ rest)
unfolding split
split_cases sep [] = ([], [], refl)
split_cases sep (c ∷ s) = elim (Bool-cases (c == sep)) [
  | inl e ↦ ([], split sep s, rw e refl)
  | inr e ↦ let (first, rest, q) = split_cases sep s in (c ∷ first, rest, rw (e, q) refl)
]

bytes-split : (s : GoString) → with_separators (split 47 s) ≡ bytes s + 1
unfolding split
bytes-split [] = refl
bytes-split (c ∷ s) = elim (Bool-cases (c == 47)) [
  | inl e ↦ rw e (ground (arith, bytes-split s))
  | inr e ↦
      let (first, rest, q) = split_cases 47 s in
      let before : bytes first + 1 + with_separators rest ≡ bytes s + 1 =
        ap with_separators (sym q) ∙ bytes-split s in
      rw (e, q) (omega (arith, before))
]

with_separators-le : (cs : List GoString) → AllPlain cs → with_separators cs ≤ 256 * length cs
with_separators-le [] h = omega arith
with_separators-le (c ∷ cs) h = omega (arith, h.0.short, with_separators-le cs h.1)

-- A path is accepted exactly if it is valid UTF-8, in the normal form, and has at most sixteen components, each
-- a visible name of at most 255 bytes that does not end in a period or a space, without a character up
-- to U+001F, one from U+0080 to U+009F or a forbidden one, and not a device name. Such a path has at most
-- 4095 bytes: the limit on the whole path refuses none that the limits on components would let pass.
pub validate_path_syntax-ok :
    (is_nfc : GoString → Bool) (is_utf8 : Bool) (path : GoString)
    → ((validate_path_syntax is_utf8 is_nfc path ≡ none) ↔ (
        (is_utf8 ≡ true)
        × (is_nfc path ≡ true)
        × (length (split 47 path) ≤ 16)
        × AllPlain (split 47 path)))
      × (length (split 47 path) ≤ 16 → AllPlain (split 47 path) → bytes path ≤ 4095)
unfolding validate_path_syntax
validate_path_syntax-ok is_nfc is_utf8 path = (
  (
    λ h. (
      ground (arith, h),
      ground (arith, h),
      ground (arith, h),
      components-AllPlain (split 47 path) (ground (arith, h)),
    ),
    λ (utf8, nfc, few, plain).
        ground (arith, utf8, nfc, few, small few plain, AllPlain-components (split 47 path) plain),
  ),
  small,
)
  where
    small : length (split 47 path) ≤ 16 → AllPlain (split 47 path) → bytes path ≤ 4095
    small few plain = omega (arith, few, with_separators-le (split 47 path) plain, bytes-split path)
