-- ===== src/Audio/Cue/Text.antt =====
-- internal/audio/cue/cue.go: the parser's work on the characters of a line, with what it uses of Go's
-- `strings` and `strconv`.
use tiramisu.Base.{
  ℕ, zero, suc, ◌+◌, ◌-◌, ◌*◌, ◌%◌, ◌^◌, Bool, true, ◌&&◌, ◌||◌, Option, none, some, List, [], ◌∷◌,
  length, ltb, leb, ◌==◌, if◌then◌else◌,
}
use tiramisu.Base.Eq.{GoString}
use tiramisu.Base.Int.{ℤ, pos, negsuc}

-- `unicode.IsSpace`
abbrev pub is_space : ℕ → Bool
is_space c =
    (leb 9 c && leb c 13)
    || (c == 32)
    || (c == 133)
    || (c == 160)
    || (c == 5760)
    || (leb 8192 c && leb c 8202)
    || (c == 8232)
    || (c == 8233)
    || (c == 8239)
    || (c == 8287)
    || (c == 12288)

-- A space or a tab.
abbrev pub is_blank : ℕ → Bool
is_blank c = (c == 32) || (c == 9)

unfoldable pub trim_left : (ℕ → Bool) → GoString → GoString
trim_left test [] = []
trim_left test (c ∷ s) = if test c then trim_left test s else c ∷ s

abbrev cons_unless : Bool → ℕ → GoString → GoString
cons_unless true c [] = []
cons_unless _ c s = c ∷ s

unfoldable pub trim_right : (ℕ → Bool) → GoString → GoString
trim_right test [] = []
trim_right test (c ∷ s) = cons_unless (test c) c (trim_right test s)

unfoldable pub trim_space : GoString → GoString
unfolding trim_left trim_right
trim_space s = trim_left is_space (trim_right is_space s)

-- `strings.TrimSuffix` of one carriage return.
unfoldable pub trim_return : GoString → GoString
trim_return [] = []
trim_return (c ∷ s) = elim s [ [] ↦ (if c == 13 then [] else c ∷ []) | _ ∷ _ ↦ c ∷ trim_return s ]

-- `strings.ToUpper` as far as a comparison with a word of ASCII letters can tell: the two characters
-- outside ASCII with an upper case inside are the dotless i and the long s.
abbrev upper : ℕ → ℕ
upper c =
    if leb 97 c && leb c 122 then c - 32 else if c == 305 then 73 else if c == 383 then 83 else c

unfoldable pub to_upper : GoString → GoString
to_upper [] = []
to_upper (c ∷ s) = upper c ∷ to_upper s

abbrev onto_first : ℕ → List GoString → List GoString
onto_first c [] = (c ∷ []) ∷ []
onto_first c (s ∷ rest) = (c ∷ s) ∷ rest

-- `strings.Split` at one character.
unfoldable pub split : ℕ → GoString → List GoString
split sep [] = [] ∷ []
split sep (c ∷ s) = if c == sep then [] ∷ split sep s else onto_first c (split sep s)

abbrev then_digit : ℕ → Option ℕ → Option ℕ
then_digit c none = none
then_digit c (some n) = if leb 48 c && leb c 57 then some (n * 10 + (c - 48)) else none

unfoldable pub decimal : Option ℕ → GoString → Option ℕ
decimal n [] = n
decimal n (c ∷ s) = decimal (then_digit c n) s

abbrev unsigned : GoString → Option ℕ
unfolding decimal
unsigned [] = none
unsigned (c ∷ s) = decimal (some 0) (c ∷ s)

abbrev positive : GoString → Option ℤ
positive s = elim (unsigned s) [
  | none ↦ none
  | some n ↦ if ltb n (2 ^ 63) then some (pos n) else none
]

abbrev negative : GoString → Option ℤ
negative s = elim (unsigned s) [
  | none ↦ none
  | some zero ↦ some (pos 0)
  | some (suc n) ↦ if ltb n (2 ^ 63) then some (negsuc n) else none
]

-- `strconv.ParseInt` in base ten with 64 bits, and `strconv.Atoi`.
unfoldable pub parse_int : GoString → Option ℤ
unfolding decimal
parse_int [] = none
parse_int (c ∷ s) = if c == 45 then negative s else if c == 43 then positive s else positive (c ∷ s)

-- What is in front of the first character that the test takes, and the rest from it on.
unfoldable pub cut_at : (ℕ → Bool) → GoString → Option (GoString × GoString)
cut_at test [] = none
cut_at test (c ∷ s) =
    if test c
    then some ([], c ∷ s)
    else (elim (cut_at test s) [ none ↦ none | some (a, b) ↦ some (c ∷ a, b) ])

abbrev tail : GoString → GoString
tail [] = []
tail (c ∷ s) = s

-- The loop of `splitCommand`; each round takes a character, so the length is fuel enough.
unfoldable pub fields : ℕ → GoString → List GoString
unfolding trim_left cut_at
fields zero line = []
fields (suc fuel) line = elim (trim_left is_blank line) [
  | [] ↦ []
  | c ∷ s ↦
      if c == 34
      then (elim (cut_at (λ d. d == 34) s) [
        | none ↦ s ∷ []
        | some (a, b) ↦ a ∷ fields fuel (tail b)
      ])
      else (elim (cut_at is_blank (c ∷ s)) [
        | none ↦ (c ∷ s) ∷ []
        | some (a, b) ↦ a ∷ fields fuel b
      ])
]

-- `splitCommand`; no fields read as an empty command.
unfoldable pub split_command : GoString → GoString × List GoString
unfolding fields
split_command line = elim (fields (length line) line) [ [] ↦ ([], []) | cmd ∷ args ↦ (cmd, args) ]

abbrev pub to_int64 : ℕ → ℤ
to_int64 n = let r = n % 2 ^ 64 in if ltb r (2 ^ 63) then pos r else negsuc (2 ^ 64 - r - 1)

abbrev time_parts : Option ℤ → Option ℤ → Option ℤ → Option ℤ
time_parts (some (pos m)) (some (pos s)) (some (pos f)) =
    if leb 60 s || leb 75 f then none else some (to_int64 ((m * 60 + s) * 75 + f))
time_parts _ _ _ = none

-- `parseTime`
unfoldable pub parse_time : GoString → Option ℤ
unfolding split parse_int
parse_time s = elim (split 58 s) [
  | m ∷ sec ∷ f ∷ [] ↦ time_parts (parse_int m) (parse_int sec) (parse_int f)
  | _ ↦ none
]
