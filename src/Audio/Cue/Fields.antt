-- ===== src/Audio/Cue/Fields.antt =====
-- cue.go: `splitCommand` reads back what is written with quoted arguments.
use tiramisu.Base.{
  ℕ, zero, suc, ◌≤◌, ◌≡◌, refl, ap, ◌∙◌, Bool, true, false, some, List, [], ◌∷◌, ◌++◌, length, ◌==◌,
  arith, length-append,
}
use tiramisu.Base.Eq.{GoString}
use tiramisu.Audio.Cue.Text.{is_blank, trim_left, cut_at, fields, split_command}

-- The test takes no character of the string.
abbrev pub NoneTaken : (ℕ → Bool) → GoString → Type 0
NoneTaken test [] = Unit
NoneTaken test (c ∷ s) = (test c ≡ false) × NoneTaken test s

abbrev pub is_quote : ℕ → Bool
is_quote d = d == 34

abbrev pub Unquoted : List GoString → Type 0
Unquoted [] = Unit
Unquoted (arg ∷ args) = NoneTaken is_quote arg × Unquoted args

-- Each argument in quotes and followed by a space.
abbrev pub quoted : List GoString → GoString
quoted [] = []
quoted (arg ∷ args) = 34 ∷ (arg ++ (34 ∷ 32 ∷ quoted args))

cut_at-append :
    (test : ℕ → Bool) (s : GoString) (d : ℕ) (rest : GoString)
    → NoneTaken test s
    → test d ≡ true
    → cut_at test (s ++ (d ∷ rest)) ≡ some (s, d ∷ rest)
unfolding cut_at
cut_at-append test [] d rest h k = rw k refl
cut_at-append test (c ∷ s) d rest h k = rw (h.0, cut_at-append test s d rest h.1 k) refl

fields_skip : (n : ℕ) (s : GoString) → fields n (32 ∷ s) ≡ fields n s
unfolding fields trim_left
fields_skip zero s = refl
fields_skip (suc n) s = refl

fields-quoted :
    (n : ℕ) (args : List GoString) → Unquoted args → length args ≤ n → fields n (quoted args) ≡ args
unfolding fields trim_left
fields-quoted zero [] u h = refl
fields-quoted (suc n) [] u h = refl
fields-quoted zero (arg ∷ args) u h = absurd (omega arith)
fields-quoted (suc n) (arg ∷ args) u h =
    rw (cut_at-append is_quote arg 34 (32 ∷ quoted args) u.0 refl)
      (ap (λ l. arg ∷ l) (fields_skip n (quoted args) ∙ fields-quoted n args u.1 (omega arith)))

length-quoted : (args : List GoString) → length args ≤ length (quoted args)
length-quoted [] = omega arith
length-quoted (arg ∷ args) =
    omega (arith, length-quoted args, length-append arg (34 ∷ 32 ∷ quoted args))

trim_left_stop :
    (test : ℕ → Bool) (c : ℕ) (s : GoString) → test c ≡ false → trim_left test (c ∷ s) ≡ c ∷ s
unfolding trim_left
trim_left_stop test c s h = rw h refl

split_fields :
    (n c : ℕ) (cmd : GoString) (args : List GoString)
    → NoneTaken is_blank (c ∷ cmd)
    → is_quote c ≡ false
    → Unquoted args
    → length args ≤ n
    → fields (suc n) ((c ∷ cmd) ++ (32 ∷ quoted args)) ≡ (c ∷ cmd) ∷ args
unfolding fields
split_fields n c cmd args h q u l =
    rw
      (
        trim_left_stop is_blank c (cmd ++ (32 ∷ quoted args)) h.0,
        q,
        cut_at-append is_blank (c ∷ cmd) 32 (quoted args) h refl,
        fields,
      )
      (ap (λ l. (c ∷ cmd) ∷ l) (fields_skip n (quoted args) ∙ fields-quoted n args u l))

-- A command of characters other than blanks that does not start with a quote, and after a space
-- arguments without quotes, each in quotes: `splitCommand` gives the command and the arguments,
-- blanks inside and empty arguments included.
pub split_command-quoted :
    (c : ℕ) (cmd : GoString) (args : List GoString)
    → NoneTaken is_blank (c ∷ cmd)
    → is_quote c ≡ false
    → Unquoted args
    → split_command ((c ∷ cmd) ++ (32 ∷ quoted args)) ≡ (c ∷ cmd, args)
unfolding split_command
split_command-quoted c cmd args h q u =
    let n = length (cmd ++ (32 ∷ quoted args)) in
    let enough : length args ≤ n =
      omega (arith, length-quoted args, length-append cmd (32 ∷ quoted args)) in
    rw (split_fields n c cmd args h q u enough, split_command) refl
