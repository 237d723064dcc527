-- ===== src/Audio/Cue/Lookup.antt =====
-- cue.go: `FileFor`, the block of a sheet for a file. Go's `strings.ToLower` is an argument: its tables of
-- characters play no part, only that both sides go through it.
use tiramisu.Base.{
  ◌≡◌, refl, ap, inl, inr, ◌⊎◌, Bool, true, false, not, ◌&&◌, Option, none, some, List, [], ◌∷◌,
  ◌++◌, ◌==◌, if◌then◌else◌, arith, Bool-cases, Option-cases,
}
use mathlib.Core.Path.{subst}
use tiramisu.Base.{◌≢◌}
use tiramisu.Base.Eq.{GoString, codes, str_eq, str_eq_iff}
use tiramisu.Audio.Cue.{File, Sheet}

unfoldable pub no_slash : GoString → Bool
no_slash [] = true
no_slash (c ∷ s) = not (c == 47) && no_slash s

unfoldable pub trim_slashes : GoString → GoString
trim_slashes [] = []
trim_slashes (c ∷ s) = elim (trim_slashes s) [
  | [] ↦ (if c == 47 then [] else c ∷ [])
  | d ∷ t ↦ c ∷ d ∷ t
]

unfoldable pub after_last_slash : GoString → GoString
unfolding no_slash
after_last_slash [] = []
after_last_slash (c ∷ s) =
    let rest = after_last_slash s in if no_slash s then (if c == 47 then s else c ∷ s) else rest

-- `path.Base`
unfoldable pub path_base : GoString → GoString
unfolding trim_slashes after_last_slash
path_base [] = codes "."
path_base (c ∷ s) = elim (after_last_slash (trim_slashes (c ∷ s))) [
  | [] ↦ codes "/"
  | d ∷ t ↦ d ∷ t
]

unfoldable pub to_slashes : GoString → GoString
to_slashes [] = []
to_slashes (c ∷ s) = (if c == 92 then 47 else c) ∷ to_slashes s

-- What is in front of the extension, where there is one.
unfoldable pub before_ext : GoString → Option GoString
unfolding no_slash
before_ext [] = none
before_ext (c ∷ s) = elim (before_ext s) [
  | some front ↦ some (c ∷ front)
  | none ↦ if (c == 46) && no_slash s then some [] else none
]

unfoldable pub stem : GoString → GoString
unfolding before_ext
stem s = elim (before_ext s) [ none ↦ s | some front ↦ front ]

abbrev pub has_tracks : File → Bool
has_tracks f = elim f.tracks [ [] ↦ false | _ ∷ _ ↦ true ]

-- The inner loop: the first block with tracks whose name reads as the target.
unfoldable pub first_match : (GoString → GoString) → GoString → List File → Option File
first_match key target [] = none
first_match key target (f ∷ fs) =
    if str_eq (key f.name) target && has_tracks f then some f else first_match key target fs

module _ (to_lower : GoString → GoString) where
  unfoldable pub base_name : GoString → GoString
  unfolding path_base to_slashes
  base_name name = to_lower (path_base (to_slashes name))

  unfoldable pub file_for : GoString → Sheet → Option File
  unfolding base_name stem first_match
  file_for name sheet = elim (first_match base_name (base_name name) sheet.files) [
    | some f ↦ some f
    | none ↦ first_match (λ n. stem (base_name n)) (stem (base_name name)) sheet.files
  ]

-- No block with tracks reads as the target.
abbrev pub NoMatch : (GoString → GoString) → GoString → List File → Type 0
NoMatch key target [] = Unit
NoMatch key target (f ∷ fs) = (has_tracks f ≡ true → key f.name ≢ target) × NoMatch key target fs

-- The block has tracks and reads as the target, and no block in front of it does.
abbrev pub IsFirst : (GoString → GoString) → GoString → List File → File → Type 0
IsFirst key target fs f =
    (front : List File) × (back : List File) × (fs ≡ front ++ (f ∷ back))
    × (key f.name ≡ target)
    × (has_tracks f ≡ true)
    × NoMatch key target front

first_match-none :
    (key : GoString → GoString) (target : GoString) (fs : List File)
    → first_match key target fs ≡ none
    → NoMatch key target fs
unfolding first_match
first_match-none key target [] h = tt
first_match-none key target (f ∷ fs) h = (
  λ t e. ground (arith, str_eq_iff (key f.name) target),
  first_match-none key target fs (ground arith),
)

first_match-some :
    (key : GoString → GoString) (target : GoString) (fs : List File) (f : File)
    → first_match key target fs ≡ some f
    → IsFirst key target fs f
unfolding first_match
first_match-some key target [] f h = absurd (cc h)
first_match-some key target (g ∷ fs) f h =
    elim (Bool-cases (str_eq (key g.name) target && has_tracks g)) [
      | inl e ↦
          let same : g ≡ f = ground arith in
          subst (λ f. IsFirst key target (g ∷ fs) f) same
            ([], fs, refl, ground (arith, str_eq_iff (key g.name) target), ground arith, tt)
      | inr e ↦
          let (front, back, split, name, tracks, before) =
            first_match-some key target fs f (ground arith) in
          (
            g ∷ front,
            back,
            ap (λ l. g ∷ l) split,
            name,
            tracks,
            (λ t q. ground (arith, str_eq_iff (key g.name) target), before),
          )
    ]

-- `FileFor` gives the first block with tracks that has the file's base name, whatever the case and the
-- kind of slash; if there is none, the first with tracks whose name agrees without its extension; and
-- nothing exactly if there is neither.
pub file_for_cases :
    (to_lower : GoString → GoString) (name : GoString) (sheet : Sheet)
    → let exact = base_name to_lower in
      let loose = λ (n : GoString). stem (base_name to_lower n) in
      ((f : File) × (file_for to_lower name sheet ≡ some f)
        × (IsFirst exact (exact name) sheet.files f
            ⊎ NoMatch exact (exact name) sheet.files × IsFirst loose (loose name) sheet.files f))
      ⊎ (file_for to_lower name sheet ≡ none)
        × NoMatch exact (exact name) sheet.files
        × NoMatch loose (loose name) sheet.files
unfolding file_for
file_for_cases to_lower name sheet =
    let exact = base_name to_lower in
    let loose : GoString → GoString = λ n. stem (base_name to_lower n) in
    elim (Option-cases (first_match exact (exact name) sheet.files)) [
      | inr (f, e) ↦ inl (f, rw (e, file_for) refl, inl (first_match-some exact _ sheet.files f e))
      | inl e ↦
          let no_exact = first_match-none exact (exact name) sheet.files e in
          elim (Option-cases (first_match loose (loose name) sheet.files)) [
            | inr (f, d) ↦
                inl
                  (f, rw (e, file_for) d, inr (no_exact, first_match-some loose _ sheet.files f d))
            | inl d ↦ inr (rw (e, file_for) d, no_exact, first_match-none loose _ sheet.files d)
          ]
    ]
