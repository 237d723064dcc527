-- ===== src/Library/Sources/Request.antt =====
-- sourceresolve.go: a whole request.
use tiramisu.Base.{
  ◌≡◌, refl, sym, ap, ◌↔◌, ◌⊎◌, inl, inr, Bool, true, false, Option, none, some, List, [], ◌∷◌, map,
  arith, Option-cases,
}
use mathlib.Core.Path.{subst}
use tiramisu.Base.Eq.{GoString, string_eq}
use tiramisu.Base.GoMap.{Map, lookup, insert}
use tiramisu.Base.Int.{ℤ, int_eq, eq_ℤ_iff}
use tiramisu.Base.Distinct.{Distinct}
use tiramisu.Base.Fresh.{itself, Fresh, Fresh-Distinct, Distinct-Fresh, Unseen-nil}
use tiramisu.Library.Sources.Single.{resolve_source_iff}
use tiramisu.Library.Idempotency.{ResolvedSource}
use tiramisu.Library.Sources.{
  FileStat, SourceError, Resolution, ok, failed, match_entry, check_entry, resolved, resolve_source,
  repeats_path, match_all, first_err, repeats_index, check_all, resolve_sources,
  verify_resolved_source,
}

repeats_path-Fresh :
    (ps : List GoString) (seen : Map GoString Bool) → (repeats_path ps seen ≡ false) ↔ Fresh seen ps
unfolding repeats_path
repeats_path-Fresh [] seen = ((λ _. tt), λ _. refl)
repeats_path-Fresh (p ∷ ps) seen =
    let later = repeats_path-Fresh ps (insert p true seen) in
    elim (Option-cases (lookup p seen)) [
      | inl e ↦ rw (e, repeats_path) ((λ h. (refl, later.0 h)), λ f. later.1 f.1)
      | inr (b, e) ↦ rw (e, repeats_path) ((λ h. absurd (cc h)), λ f. absurd (cc (f.0)))
    ]

abbrev indexes : List (Option FileStat) → List ℤ
indexes [] = []
indexes (none ∷ ms) = indexes ms
indexes (some f ∷ ms) = f.id ∷ indexes ms

repeats_index-Fresh :
    (ms : List (Option FileStat)) (seen : Map ℤ Bool)
    → (repeats_index ms seen ≡ false) ↔ Fresh seen (indexes ms)
unfolding repeats_index
repeats_index-Fresh [] seen = ((λ _. tt), λ _. refl)
repeats_index-Fresh (none ∷ ms) seen = repeats_index-Fresh ms seen
repeats_index-Fresh (some f ∷ ms) seen =
    let later = repeats_index-Fresh ms (insert f.id true seen) in
    elim (Option-cases (lookup f.id seen)) [
      | inl e ↦ rw (e, repeats_index) ((λ h. (refl, later.0 h)), λ g. later.1 g.1)
      | inr (b, e) ↦ rw (e, repeats_index) ((λ h. absurd (cc h)), λ g. absurd (cc (g.0)))
    ]

-- Each path resolves, by itself, to the source in its place.
abbrev pub AllResolved : List FileStat → List GoString → List ResolvedSource → Type 0
AllResolved files [] [] = Unit
AllResolved files (p ∷ ps) (r ∷ rs) = (resolve_source files p ≡ ok r) × AllResolved files ps rs
AllResolved files _ _ = ⊥

abbrev pub file_index : ResolvedSource → ℤ
file_index r = r.file_index

-- What the passes compute, where they end well.
abbrev Passes : List FileStat → List GoString → List ResolvedSource → Type 0
Passes files ps rs = (first_err files ps ≡ none) × (check_all files ps (match_all files ps) ≡ ok rs)

resolution_cases :
    {A : Type 0} (m : Resolution A) → ((e : SourceError) × (m ≡ failed e)) ⊎ ((a : A) × (m ≡ ok a))
resolution_cases (failed e) = inl (e, refl)
resolution_cases (ok a) = inr (a, refl)

Passes-AllResolved :
    (files : List FileStat) (ps : List GoString) (rs : List ResolvedSource)
    → Passes files ps rs
    → AllResolved files ps rs × (indexes (match_all files ps) ≡ map file_index rs)
unfolding first_err check_all match_all resolve_source
Passes-AllResolved files [] [] h = (tt, refl)
Passes-AllResolved files [] (r ∷ rs) h = absurd (ground (arith, h))
Passes-AllResolved files (p ∷ ps) rs h = elim (resolution_cases (match_entry files p)) [
  | inl (x, e) ↦ absurd (ground (arith, h, e))
  | inr (f, e) ↦ elim (Option-cases (check_entry files f)) [
    | inr (x, d) ↦ absurd (ground (arith, h, e, d))
    | inl d ↦ elim (resolution_cases (check_all files ps (match_all files ps))) [
      | inl (x, b) ↦ absurd (ground (arith, h, e, d, b))
      | inr (later, b) ↦
          let all : rs ≡ resolved p f ∷ later = ground (arith, h, e, d, b) in
          let errs : first_err files ps ≡ none = ground (arith, h, e) in
          let rest = Passes-AllResolved files ps later (errs, b) in
          subst
            (λ l.
              AllResolved files (p ∷ ps) l
              × (indexes (match_all files (p ∷ ps)) ≡ map file_index l))
            (sym all) ((ground (arith, e, d), rest.0), ground (arith, e, rest.1))
    ]
  ]
]

AllResolved-Passes :
    (files : List FileStat) (ps : List GoString) (rs : List ResolvedSource)
    → AllResolved files ps rs
    → Passes files ps rs
unfolding first_err check_all match_all resolve_source
AllResolved-Passes files [] [] h = (refl, refl)
AllResolved-Passes files [] (r ∷ rs) h = absurd h
AllResolved-Passes files (p ∷ ps) [] h = absurd h
AllResolved-Passes files (p ∷ ps) (r ∷ rs) h =
    let rest = AllResolved-Passes files ps rs h.1 in
    elim (resolution_cases (match_entry files p)) [
      | inl (x, e) ↦ absurd (ground (arith, h.0, e))
      | inr (f, e) ↦ elim (Option-cases (check_entry files f)) [
        | inr (x, d) ↦ absurd (ground (arith, h.0, e, d))
        | inl d ↦ (ground (arith, e, rest.0), ground (arith, e, d, rest.1, h.0))
      ]
    ]

abbrev pub AllVerified : List FileStat → List ResolvedSource → Type 0
AllVerified files [] = Unit
AllVerified files (r ∷ rs) = (verify_resolved_source files r ≡ none) × AllVerified files rs

verify-resolve :
    (files : List FileStat) (p : GoString) (r : ResolvedSource)
    → resolve_source files p ≡ ok r
    → verify_resolved_source files r ≡ none
unfolding verify_resolved_source
verify-resolve files p r h =
    let (f, s, e) = (resolve_source_iff files p r).0 h in
    let path : r.source_path ≡ p = ap (λ q. q.source_path) e in
    let again : resolve_source files r.source_path ≡ ok r =
      subst (λ q. resolve_source files q ≡ ok r) (sym path) h in
    ground
      (arith, again, (eq_ℤ_iff r.file_index r.file_index).1 refl, (eq_ℤ_iff r.size r.size).1 refl)

AllResolved-AllVerified :
    (files : List FileStat) (ps : List GoString) (rs : List ResolvedSource)
    → AllResolved files ps rs
    → AllVerified files rs
AllResolved-AllVerified files [] [] h = tt
AllResolved-AllVerified files [] (r ∷ rs) h = absurd h
AllResolved-AllVerified files (p ∷ ps) [] h = absurd h
AllResolved-AllVerified files (p ∷ ps) (r ∷ rs) h =
    (verify-resolve files p r h.0, AllResolved-AllVerified files ps rs h.1)

-- The passes over a request succeed exactly if no path comes twice, each path resolves by itself, and
-- no two of the sources share an index; they give just these sources, in request order. Each of
-- them then verifies against the same file list.
pub resolve_sources_iff :
    (files : List FileStat) (paths : List GoString) (sources : List ResolvedSource)
    → ((resolve_sources files paths ≡ ok sources) ↔ (
        Distinct itself paths
        × AllResolved files paths sources
        × Distinct itself (map file_index sources)))
      × (resolve_sources files paths ≡ ok sources → AllVerified files sources)
unfolding resolve_sources
resolve_sources_iff files paths sources =
    ((forward, backward), λ h. AllResolved-AllVerified files paths sources (forward h).1)
  where
    forward :
        resolve_sources files paths ≡ ok sources
        → Distinct itself paths
          × AllResolved files paths sources
          × Distinct itself (map file_index sources)
    forward h =
        let ms = match_all files paths in
        let once : repeats_path paths [] ≡ false = ground (arith, h) in
        let indexed : repeats_index ms [] ≡ false = ground (arith, h, once) in
        let errs : first_err files paths ≡ none = ground (arith, h, once, indexed) in
        let checked : check_all files paths ms ≡ ok sources =
          ground (arith, h, once, indexed, errs) in
        let passed = Passes-AllResolved files paths sources (errs, checked) in
        (
          Fresh-Distinct [] paths ((repeats_path-Fresh paths []).0 once),
          passed.0,
          subst (λ l. Distinct itself l) passed.1
              (Fresh-Distinct [] (indexes ms) ((repeats_index-Fresh ms []).0 indexed)),
        )

    backward :
        Distinct itself paths
          × AllResolved files paths sources
          × Distinct itself (map file_index sources)
        → resolve_sources files paths ≡ ok sources
    backward (d, all, i) =
        let ms = match_all files paths in
        let passes = AllResolved-Passes files paths sources all in
        let same = (Passes-AllResolved files paths sources passes).1 in
        let once = (repeats_path-Fresh paths []).1 (Distinct-Fresh [] paths d (Unseen-nil paths)) in
        let indexed = (repeats_index-Fresh ms []).1 (
          Distinct-Fresh [] (indexes ms) (subst (λ l. Distinct itself l) (sym same) i)
            (Unseen-nil (indexes ms))) in
        ground (arith, once, indexed, passes.0, passes.1)
