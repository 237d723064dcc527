-- ===== src/Library/Sources.antt =====
-- internal/library/sourceresolve.go: the source paths of a request bound to the files of a torrent. File
-- indexes and lengths are integers, as the engine's answer may be malformed.
pub mod Single
pub mod Request
use tiramisu.Base.{
  ℕ, ◌+◌, ◌≡◌, Bool, true, false, not, Option, none, some, List, [], ◌∷◌, ltb, ◌==◌, if◌then◌else◌,
}
use tiramisu.Base.Eq.{Eq, GoString, str_eq, string_eq, ◌=?◌}
use tiramisu.Base.GoMap.{Map, lookup, insert}
use tiramisu.Base.Int.{ℤ, pos, negsuc, eq_ℤ, ltb_ℤ, leb_ℤ, int_eq}
use tiramisu.Library.Idempotency.{ResolvedSource}

pub record FileStat : Type 0 where
  pub id : ℤ
  pub path : GoString
  pub length : ℤ

pub data SourceError : Type 0 where
  not_found ambiguous duplicate drift : SourceError

pub data Resolution (A : Type 0) : Type 0 where
  ok : A → Resolution A
  failed : SourceError → Resolution A

-- The loop of `matchEntry`: the last file of the path, and how many there are; none if there is no such.
unfoldable pub scan_matches : GoString → List FileStat → Option FileStat → ℕ → Option FileStat × ℕ
scan_matches path [] match n = (match, n)
scan_matches path (f ∷ fs) match n =
    scan_matches path fs (if str_eq f.path path then some f else match)
      (if str_eq f.path path then n + 1 else n)

unfoldable pub match_entry : List FileStat → GoString → Resolution FileStat
unfolding scan_matches
match_entry files path =
    if str_eq path []
    then failed not_found
    else (let (match, n) = scan_matches path files none 0 in
        elim match [
          | none ↦ failed not_found
          | some f ↦ if ltb 1 n then failed ambiguous else ok f
        ])

-- How many files carry the index.
unfoldable pub sharing : ℤ → List FileStat → ℕ
sharing id [] = 0
sharing id (f ∷ fs) = (if eq_ℤ f.id id then 1 else 0) + sharing id fs

unfoldable pub check_entry : List FileStat → FileStat → Option SourceError
unfolding sharing
check_entry files match =
    if leb_ℤ match.id (pos 0)
    then some ambiguous
    else if ltb_ℤ match.length (pos 0)
    then some ambiguous
    else if ltb 1 (sharing match.id files)
    then some ambiguous
    else none

abbrev pub resolved : GoString → FileStat → ResolvedSource
resolved path f = record { source_path = path; file_index = f.id; size = f.length }

unfoldable pub resolve_source : List FileStat → GoString → Resolution ResolvedSource
unfolding match_entry check_entry
resolve_source files path = elim (match_entry files path) [
  | failed e ↦ failed e
  | ok f ↦ elim (check_entry files f) [ some e ↦ failed e | none ↦ ok (resolved path f) ]
]

-- The first loop of `ResolveSources`: whether a path comes twice.
unfoldable pub repeats_path : List GoString → Map GoString Bool → Bool
repeats_path [] seen = false
repeats_path (p ∷ ps) seen = elim (lookup p seen) [
  | some b ↦ true
  | none ↦ repeats_path ps (insert p true seen)
]

-- The second: every path is matched, and the first error is kept.
unfoldable pub match_all : List FileStat → List GoString → List (Option FileStat)
unfolding match_entry
match_all files [] = []
match_all files (p ∷ ps) = elim (match_entry files p) [
  | ok f ↦ some f ∷ match_all files ps
  | failed e ↦ none ∷ match_all files ps
]

unfoldable pub first_err : List FileStat → List GoString → Option SourceError
unfolding match_entry
first_err files [] = none
first_err files (p ∷ ps) = elim (match_entry files p) [
  | ok f ↦ first_err files ps
  | failed e ↦ some e
]

-- The third: whether two matches share an index.
unfoldable pub repeats_index : List (Option FileStat) → Map ℤ Bool → Bool
repeats_index [] seen = false
repeats_index (none ∷ ms) seen = repeats_index ms seen
repeats_index (some f ∷ ms) seen = elim (lookup f.id seen) [
  | some b ↦ true
  | none ↦ repeats_index ms (insert f.id true seen)
]

abbrev prepend :
    ResolvedSource → Resolution (List ResolvedSource) → Resolution (List ResolvedSource)
prepend r (ok rs) = ok (r ∷ rs)
prepend r (failed e) = failed e

-- The last: the checks. A match that is nil cannot be there by then; the source would panic.
unfoldable pub check_all :
    List FileStat → List GoString → List (Option FileStat) → Resolution (List ResolvedSource)
unfolding check_entry
check_all files (p ∷ ps) (some f ∷ ms) = elim (check_entry files f) [
  | some e ↦ failed e
  | none ↦ prepend (resolved p f) (check_all files ps ms)
]
check_all files (p ∷ ps) (none ∷ ms) = failed not_found
check_all files _ _ = ok []

unfoldable pub resolve_sources : List FileStat → List GoString → Resolution (List ResolvedSource)
unfolding repeats_path match_all first_err repeats_index check_all
resolve_sources files paths =
    if repeats_path paths []
    then failed duplicate
    else if repeats_index (match_all files paths) []
    then failed duplicate
    else (elim (first_err files paths) [
      | some e ↦ failed e
      | none ↦ check_all files paths (match_all files paths)
    ])

-- `VerifyResolvedSource`; none is a source that is as it was.
unfoldable pub verify_resolved_source : List FileStat → ResolvedSource → Option SourceError
unfolding resolve_source
verify_resolved_source files prior = elim (resolve_source files prior.source_path) [
  | failed e ↦ some e
  | ok current ↦
      if not (eq_ℤ current.file_index prior.file_index)
      then some drift
      else if not (eq_ℤ current.size prior.size)
      then some drift
      else none
]
