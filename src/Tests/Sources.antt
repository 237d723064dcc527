-- ===== src/Tests/Sources.antt =====
-- sourceresolve.go: an album of two files with a file that shares a path.
use tiramisu.Base.{◌≡◌, ◌↔◌, refl, some, List, [], ◌∷◌, map}
use tiramisu.Base.Eq.{GoString, codes, str_eq, string_eq}
use tiramisu.Base.GoMap.{lookup, insert}
use tiramisu.Base.Int.{pos, int_eq}
use tiramisu.Base.Distinct.{Distinct}
use tiramisu.Base.Fresh.{itself}
use tiramisu.Library.Idempotency.{ResolvedSource}
use tiramisu.Library.Sources.{
  FileStat, duplicate, ambiguous, drift, ok, failed, scan_matches, match_entry, sharing,
  check_entry, resolved, resolve_source, repeats_path, match_all, first_err, repeats_index,
  check_all, resolve_sources, verify_resolved_source,
}
use tiramisu.Library.Sources.Request.{AllResolved, AllVerified, file_index, resolve_sources_iff}

abbrev one : FileStat
one = record { id = pos 1; path = codes "01.flac"; length = pos 10 }

abbrev two : FileStat
two = record { id = pos 2; path = codes "02.flac"; length = pos 20 }

abbrev files : List FileStat
files =
    one
    ∷ two
    ∷ record { id = pos 3; path = codes "x"; length = pos 1 }
    ∷ record { id = pos 4; path = codes "x"; length = pos 1 }
    ∷ []

abbrev wanted : List GoString
wanted = codes "02.flac" ∷ codes "01.flac" ∷ []

abbrev sources : List ResolvedSource
sources = resolved (codes "02.flac") two ∷ resolved (codes "01.flac") one ∷ []

both : resolve_sources files wanted ≡ ok sources
unfolding resolve_sources repeats_path match_all first_err repeats_index check_all match_entry
    scan_matches check_entry sharing lookup insert str_eq
both = refl

twice : resolve_sources files (codes "01.flac" ∷ codes "01.flac" ∷ []) ≡ failed duplicate
unfolding resolve_sources repeats_path lookup insert str_eq
twice = refl

unclear : resolve_source files (codes "x") ≡ failed ambiguous
unfolding resolve_source match_entry scan_matches str_eq
unclear = refl

replaced :
    verify_resolved_source files
      (record { source_path = codes "01.flac"; file_index = pos 1; size = pos 11 })
    ≡ some drift
unfolding verify_resolved_source resolve_source match_entry scan_matches check_entry sharing str_eq
replaced = refl

resolve_sources_iff_example :
    ((resolve_sources files wanted ≡ ok sources) ↔ (
      Distinct itself wanted
      × AllResolved files wanted sources
      × Distinct itself (map file_index sources)))
    × (resolve_sources files wanted ≡ ok sources → AllVerified files sources)
resolve_sources_iff_example = resolve_sources_iff files wanted sources
