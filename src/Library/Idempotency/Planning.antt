-- ===== src/Library/Idempotency/Planning.antt =====
-- idempotency.go: what a plan that is given promises.
use tiramisu.Base.{
  ◌≡◌, ◌≢◌, sym, inl, inr, none, some, List, [], ◌∷◌, length, ◌==◌, arith, Bool-cases,
}
use mathlib.Core.Path.{subst}
use tiramisu.Base.Eq.{GoString, string_eq, =?_iff}
use tiramisu.Base.GoMap.{Map, lookup, insert, lookup-insert}
use tiramisu.Library.Idempotency.{
  ResolvedSource, AudioFileRequest, AudioProjectionLookup, AudioProjectionPlan, ok, SourceKey,
  source_key_eq, zip, source_key, plan_from, plan_audio_projections,
}
use tiramisu.Base.Distinct.{Without, Distinct}
use tiramisu.Library.Idempotency.Rounds.{AllFit, plan_from-Round}

module _ (portable_key : GoString → GoString) (registry : AudioProjectionLookup)
    (section : GoString) (hash : GoString) where
  abbrev pub path_key : AudioFileRequest × ResolvedSource → GoString
  path_key p = portable_key (p.0).path

  plan_from-AllFit :
      (ps : List (AudioFileRequest × ResolvedSource)) (keys : Map GoString GoString)
      (claimed : Map SourceKey GoString) (plans : List AudioProjectionPlan)
      → plan_from portable_key registry section hash ps keys claimed ≡ ok plans
      → AllFit portable_key registry section hash ps plans
  unfolding plan_from
  plan_from-AllFit [] keys claimed [] h = tt
  plan_from-AllFit [] keys claimed (x ∷ plans) h = absurd (ground arith)
  plan_from-AllFit (p ∷ ps) keys claimed plans h =
      let r = plan_from-Round portable_key registry section hash p ps keys claimed plans h in
      subst (AllFit portable_key registry section hash (p ∷ ps)) (sym r.splits)
        (r.fits, plan_from-AllFit ps _ _ r.later r.goes_on)

  claimed_key :
      (k : GoString) (v : GoString) (ps : List (AudioFileRequest × ResolvedSource))
      (keys : Map GoString GoString) (claimed : Map SourceKey GoString)
      (plans : List AudioProjectionPlan)
      → plan_from portable_key registry section hash ps keys claimed ≡ ok plans
      → lookup k keys ≡ some v
      → Without path_key k ps
  claimed_key k v [] keys claimed plans h at = tt
  claimed_key k v (p ∷ ps) keys claimed plans h at =
      let r = plan_from-Round portable_key registry section hash p ps keys claimed plans h in
      let new : path_key p ≢ k =
        λ e. absurd (cc (subst (λ j. lookup j keys ≡ none) e r.new_key, at)) in
      let still : lookup k (insert (path_key p) (p.0).path keys) ≡ some v =
        ground
          (arith, lookup-insert (path_key p) k (p.0).path keys, =?_iff (path_key p) k, at, new) in
      (new, claimed_key k v ps _ _ r.later r.goes_on still)

  claimed_source :
      (k : SourceKey) (v : GoString) (ps : List (AudioFileRequest × ResolvedSource))
      (keys : Map GoString GoString) (claimed : Map SourceKey GoString)
      (plans : List AudioProjectionPlan)
      → plan_from portable_key registry section hash ps keys claimed ≡ ok plans
      → lookup k claimed ≡ some v
      → Without source_key k ps
  claimed_source k v [] keys claimed plans h at = tt
  claimed_source k v (p ∷ ps) keys claimed plans h at =
      let r = plan_from-Round portable_key registry section hash p ps keys claimed plans h in
      let new : source_key p ≢ k =
        λ e. absurd (cc (subst (λ j. lookup j claimed ≡ none) e r.new_source, at)) in
      let still : lookup k (insert (source_key p) (p.0).path claimed) ≡ some v = ground (
        arith,
        lookup-insert (source_key p) k (p.0).path claimed,
        =?_iff (source_key p) k,
        at,
        new,
      ) in
      (new, claimed_source k v ps _ _ r.later r.goes_on still)

  plan_from-Distinct :
      (ps : List (AudioFileRequest × ResolvedSource)) (keys : Map GoString GoString)
      (claimed : Map SourceKey GoString) (plans : List AudioProjectionPlan)
      → plan_from portable_key registry section hash ps keys claimed ≡ ok plans
      → Distinct path_key ps × Distinct source_key ps
  plan_from-Distinct [] keys claimed plans h = (tt, tt)
  plan_from-Distinct (p ∷ ps) keys claimed plans h =
      let r = plan_from-Round portable_key registry section hash p ps keys claimed plans h in
      let path = (p.0).path in
      let ks = insert (path_key p) path keys in
      let ss = insert (source_key p) path claimed in
      let (keys_later, sources_later) = plan_from-Distinct ps ks ss r.later r.goes_on in
      let has_key : lookup (path_key p) ks ≡ some path = ground (
        arith,
        lookup-insert (path_key p) (path_key p) path keys,
        =?_iff (path_key p) (path_key p),
      ) in
      let has_source : lookup (source_key p) ss ≡ some path = ground (
        arith,
        lookup-insert (source_key p) (source_key p) path claimed,
        =?_iff (source_key p) (source_key p),
      ) in
      (
        (claimed_key (path_key p) path ps ks ss r.later r.goes_on has_key, keys_later),
        (claimed_source (source_key p) path ps ks ss r.later r.goes_on has_source, sources_later),
      )

  -- A plan that is given has one entry for each request, in request order: present as a committed row
  -- with the same identity at the path, or to be created, and then no row has the path, its portable
  -- key or the source. No two requests share a portable key, and no two a file and cue track.
  pub plan_audio_projections-ok :
      (requests : List AudioFileRequest) (sources : List ResolvedSource)
      (plans : List AudioProjectionPlan)
      → plan_audio_projections portable_key registry section hash requests sources ≡ ok plans
      → (length requests ≡ length sources)
        × AllFit portable_key registry section hash (zip requests sources) plans
        × Distinct path_key (zip requests sources)
        × Distinct source_key (zip requests sources)
  unfolding plan_audio_projections
  plan_audio_projections-ok requests sources plans h =
      elim (Bool-cases (length requests == length sources)) [
        | inr e ↦ absurd (ground arith)
        | inl e ↦
            let planned : plan_from portable_key registry section hash (zip requests sources) [] []
                ≡ ok plans =
              ground arith in
            let (keys, taken) = plan_from-Distinct (zip requests sources) [] [] plans planned in
            (ground arith, plan_from-AllFit (zip requests sources) [] [] plans planned, keys, taken)
      ]
