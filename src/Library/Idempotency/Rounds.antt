-- ===== src/Library/Idempotency/Rounds.antt =====
-- idempotency.go: the classification of one request, and a round of the loop.
use tiramisu.Base.{
  ◌≡◌, refl, ◌⊎◌, inl, inr, true, none, some, List, [], ◌∷◌, arith, Bool-cases, Option-cases,
}
use mathlib.Core.Path.{subst}
use tiramisu.Base.Eq.{GoString, string_eq}
use tiramisu.Base.GoMap.{Map, lookup, insert}
use tiramisu.Library.Idempotency.{
  AudioProjection, ResolvedSource, AudioFileRequest, Answer, unreadable, not_found, found,
  AudioProjectionLookup, present, created, AudioProjectionPlan, PlanError, Planned, ok, failed,
  same_content, SourceKey, source_key_eq, source_key, classify_audio_projection, plan_from,
}

module _ (portable_key : GoString → GoString) (registry : AudioProjectionLookup)
    (section : GoString) (hash : GoString) where
  -- The plan of one request: it is present, as a committed row with the same identity that stands at
  -- the path, or it is to be created, and then no row has the path, its portable key or the source.
  abbrev pub Fits : AudioFileRequest × ResolvedSource → AudioProjectionPlan → Type 0
  Fits (r, s) plan =
      (plan.virtual_path ≡ r.path)
      × (plan.source ≡ s)
      × (((row : AudioProjection) × (plan.status ≡ present)
            × (plan.existing ≡ some row)
            × (registry.get_audio_projection section r.path ≡ found row)
            × (same_content hash s r.cue_track row ≡ true))
          ⊎ (plan.status ≡ created)
            × (plan.existing ≡ none)
            × (registry.get_audio_projection section r.path ≡ not_found)
            × (registry.audio_projection_by_portable_key section (portable_key r.path) ≡ not_found)
            × (registry.audio_projection_by_source hash s.file_index r.cue_track ≡ not_found))

  abbrev pub AllFit : List (AudioFileRequest × ResolvedSource) → List AudioProjectionPlan → Type 0
  AllFit [] [] = Unit
  AllFit (p ∷ ps) (plan ∷ plans) = Fits p plan × AllFit ps plans
  AllFit _ _ = ⊥

  answer_cases :
      (a : Answer)
      → (a ≡ unreadable) ⊎ (a ≡ not_found) ⊎ ((row : AudioProjection) × (a ≡ found row))
  answer_cases unreadable = inl refl
  answer_cases not_found = inr (inl refl)
  answer_cases (found row) = inr (inr (row, refl))

  classify-Fits :
      (r : AudioFileRequest) (s : ResolvedSource) (plan : AudioProjectionPlan)
      → classify_audio_projection portable_key registry section hash r.path s r.cue_track ≡ ok plan
      → Fits (r, s) plan
  unfolding classify_audio_projection
  classify-Fits r s plan h = elim (answer_cases (registry.get_audio_projection section r.path)) [
    | inl e ↦ absurd (ground arith)
    | inr (inr (row, e)) ↦ elim (Bool-cases (same_content hash s r.cue_track row)) [
      | inl same ↦
          let built : AudioProjectionPlan = record {
            virtual_path = r.path;
            source = s;
            status = present;
            existing = some row;
          } in
          let is_it : built ≡ plan = ground arith in
          subst (Fits (r, s)) is_it (refl, refl, inl (row, refl, refl, e, same))
      | inr other ↦ absurd (ground arith)
    ]
    | inr (inl e) ↦
        elim (answer_cases
          (registry.audio_projection_by_portable_key section (portable_key r.path))) [
            | inl d ↦ absurd (ground arith)
            | inr (inr (row, d)) ↦ absurd (ground arith)
            | inr (inl d) ↦
                elim (answer_cases
                  (registry.audio_projection_by_source hash s.file_index r.cue_track)) [
                    | inl b ↦ absurd (ground arith)
                    | inr (inr (row, b)) ↦ absurd (ground arith)
                    | inr (inl b) ↦
                        let built : AudioProjectionPlan = record {
                          virtual_path = r.path;
                          source = s;
                          status = created;
                          existing = none;
                        } in
                        let is_it : built ≡ plan = ground arith in
                        subst (Fits (r, s)) is_it (refl, refl, inr (refl, refl, e, d, b))
                  ]
          ]
  ]

  planned_cases :
      {A : Type 0} (p : Planned A) → ((e : PlanError) × (p ≡ failed e)) ⊎ ((a : A) × (p ≡ ok a))
  planned_cases (failed e) = inl (e, refl)
  planned_cases (ok a) = inr (a, refl)

  -- The steps that a round has passed, where the loop ends well.
  pub record Round (p : AudioFileRequest × ResolvedSource)
      (rest : List (AudioFileRequest × ResolvedSource)) (keys : Map GoString GoString)
      (claimed : Map SourceKey GoString) (plans : List AudioProjectionPlan) : Type 0 where
    pub plan : AudioProjectionPlan
    pub later : List AudioProjectionPlan
    pub splits : plans ≡ plan ∷ later
    pub fits : Fits p plan
    pub new_key : lookup (portable_key (p.0).path) keys ≡ none
    pub new_source : lookup (source_key p) claimed ≡ none
    pub goes_on :
        plan_from portable_key registry section hash rest
          (insert (portable_key (p.0).path) (p.0).path keys)
          (insert (source_key p) (p.0).path claimed)
        ≡ ok later

  pub plan_from-Round :
      (p : AudioFileRequest × ResolvedSource) (rest : List (AudioFileRequest × ResolvedSource))
      (keys : Map GoString GoString) (claimed : Map SourceKey GoString)
      (plans : List AudioProjectionPlan)
      → plan_from portable_key registry section hash (p ∷ rest) keys claimed ≡ ok plans
      → Round p rest keys claimed plans
  unfolding plan_from
  plan_from-Round (r, s) rest keys claimed plans h =
      elim (planned_cases
        (classify_audio_projection portable_key registry section hash r.path s r.cue_track)) [
          | inl (x, e) ↦ absurd (ground arith)
          | inr (plan, e) ↦ elim (Option-cases (lookup (portable_key r.path) keys)) [
            | inr (x, d) ↦ absurd (ground arith)
            | inl d ↦ elim (Option-cases (lookup (source_key (r, s)) claimed)) [
              | inr (x, b) ↦ absurd (ground arith)
              | inl b ↦
                  elim (planned_cases (
                    plan_from portable_key registry section hash rest
                      (insert (portable_key r.path) r.path keys)
                      (insert (source_key (r, s)) r.path claimed))) [
                        | inl (x, a) ↦ absurd (ground arith)
                        | inr (later, a) ↦ record {
                          plan = plan;
                          later = later;
                          splits = ground arith;
                          fits = classify-Fits r s plan e;
                          new_key = d;
                          new_source = b;
                          goes_on = a;
                        }
                      ]
            ]
          ]
        ]
