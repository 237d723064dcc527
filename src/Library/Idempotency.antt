-- ===== src/Library/Idempotency.antt =====
-- internal/library/idempotency.go: what a requested audio projection would become. The registry is the
-- interface `AudioProjectionLookup`, whose answers are an error, no row or a row; the portable key of a
-- path, which a package for Unicode folds, is an argument. Of a row stand here the fields that are read.
pub mod Rounds
pub mod Planning
use tiramisu.Base.{
  ℕ, ◌≡◌, refl, ◌↔◌, Bool, true, false, not, ◌&&◌, Option, none, some, List, [], ◌∷◌, length, ◌==◌,
  if◌then◌else◌, arith,
}
use tiramisu.Base.Eq.{Eq, GoString, str_eq, string_eq}
use tiramisu.Base.GoMap.{Map, lookup, insert}
use tiramisu.Base.Int.{ℤ, pos_part, neg_part, eq_ℤ, eq_of_parts}

pub data State : Type 0 where
  staged committed removing : State

abbrev pub is_committed : State → Bool
is_committed committed = true
is_committed _ = false

pub record AudioProjection : Type 0 where
  pub virtual_path : GoString
  pub hash : GoString
  pub file_index : ℤ
  pub cue_track : ℤ
  pub source_path : GoString
  pub size : ℤ
  pub state : State

pub record ResolvedSource : Type 0 where
  pub source_path : GoString
  pub file_index : ℤ
  pub size : ℤ

pub record AudioFileRequest : Type 0 where
  pub path : GoString
  pub cue_track : ℤ

pub data Answer : Type 0 where
  unreadable : Answer
  not_found : Answer
  found : AudioProjection → Answer

pub record AudioProjectionLookup : Type 0 where
  pub get_audio_projection : GoString → GoString → Answer
  pub audio_projection_by_source : GoString → ℤ → ℤ → Answer
  pub audio_projection_by_portable_key : GoString → GoString → Answer

pub data ProjectionStatus : Type 0 where
  present created : ProjectionStatus

pub record AudioProjectionPlan : Type 0 where
  pub virtual_path : GoString
  pub source : ResolvedSource
  pub status : ProjectionStatus
  pub existing : Option AudioProjection

pub data PlanError : Type 0 where
  lookup_failed path_conflict source_conflict length_mismatch : PlanError

pub data Planned (A : Type 0) : Type 0 where
  ok : A → Planned A
  failed : PlanError → Planned A

-- The identity fields of a committed row all agree with the request.
unfoldable pub same_content : GoString → ResolvedSource → ℤ → AudioProjection → Bool
same_content hash source cue_track row =
    is_committed row.state
    && (str_eq row.hash hash
        && (eq_ℤ row.file_index source.file_index
            && (eq_ℤ row.cue_track cue_track
                && (str_eq row.source_path source.source_path && eq_ℤ row.size source.size))))

-- `sourceKey`
pub record SourceKey : Type 0 where
  pub index : ℤ
  pub cue_track : ℤ

abbrev pub key_eq : SourceKey → SourceKey → Bool
key_eq a b = eq_ℤ a.index b.index && eq_ℤ a.cue_track b.cue_track

pub key_eq_iff : (a b : SourceKey) → (key_eq a b ≡ true) ↔ (a ≡ b)
key_eq_iff a b = ground (arith, eq_of_parts a.index b.index, eq_of_parts a.cue_track b.cue_track)

instance abbrev pub source_key_eq : Eq SourceKey
source_key_eq = record { beq = key_eq; beq_iff = key_eq_iff }

abbrev prepend :
    AudioProjectionPlan → Planned (List AudioProjectionPlan) → Planned (List AudioProjectionPlan)
prepend plan (ok plans) = ok (plan ∷ plans)
prepend plan (failed e) = failed e

-- The requests with their sources, in request order.
abbrev pub zip :
    List AudioFileRequest → List ResolvedSource → List (AudioFileRequest × ResolvedSource)
zip (r ∷ rs) (s ∷ ss) = (r, s) ∷ zip rs ss
zip _ _ = []

abbrev pub source_key : AudioFileRequest × ResolvedSource → SourceKey
source_key p = record { index = p.1.file_index; cue_track = p.0.cue_track }

module _ (portable_key : GoString → GoString) (registry : AudioProjectionLookup)
    (section : GoString) (hash : GoString) where
  -- `ClassifyAudioProjection`
  unfoldable pub classify_audio_projection :
      GoString → ResolvedSource → ℤ → Planned AudioProjectionPlan
  unfolding same_content
  classify_audio_projection path source cue_track =
      elim (registry.get_audio_projection section path) [
        | unreadable ↦ failed lookup_failed
        | found row ↦
            if same_content hash source cue_track row
            then ok record {
              virtual_path = path;
              source = source;
              status = present;
              existing = some row;
            }
            else failed path_conflict
        | not_found ↦ elim (registry.audio_projection_by_portable_key section (portable_key path)) [
          | unreadable ↦ failed lookup_failed
          | found _ ↦ failed path_conflict
          | not_found ↦
              elim (registry.audio_projection_by_source hash source.file_index cue_track) [
                | unreadable ↦ failed lookup_failed
                | found _ ↦ failed source_conflict
                | not_found ↦ ok record {
                  virtual_path = path;
                  source = source;
                  status = created;
                  existing = none;
                }
              ]
        ]
      ]

  -- The loop of `PlanAudioProjections`, with `keyClaimedBy` and `claimedBy`.
  unfoldable pub plan_from :
      List (AudioFileRequest × ResolvedSource)
      → Map GoString GoString
      → Map SourceKey GoString
      → Planned (List AudioProjectionPlan)
  unfolding classify_audio_projection
  plan_from [] keys claimed = ok []
  plan_from ((r, s) ∷ rest) keys claimed =
      let key = portable_key r.path in
      let later =
        plan_from rest (insert key r.path keys) (insert (source_key (r, s)) r.path claimed) in
      elim (classify_audio_projection r.path s r.cue_track) [
        | failed e ↦ failed e
        | ok plan ↦ elim (lookup key keys) [
          | some _ ↦ failed path_conflict
          | none ↦ elim (lookup (source_key (r, s)) claimed) [
            | some _ ↦ failed source_conflict
            | none ↦ prepend plan later
          ]
        ]
      ]

  unfoldable pub plan_audio_projections :
      List AudioFileRequest → List ResolvedSource → Planned (List AudioProjectionPlan)
  unfolding plan_from
  plan_audio_projections requests sources =
      if not (length requests == length sources)
      then failed length_mismatch
      else plan_from (zip requests sources) [] []
