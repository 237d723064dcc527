-- ===== src/Library/Sources/Single.antt =====
-- sourceresolve.go: one source path.
use tiramisu.Base.{
  ℕ, zero, suc, ◌+◌, ◌≤◌, ◌<◌, ◌≡◌, ◌≢◌, refl, sym, ap, ◌∙◌, ◌↔◌, ◌⊎◌, inl, inr, false, Option,
  none, some, List, [], ◌∷◌, arith, Bool-cases, Option-cases,
}
use mathlib.Core.Option.{some-injective}
use tiramisu.Base.Eq.{GoString, str_eq, str_eq_iff}
use tiramisu.Base.Int.{ℤ, pos, eq_ℤ, ltb_ℤ, leb_ℤ, eq_ℤ_iff}
use tiramisu.Base.Distinct.{Without, Only}
use tiramisu.Library.Idempotency.{ResolvedSource}
use tiramisu.Library.Sources.{
  FileStat, SourceError, Resolution, ok, failed, scan_matches, match_entry, sharing, check_entry,
  resolved, resolve_source,
}

abbrev file_path : FileStat → GoString
file_path f = f.path

abbrev file_id : FileStat → ℤ
file_id f = f.id

scan-Without :
    (p : GoString) (fs : List FileStat) (m : Option FileStat) (n : ℕ)
    → Without file_path p fs
    → scan_matches p fs m n ≡ (m, n)
unfolding scan_matches
scan-Without p [] m n w = refl
scan-Without p (x ∷ fs) m n w = elim (Bool-cases (str_eq x.path p)) [
  | inl e ↦ absurd (w.0 ((str_eq_iff x.path p).0 e))
  | inr e ↦ rw e (scan-Without p fs m n w.1)
]

scan-Only :
    (p : GoString) (fs : List FileStat) (m : Option FileStat) (n : ℕ) (f : FileStat)
    → Only file_path p f fs
    → scan_matches p fs m n ≡ (some f, n + 1)
unfolding scan_matches
scan-Only p [] m n f o = absurd o
scan-Only p (x ∷ fs) m n f (inl (same, named, w)) =
    rw ((str_eq_iff x.path p).1 named, same) (scan-Without p fs (some f) (n + 1) w)
scan-Only p (x ∷ fs) m n f (inr (other, o)) = elim (Bool-cases (str_eq x.path p)) [
  | inl e ↦ absurd (other ((str_eq_iff x.path p).0 e))
  | inr e ↦ rw e (scan-Only p fs m n f o)
]

-- The scan counts, and never loses a match.
scan-le :
    (p : GoString) (fs : List FileStat) (m : Option FileStat) (n : ℕ)
    → (n ≤ (scan_matches p fs m n).1) × (((scan_matches p fs m n).1 ≡ n) → Without file_path p fs)
unfolding scan_matches
scan-le p [] m n = (omega arith, λ _. tt)
scan-le p (x ∷ fs) m n = elim (Bool-cases (str_eq x.path p)) [
  | inl e ↦
      let later = scan-le p fs (some x) (n + 1) in
      rw (e, scan_matches) (omega (arith, later.0), λ q. absurd (omega (arith, later.0, q)))
  | inr e ↦
      let later = scan-le p fs m n in
      rw (e, scan_matches)
        (later.0, λ q. ((λ named. absurd (cc (e, (str_eq_iff x.path p).1 named))), later.1 q))
]

scan-one :
    (p : GoString) (fs : List FileStat) (m : Option FileStat) (n : ℕ) (f : FileStat)
    → scan_matches p fs m n ≡ (some f, n + 1)
    → Only file_path p f fs
unfolding scan_matches
scan-one p [] m n f h = absurd (omega (arith, ap (λ t. t.1) h))
scan-one p (x ∷ fs) m n f h = elim (Bool-cases (str_eq x.path p)) [
  | inl e ↦
      let rest : scan_matches p fs (some x) (n + 1) ≡ (some f, n + 1) = rw e at h in
      let w = (scan-le p fs (some x) (n + 1)).1 (ap (λ t. t.1) rest) in
      let same : x ≡ f =
        some-injective _ _ (ap (λ t. t.0) (sym (scan-Without p fs (some x) (n + 1) w) ∙ rest)) in
      inl (same, (str_eq_iff x.path p).0 e, w)
  | inr e ↦
      inr
        ((λ named. absurd (cc (e, (str_eq_iff x.path p).1 named))), scan-one p fs m n f (rw e at h))
]

pub match_entry-Only :
    (files : List FileStat) (p : GoString) (f : FileStat)
    → match_entry files p ≡ ok f
    → (p ≢ []) × Only file_path p f files
unfolding match_entry
match_entry-Only files p f h = elim (Bool-cases (str_eq p [])) [
  | inl e ↦ absurd (cc (rw e at h))
  | inr e ↦
      ((λ q. absurd (cc (e, (str_eq_iff p []).1 q))), matched (scan_matches p files none 0) refl)
]
  where
    matched : (r : Option FileStat × ℕ) → scan_matches p files none 0 ≡ r → Only file_path p f files
    matched (none, n) q = absurd (ground (arith, h, q))
    matched (some g, zero) q = absurd (
        cc (
          ap (λ t. t.0) (sym q),
          ap (λ t. t.0)
              (scan-Without p files none 0 ((scan-le p files none 0).1 (ap (λ t. t.1) q))),
        ))
    matched (some g, suc n) q =
        let one : n ≡ 0 = ground (arith, h, q) in
        let same : g ≡ f = ground (arith, h, q) in
        scan-one p files none 0 f (q ∙ ground (arith, one, same))

pub match_entry-eq :
    (files : List FileStat) (p : GoString) (f : FileStat)
    → p ≢ []
    → Only file_path p f files
    → match_entry files p ≡ ok f
unfolding match_entry
match_entry-eq files p f named o = elim (Bool-cases (str_eq p [])) [
  | inl e ↦ absurd (named ((str_eq_iff p []).0 e))
  | inr e ↦ ground (arith, scan-Only p files none 0 f o)
]

abbrev In : FileStat → List FileStat → Type 0
In f [] = ⊥
In f (x ∷ fs) = (x ≡ f) ⊎ In f fs

Only-In : (p : GoString) (f : FileStat) (fs : List FileStat) → Only file_path p f fs → In f fs
Only-In p f [] o = absurd o
Only-In p f (x ∷ fs) (inl (same, _, _)) = inl same
Only-In p f (x ∷ fs) (inr (_, o)) = inr (Only-In p f fs o)

sharing-zero : (i : ℤ) (fs : List FileStat) → sharing i fs ≡ 0 → Without file_id i fs
unfolding sharing
sharing-zero i [] h = tt
sharing-zero i (x ∷ fs) h =
    ((λ e. absurd (ground (arith, h, (eq_ℤ_iff x.id i).1 e))), sharing-zero i fs (omega (arith, h)))

sharing-Without : (i : ℤ) (fs : List FileStat) → Without file_id i fs → sharing i fs ≡ 0
unfolding sharing
sharing-Without i [] w = refl
sharing-Without i (x ∷ fs) w = elim (Bool-cases (eq_ℤ x.id i)) [
  | inl e ↦ absurd (w.0 ((eq_ℤ_iff x.id i).0 e))
  | inr e ↦ ground (arith, sharing-Without i fs w.1)
]

sharing-In : (f : FileStat) (fs : List FileStat) → In f fs → 0 < sharing f.id fs
unfolding sharing
sharing-In f [] m = absurd m
sharing-In f (x ∷ fs) (inl e) = rw ((eq_ℤ_iff x.id f.id).1 (ap (λ g. g.id) e)) (omega arith)
sharing-In f (x ∷ fs) (inr m) = omega (arith, sharing-In f fs m)

sharing-Only :
    (f : FileStat) (fs : List FileStat) → In f fs → sharing f.id fs ≤ 1 → Only file_id f.id f fs
unfolding sharing
sharing-Only f [] m h = absurd m
sharing-Only f (x ∷ fs) (inl e) h =
    let there = (eq_ℤ_iff x.id f.id).1 (ap (λ g. g.id) e) in
    inl (e, ap (λ g. g.id) e, sharing-zero f.id fs (ground (arith, h, there)))
sharing-Only f (x ∷ fs) (inr m) h =
    let more = sharing-In f fs m in
    inr (
      (λ e. absurd (ground (arith, h, more, (eq_ℤ_iff x.id f.id).1 e))),
      sharing-Only f fs m (omega (arith, h)),
    )

sharing-one : (i : ℤ) (f : FileStat) (fs : List FileStat) → Only file_id i f fs → sharing i fs ≡ 1
unfolding sharing
sharing-one i f [] o = absurd o
sharing-one i f (x ∷ fs) (inl (same, at, w)) =
    let there = (eq_ℤ_iff x.id i).1 at in ground (arith, sharing-Without i fs w)
sharing-one i f (x ∷ fs) (inr (other, o)) = elim (Bool-cases (eq_ℤ x.id i)) [
  | inl e ↦ absurd (other ((eq_ℤ_iff x.id i).0 e))
  | inr e ↦ ground (arith, sharing-one i f fs o)
]

-- The file that a path stands for: the only one with the path and the only one with its index, which
-- is positive, and its length is not negative.
pub record StandsFor (files : List FileStat) (p : GoString) (f : FileStat) : Type 0 where
  pub named : p ≢ []
  pub by_path : Only file_path p f files
  pub by_index : Only file_id f.id f files
  pub positive : leb_ℤ f.id (pos 0) ≡ false
  pub sized : ltb_ℤ f.length (pos 0) ≡ false

pub check_entry-none :
    (files : List FileStat) (p : GoString) (f : FileStat)
    → match_entry files p ≡ ok f
    → check_entry files f ≡ none
    → StandsFor files p f
unfolding check_entry
check_entry-none files p f m h =
    let found = match_entry-Only files p f m in
    record {
      named = found.0;
      by_path = found.1;
      by_index = sharing-Only f files (Only-In p f files found.1) (ground (arith, h));
      positive = ground (arith, h);
      sized = ground (arith, h);
    }

pub StandsFor-check_entry :
    (files : List FileStat) (p : GoString) (f : FileStat)
    → StandsFor files p f
    → check_entry files f ≡ none
unfolding check_entry
StandsFor-check_entry files p f s =
    rw (s.positive, s.sized, sharing-one f.id f files s.by_index) refl

-- A path resolves to a source exactly if the source names a file that the path stands for: the only
-- file of that path, with an index that is positive and no other file's, and a length that is not
-- negative.
pub resolve_source_iff :
    (files : List FileStat) (p : GoString) (r : ResolvedSource)
    → (resolve_source files p ≡ ok r) ↔ ((f : FileStat) × StandsFor files p f × (r ≡ resolved p f))
unfolding resolve_source
resolve_source_iff files p r = (
  (λ h. elim (result_cases (match_entry files p)) [
    | inl (e, q) ↦ absurd (ground (arith, h, q))
    | inr (f, q) ↦ elim (Option-cases (check_entry files f)) [
      | inr (e, d) ↦ absurd (ground (arith, h, q, d))
      | inl d ↦ (f, check_entry-none files p f q d, ground (arith, h, q, d))
    ]
  ]),
  λ (f, s, e).
      rw
        (
          match_entry-eq files p f s.named s.by_path,
          StandsFor-check_entry files p f s,
          resolve_source,
        )
        (ap ok (sym e)),
)
  where
    result_cases :
        (m : Resolution FileStat)
        → ((e : SourceError) × (m ≡ failed e)) ⊎ ((f : FileStat) × (m ≡ ok f))
    result_cases (failed e) = inl (e, refl)
    result_cases (ok f) = inr (f, refl)
