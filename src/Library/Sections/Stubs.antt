-- ===== src/Library/Sections/Stubs.antt =====
-- audio.go: the two tests for a name of a section agree where they should.
use tiramisu.Base.{◌≡◌, refl, ap, sym, true, false, some, arith, ◌↔◌, Bool-cases, inl, inr, ◌∙◌}
use mathlib.Core.Path.{subst}
use tiramisu.Base.Eq.{GoString, codes, str_eq, str_eq_iff}
use tiramisu.Library.Sections.{
  Section, movies, tv, music, audiobooks, other, section_extensions, admits, section_admits,
  is_audio_section, split_stub, extension_allowed, is_virtual_stub, starts_with_dot, to_lower,
}

admits_mkv : (ext : GoString) → section_admits movies ext ≡ true → to_lower ext ≡ codes ".mkv"
unfolding section_admits admits section_extensions to_lower
admits_mkv ext h =
    let same : ext ≡ codes ".mkv" = ground (arith, str_eq_iff ext (codes ".mkv")) in
    ap to_lower same

admits-lower :
    (s : Section) (ext : GoString)
    → is_audio_section s ≡ false
    → section_admits s ext ≡ true
    → section_admits s (to_lower ext) ≡ true
unfolding section_admits admits section_extensions is_audio_section str_eq
admits-lower movies ext n h =
    subst (λ e. section_admits movies e ≡ true) (sym (admits_mkv ext h)) refl
admits-lower tv ext n h = subst (λ e. section_admits tv e ≡ true) (sym (admits_mkv ext h)) refl
admits-lower music ext n h = absurd (cc n)
admits-lower audiobooks ext n h = absurd (cc n)
admits-lower other ext n h = absurd (cc h)

mkv_same : (ext : GoString) → section_admits movies ext ≡ true → ext ≡ to_lower ext
unfolding section_admits admits section_extensions to_lower
mkv_same ext h =
    let same : ext ≡ codes ".mkv" = ground (arith, str_eq_iff ext (codes ".mkv")) in
    same ∙ sym (admits_mkv ext h)

admits_same :
    (s : Section) (ext : GoString)
    → is_audio_section s ≡ false
    → section_admits s ext ≡ true
    → ext ≡ to_lower ext
unfolding section_admits admits section_extensions is_audio_section str_eq
admits_same movies ext n h = mkv_same ext h
admits_same tv ext n h = mkv_same ext h
admits_same music ext n h = absurd (cc n)
admits_same audiobooks ext n h = absurd (cc n)
admits_same other ext n h = absurd (cc h)

-- A name with a stem and an extension reads as a virtual stub of a section exactly if the section allows its
-- extension in lower case and, in an audio section, its last part does not start with a period; in another
-- section, its extension is written in lower case.
pub is_virtual_stub-allowed :
    (s : Section) (name stem ext : GoString)
    → split_stub name ≡ some (stem, ext)
    → (is_virtual_stub s name ≡ true) ↔ (
        (extension_allowed s name ≡ true)
        × (is_audio_section s ≡ true → starts_with_dot stem ≡ false)
        × (is_audio_section s ≡ false → ext ≡ to_lower ext))
unfolding is_virtual_stub extension_allowed
is_virtual_stub-allowed s name stem ext e = (
  λ h. (
    ground (arith, e, h, admits-lower s ext),
    λ a. ground (arith, e, h, a),
    λ a. admits_same s ext a (ground (arith, e, h, a)),
  ),
  λ h. elim (Bool-cases (is_audio_section s)) [
    | inl a ↦ ground (arith, e, h.0, h.1 a, a)
    | inr a ↦
        let allowed : section_admits s (to_lower ext) ≡ true = ground (arith, e, h.0) in
        let same : section_admits s ext ≡ true =
          subst (λ x. section_admits s x ≡ true) (sym (h.2 a)) allowed in
        ground (arith, e, same, a)
  ],
)
