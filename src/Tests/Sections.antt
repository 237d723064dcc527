-- ===== src/Tests/Sections.antt =====
-- audio.go: names of the audiobook section.
use tiramisu.Base.{◌≡◌, ◌↔◌, refl, true, false}
use tiramisu.Base.Eq.{GoString, codes, str_eq}
use tiramisu.Audio.Cue.Lookup.{after_last_slash, no_slash}
use tiramisu.Library.Sections.{
  audiobooks, is_audio_section, split_stub, cut_last_period, extension_allowed, is_virtual_stub,
  starts_with_dot, has_hash_suffix, hash_suffix_token, all_hex, to_lower, equal_fold,
}
use tiramisu.Library.Sections.Stubs.{is_virtual_stub-allowed}

abbrev book : GoString
book = codes "A/B_89ABCDEF.M4B"

-- The token is the end of the hash; the names are compared as they are here.
book_has_hash :
    has_hash_suffix
      (λ c. c)
      (codes "b_89abcdef.m4b")
      (codes "0123456789abcdef0123456789abcdef89ABCDEF")
    ≡ true
unfolding has_hash_suffix hash_suffix_token all_hex to_lower equal_fold split_stub cut_last_period
    after_last_slash no_slash str_eq
book_has_hash = refl

is_virtual_stub-allowed_example : (is_virtual_stub audiobooks book ≡ true) ↔ (
    (extension_allowed audiobooks book ≡ true)
    × (is_audio_section audiobooks ≡ true → starts_with_dot (codes "B_89ABCDEF") ≡ false)
    × (is_audio_section audiobooks ≡ false → codes ".M4B" ≡ to_lower (codes ".M4B")))
unfolding split_stub cut_last_period after_last_slash no_slash
is_virtual_stub-allowed_example =
    is_virtual_stub-allowed audiobooks book (codes "B_89ABCDEF") (codes ".M4B") refl
