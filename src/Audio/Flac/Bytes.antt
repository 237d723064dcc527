-- ===== src/Audio/Flac/Bytes.antt =====
-- encoding/binary, as flacsplit.go uses it: numbers as bytes.
use tiramisu.Base.{
  ℕ, zero, suc, ◌+◌, ◌*◌, ◌/◌, ◌%◌, ◌<◌, ◌≡◌, refl, ◌∙◌, List, [], ◌∷◌, ◌++◌, length, length-append,
  arith,
}

-- The value of bytes, the most significant first.
abbrev pub big_endian_from : ℕ → List ℕ → ℕ
big_endian_from acc [] = acc
big_endian_from acc (b ∷ bs) = big_endian_from (acc * 256 + b) bs

abbrev pub big_endian : List ℕ → ℕ
big_endian bs = big_endian_from 0 bs

-- The lowest bytes of a number, the most significant first, and the least significant first.
abbrev pub put_big_endian : ℕ → ℕ → List ℕ
put_big_endian zero v = []
put_big_endian (suc n) v = put_big_endian n (v / 256) ++ (v % 256 ∷ [])

abbrev pub put_little_endian : ℕ → ℕ → List ℕ
put_little_endian zero v = []
put_little_endian (suc n) v = v % 256 ∷ put_little_endian n (v / 256)

abbrev pub pow_256 : ℕ → ℕ
pow_256 zero = 1
pow_256 (suc n) = pow_256 n * 256

big_endian-append :
    (acc b : ℕ) (bs : List ℕ)
    → big_endian_from acc (bs ++ (b ∷ [])) ≡ big_endian_from acc bs * 256 + b
big_endian-append acc b [] = refl
big_endian-append acc b (c ∷ bs) = big_endian-append (acc * 256 + c) b bs

pub big_endian-put : (n v : ℕ) → v < pow_256 n → big_endian (put_big_endian n v) ≡ v
big_endian-put zero v h = omega (arith, h)
big_endian-put (suc n) v h =
    big_endian-append 0 (v % 256) (put_big_endian n (v / 256))
    ∙ omega (arith, h, big_endian-put n (v / 256) (omega (arith, h)))

pub length-put_big_endian : (n v : ℕ) → length (put_big_endian n v) ≡ n
length-put_big_endian zero v = refl
length-put_big_endian (suc n) v =
    length-append (put_big_endian n (v / 256)) (v % 256 ∷ [])
    ∙ omega (arith, length-put_big_endian n (v / 256))
