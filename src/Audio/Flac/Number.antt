-- ===== src/Audio/Flac/Number.antt =====
-- flacsplit.go: `readUTF8Number`, the numbers of frames.
use tiramisu.Base.{
  ℕ, zero, suc, ◌+◌, ◌*◌, ◌/◌, ◌%◌, ◌<◌, ◌≡◌, refl, ap, Option, none, some, List, [], ◌∷◌, ◌++◌,
  length, length-append, ltb, ◌==◌, if◌then◌else◌, arith, inl, inr, Bool-cases,
}

-- The loop: so many bytes more, six bits each.
unfoldable pub read_more : ℕ → ℕ → List ℕ → Option ℕ
read_more zero v b = some v
read_more (suc extra) v [] = none
read_more (suc extra) v (c ∷ b) =
    let rest = read_more extra (v * 64 + c % 64) b in if c / 64 == 2 then rest else none

-- The first byte: how many more there are, and its bits of the value.
unfoldable pub first_byte : ℕ → Option (ℕ × ℕ)
first_byte c =
    if c / 128 == 0
    then some (0, c)
    else if c / 32 == 6
    then some (1, c % 32)
    else if c / 16 == 14
    then some (2, c % 16)
    else if c / 8 == 30
    then some (3, c % 8)
    else if c / 4 == 62
    then some (4, c % 4)
    else if c / 2 == 126
    then some (5, c % 2)
    else if c == 254
    then some (6, 0)
    else none

-- The number, and how many bytes it took.
unfoldable pub read_utf8_number : List ℕ → Option (ℕ × ℕ)
unfolding first_byte read_more
read_utf8_number [] = none
read_utf8_number (c ∷ b) = elim (first_byte c) [
  | none ↦ none
  | some (extra, v) ↦
      if ltb (length b) extra
      then none
      else (elim (read_more extra v b) [ none ↦ none | some n ↦ some (n, 1 + extra) ])
]

-- What stands above so many groups of six bits.
abbrev pub high : ℕ → ℕ → ℕ
high zero v = v
high (suc n) v = high n v / 64

-- The coding that the format describes: six bits to a byte behind the first.
abbrev pub write_more : ℕ → ℕ → List ℕ
write_more zero v = []
write_more (suc extra) v = (128 + high extra v % 64) ∷ write_more extra v

abbrev pub write_utf8_number : ℕ → List ℕ
write_utf8_number v =
    if ltb v 128
    then v ∷ []
    else if ltb v 2048
    then (192 + high 1 v) ∷ write_more 1 v
    else if ltb v 65536
    then (224 + high 2 v) ∷ write_more 2 v
    else if ltb v 2097152
    then (240 + high 3 v) ∷ write_more 3 v
    else if ltb v 67108864
    then (248 + high 4 v) ∷ write_more 4 v
    else if ltb v 2147483648
    then (252 + high 5 v) ∷ write_more 5 v
    else 254 ∷ write_more 6 v

read_more-write :
    (extra v : ℕ) (rest : List ℕ)
    → read_more extra (high extra v) (write_more extra v ++ rest) ≡ some v
unfolding read_more
read_more-write zero v rest = refl
read_more-write (suc extra) v rest =
    let low : high extra v % 64 < 64 = omega arith in
    let marked : (128 + high extra v % 64) / 64 ≡ 2 = omega arith in
    let whole : high extra v / 64 * 64 + (128 + high extra v % 64) % 64 ≡ high extra v =
      omega arith in
    rw (marked, whole) (read_more-write extra v rest)

length-write_more : (extra v : ℕ) → length (write_more extra v) ≡ extra
length-write_more zero v = refl
length-write_more (suc extra) v = ap suc (length-write_more extra v)

-- A first byte that is decoded right makes the whole number right.
read_first :
    (extra c v : ℕ) (rest : List ℕ)
    → first_byte c ≡ some (extra, high extra v)
    → read_utf8_number (c ∷ (write_more extra v ++ rest))
      ≡ some (v, length (c ∷ write_more extra v))
unfolding read_utf8_number
read_first extra c v rest h =
    let long = length-append (write_more extra v) rest in
    ground (arith, h, long, length-write_more extra v, read_more-write extra v rest)

first_byte-lead :
    (u : ℕ)
    → (u < 128 → first_byte u ≡ some (0, u))
      × (u < 32 → first_byte (192 + u) ≡ some (1, u))
      × (u < 16 → first_byte (224 + u) ≡ some (2, u))
      × (u < 8 → first_byte (240 + u) ≡ some (3, u))
      × (u < 4 → first_byte (248 + u) ≡ some (4, u))
      × (u < 2 → first_byte (252 + u) ≡ some (5, u))
      × (u ≡ 0 → first_byte 254 ≡ some (6, u))
unfolding first_byte
first_byte-lead u = (
  (λ h. ground (arith, h)),
  (λ h. ground (arith, h)),
  (λ h. ground (arith, h)),
  (λ h. ground (arith, h)),
  (λ h. ground (arith, h)),
  (λ h. ground (arith, h)),
  λ h. ground (arith, h),
)

-- Every number of 36 bits that is written so is read back, with its length, whatever stands behind it.
pub read_utf8_number-write :
    (v : ℕ) (rest : List ℕ)
    → v < 68719476736
    → read_utf8_number (write_utf8_number v ++ rest) ≡ some (v, length (write_utf8_number v))
read_utf8_number-write v rest h = elim (Bool-cases (ltb v 128)) [
  | inl e ↦ rw e (read_first 0 v v rest ((first_byte-lead v).0 (ground (arith, e))))
  | inr a ↦ elim (Bool-cases (ltb v 2048)) [
    | inl e ↦
        rw (a, e)
          (read_first 1 (192 + high 1 v) v rest
            ((first_byte-lead (high 1 v)).1 (ground (arith, e))))
    | inr b ↦ elim (Bool-cases (ltb v 65536)) [
      | inl e ↦
          rw (a, b, e)
            (read_first 2 (224 + high 2 v) v rest
              ((first_byte-lead (high 2 v)).2 (ground (arith, e))))
      | inr c ↦ elim (Bool-cases (ltb v 2097152)) [
        | inl e ↦
            rw (a, b, c, e)
              (read_first 3 (240 + high 3 v) v rest
                ((first_byte-lead (high 3 v)).3 (ground (arith, e))))
        | inr d ↦ elim (Bool-cases (ltb v 67108864)) [
          | inl e ↦
              rw (a, b, c, d, e)
                (read_first 4 (248 + high 4 v) v rest
                  ((first_byte-lead (high 4 v)).4 (ground (arith, e))))
          | inr f ↦ elim (Bool-cases (ltb v 2147483648)) [
            | inl e ↦
                rw (a, b, c, d, f, e)
                  (read_first 5 (252 + high 5 v) v rest
                    ((first_byte-lead (high 5 v)).5 (ground (arith, e))))
            | inr e ↦
                rw (a, b, c, d, f, e)
                  (read_first 6 254 v rest ((first_byte-lead (high 6 v)).6 (omega (arith, h))))
          ]
        ]
      ]
    ]
  ]
]
