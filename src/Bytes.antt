-- ===== src/Bytes.antt =====
-- Little-endian integers in byte lists: what `memcpy` into a fixed-width integer and a packed
-- struct's fields stand for on the little-endian machines that the program supports.
use burst.Base.{ℕ, ◌+◌, ◌*◌, ◌/◌, ◌%◌, ◌^◌, ◌<◌, ◌≡◌, arith, List, [], ◌∷◌, get_or}

-- The bytes of a uint16_t, a uint32_t and a uint64_t.
abbrev pub le16 : ℕ → List ℕ
le16 x = (x % 256) ∷ (x / 256 % 256) ∷ []

abbrev pub le32 : ℕ → List ℕ
le32 x = (x % 256) ∷ (x / 2 ^ 8 % 256) ∷ (x / 2 ^ 16 % 256) ∷ (x / 2 ^ 24 % 256) ∷ []

abbrev pub le64 : ℕ → List ℕ
le64 x =
    (x % 256)
    ∷ (x / 2 ^ 8 % 256)
    ∷ (x / 2 ^ 16 % 256)
    ∷ (x / 2 ^ 24 % 256)
    ∷ (x / 2 ^ 32 % 256)
    ∷ (x / 2 ^ 40 % 256)
    ∷ (x / 2 ^ 48 % 256)
    ∷ (x / 2 ^ 56 % 256)
    ∷ []

-- The value of one byte, 0 behind the end (every caller tests the length first).
abbrev pub byte_at : List ℕ → ℕ → ℕ
byte_at b i = get_or b i 0

abbrev pub u16_at : List ℕ → ℕ → ℕ
u16_at b i = byte_at b i + 256 * byte_at b (i + 1)

abbrev pub u32_at : List ℕ → ℕ → ℕ
u32_at b i =
    byte_at b i
    + 2 ^ 8 * byte_at b (i + 1)
    + 2 ^ 16 * byte_at b (i + 2)
    + 2 ^ 24 * byte_at b (i + 3)

abbrev pub u64_at : List ℕ → ℕ → ℕ
u64_at b i = u32_at b i + 2 ^ 32 * u32_at b (i + 4)

pub u16_le : (x : ℕ) → x < 2 ^ 16 → x % 256 + 256 * (x / 256 % 256) ≡ x
u16_le x h = omega arith

pub u32_le :
    (x : ℕ)
    → x < 2 ^ 32
    → x % 256
        + 2 ^ 8 * (x / 2 ^ 8 % 256)
        + 2 ^ 16 * (x / 2 ^ 16 % 256)
        + 2 ^ 24 * (x / 2 ^ 24 % 256)
      ≡ x
u32_le x h = omega arith

pub u64_at-le64 :
    (x : ℕ) (t : List ℕ)
    → x < 2 ^ 64
    → u64_at
        ((x % 256)
          ∷ (x / 2 ^ 8 % 256)
          ∷ (x / 2 ^ 16 % 256)
          ∷ (x / 2 ^ 24 % 256)
          ∷ (x / 2 ^ 32 % 256)
          ∷ (x / 2 ^ 40 % 256)
          ∷ (x / 2 ^ 48 % 256)
          ∷ (x / 2 ^ 56 % 256)
          ∷ t)
        0
      ≡ x
u64_at-le64 x t h = omega arith
