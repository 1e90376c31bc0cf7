-- ===== src/Part/ChsPacked.antt =====
-- include/part/CHSPacked.h: a disk address in three bytes. The two high bits of `mid` belong to
-- the cylinder, the six low bits are the sector.
use hausboot.Base.{ℕ, ◌+◌, ◌*◌, ◌/◌, ◌%◌, ◌^◌, ◌<◌, bit_and, bit_or, ◌≡◌, refl, ap, ◌∙◌, arith}
use hausboot.Base.Bits.{bit_and_ones, bit_and_shifted, bit_or_join, bit_or_comm}

pub record ChsPacked : Type 0 where
  pub lo : ℕ
  pub mid : ℕ
  pub hi : ℕ

-- The three bytes are bytes.
abbrev pub IsPacked : ChsPacked → Type 0
IsPacked c = (c.lo < 256) × (c.mid < 256) × (c.hi < 256)

unfoldable pub head : ChsPacked → ℕ
head c = c.lo

-- The argument is a `uint8_t`: a larger value is cut off by the call.
unfoldable pub set_head : ChsPacked → ℕ → ChsPacked
set_head c value = record c { lo = value % 2 ^ 8 }

pub sector : ChsPacked → ℕ
sector c = bit_and c.mid 0x3f

pub set_sector : ChsPacked → ℕ → ChsPacked
set_sector c value = record c { mid = bit_or (bit_and c.mid 0xc0) (bit_and (value % 2 ^ 8) 0x3f) }

unfoldable pub cylinder : ChsPacked → ℕ
cylinder c = bit_or (bit_and c.mid 0xc0 * 2 ^ 2) c.hi

-- The argument is a `uint16_t`.
pub set_cylinder : ChsPacked → ℕ → ChsPacked
set_cylinder c value =
    let v = value % 2 ^ 16 in
    record c { mid = bit_or (bit_and c.mid 0x3f) (bit_and (v / 2 ^ 2) 0xc0); hi = bit_and v 0xff }

-- The constructor's zeroes.
abbrev pub zero_address : ChsPacked
zero_address = record { lo = 0; mid = 0; hi = 0 }

-- The mask 0xC0 keeps the two high bits of a byte.
pub bit_and_high : (m : ℕ) → bit_and m 0xc0 ≡ m / 64 % 4 * 64
bit_and_high m = bit_and_shifted 6 m 3 ∙ ap (λ (t : ℕ). t * 64) (bit_and_ones 2 (m / 64))

pub sector-mod : (c : ChsPacked) → sector c ≡ c.mid % 64
unfolding sector
sector-mod c = bit_and_ones 6 c.mid

pub cylinder-sum : (c : ChsPacked) → IsPacked c → cylinder c ≡ c.mid / 64 * 256 + c.hi
unfolding cylinder
cylinder-sum c h = ground (arith, bit_and_high c.mid, bit_or_join 8 (c.mid / 64) c.hi)

pub set_sector_mid : (c : ChsPacked) (v : ℕ) → (set_sector c v).mid ≡ c.mid / 64 % 4 * 64 + v % 64
unfolding set_sector
set_sector_mid c v = ground (
  arith,
  bit_and_high c.mid,
  bit_and_ones 6 (v % 2 ^ 8),
  bit_or_join 6 (c.mid / 64 % 4) (v % 2 ^ 8 % 64),
)

pub set_cylinder_mid :
    (c : ChsPacked) (v : ℕ) → (set_cylinder c v).mid ≡ v / 256 % 4 * 64 + c.mid % 64
unfolding set_cylinder
set_cylinder_mid c v = ground (
  arith,
  bit_and_ones 6 c.mid,
  bit_and_high (v % 2 ^ 16 / 2 ^ 2),
  bit_or_comm (c.mid % 64) (v % 2 ^ 16 / 2 ^ 2 / 64 % 4 * 64),
  bit_or_join 6 (v % 2 ^ 16 / 2 ^ 2 / 64 % 4) (c.mid % 64),
)

pub set_cylinder_hi : (c : ChsPacked) (v : ℕ) → (set_cylinder c v).hi ≡ v % 256
unfolding set_cylinder
set_cylinder_hi c v = omega (arith, bit_and_ones 8 (v % 2 ^ 16))

pub set_sector-IsPacked : (c : ChsPacked) (v : ℕ) → IsPacked c → IsPacked (set_sector c v)
unfolding set_sector
set_sector-IsPacked c v h = (h.0, omega (arith, set_sector_mid c v), h.2)

pub set_cylinder-IsPacked : (c : ChsPacked) (v : ℕ) → IsPacked c → IsPacked (set_cylinder c v)
unfolding set_cylinder
set_cylinder-IsPacked c v h =
    (h.0, omega (arith, set_cylinder_mid c v), omega (arith, set_cylinder_hi c v))

pub set_head-IsPacked : (c : ChsPacked) (v : ℕ) → IsPacked c → IsPacked (set_head c v)
unfolding set_head
set_head-IsPacked c v h = (omega arith, h.1, h.2)

-- What `SetSector` stores is the sector's six low bits, and head and cylinder stay.
pub set_sector_fields :
    (c : ChsPacked) (v : ℕ)
    → IsPacked c
    → (sector (set_sector c v) ≡ v % 64)
      × (cylinder (set_sector c v) ≡ cylinder c)
      × (head (set_sector c v) ≡ head c)
set_sector_fields c v h = (
  omega (arith, sector-mod (set_sector c v), set_sector_mid c v),
  (ground (
    arith,
    cylinder-sum c h,
    cylinder-sum (set_sector c v) (set_sector-IsPacked c v h),
    set_sector_mid c v,
    same,
  )),
  unfold head set_sector in refl,
)
  where
    same : (set_sector c v).hi ≡ c.hi
    same = unfold set_sector in refl

-- What `SetCylinder` stores is the cylinder's ten low bits, and head and sector stay.
pub set_cylinder_fields :
    (c : ChsPacked) (v : ℕ)
    → IsPacked c
    → (cylinder (set_cylinder c v) ≡ v % 1024)
      × (sector (set_cylinder c v) ≡ sector c)
      × (head (set_cylinder c v) ≡ head c)
set_cylinder_fields c v h = (
  (omega (
    arith,
    cylinder-sum (set_cylinder c v) (set_cylinder-IsPacked c v h),
    set_cylinder_mid c v,
    set_cylinder_hi c v,
  )),
  omega (arith, sector-mod c, sector-mod (set_cylinder c v), set_cylinder_mid c v),
  unfold head set_cylinder in refl,
)
