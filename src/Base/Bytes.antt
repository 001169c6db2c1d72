-- ===== src/Base/Bytes.antt =====
-- uint8_t, and the fixed arrays std::array<uint8_t, 5> and std::array<uint8_t, 8>.
use Prim.Native.Nat.{ℕ, ◌-◌, ◌*◌, ◌/◌, ◌%◌, ◌^◌, ◌<◌}
use mathlib.Core.Path.{◌≡◌}
use mathlib.Core.Logic.{◌↔◌}
use mathlib.Core.Bool.{Bool, true, false, not, ◌&&◌}
use native.Mathlib.Omega.{arith}
use fuji_iot.Base.Tests.{◌==◌}

-- A number stored into a uint8_t.
abbrev pub u8 : ℕ → ℕ
u8 n = n % 256

-- `~m` after the promotion of m to a 32-bit int, as a bit pattern.
abbrev pub complement : ℕ → ℕ
complement m = 0xffff_ffff - m

abbrev pub shl : ℕ → ℕ → ℕ
shl n k = n * 2 ^ k

abbrev pub shr : ℕ → ℕ → ℕ
shr n k = n / 2 ^ k

-- The conversion of an integer to bool, and back.
abbrev pub to_bool : ℕ → Bool
to_bool n = not (n == 0)

abbrev pub of_bool : Bool → ℕ
of_bool true = 1
of_bool false = 0

pub record Bytes5 : Type 0 where
  pub b0 : ℕ
  pub b1 : ℕ
  pub b2 : ℕ
  pub b3 : ℕ
  pub b4 : ℕ

pub record Bytes8 : Type 0 where
  pub d0 : ℕ
  pub d1 : ℕ
  pub d2 : ℕ
  pub d3 : ℕ
  pub d4 : ℕ
  pub d5 : ℕ
  pub d6 : ℕ
  pub d7 : ℕ

-- Every element is a uint8_t.
pub record IsBytes5 (r : Bytes5) : Type 0 where
  pub b0_lt : r.b0 < 256
  pub b1_lt : r.b1 < 256
  pub b2_lt : r.b2 < 256
  pub b3_lt : r.b3 < 256
  pub b4_lt : r.b4 < 256

pub record IsBytes8 (r : Bytes8) : Type 0 where
  pub d0_lt : r.d0 < 256
  pub d1_lt : r.d1 < 256
  pub d2_lt : r.d2 < 256
  pub d3_lt : r.d3 < 256
  pub d4_lt : r.d4 < 256
  pub d5_lt : r.d5 < 256
  pub d6_lt : r.d6 < 256
  pub d7_lt : r.d7 < 256

-- `operator==` of std::array<uint8_t, 8>.
unfoldable pub bytes_eq : Bytes8 → Bytes8 → Bool
bytes_eq a b =
    a.d0 == b.d0
    && a.d1 == b.d1
    && a.d2 == b.d2
    && a.d3 == b.d3
    && (a.d4 == b.d4 && a.d5 == b.d5 && a.d6 == b.d6 && a.d7 == b.d7)

pub bytes_eq_iff : (a b : Bytes8) → (bytes_eq a b ≡ true) ↔ (a ≡ b)
unfolding bytes_eq
bytes_eq_iff a b = ground arith
