-- ===== src/Monitor/Breakpoint/Status.antt =====
-- The two status bits of a break point, and the three ways to change them.
use c_vm.Prelude.{ℕ, ◌+◌, ◌*◌, ◌/◌, ◌≡◌, true, false, not, ◌&&◌, bit_and, bit_xor, ◌==◌, arith}
use c_vm.Bits.{
  even_mask, bit, bit-le-one, bit_and_step, bit_and-zero, bit_and-pow, bit-bit_and, bit-bit_or,
  bit-bit_xor,
}
use c_vm.Monitor.Breakpoint.{Breakpoint, is_set, is_enabled, armed, arm, disarm, flip}

two_low_bits : (x : ℕ) → bit_and x 3 ≡ bit 1 x * 2 + bit 0 x
two_low_bits x = omega (arith, bit_and_step x 3, bit_and_step (x / 2) 1, bit_and-zero (x / 2 / 2))

both_bits : (s : ℕ) → bit_and s 192 ≡ bit 7 s * 128 + bit 6 s * 64
both_bits s = omega (
  arith,
  even_mask s 96,
  even_mask (s / 2) 48,
  even_mask (s / 2 / 2) 24,
  even_mask (s / 2 / 2 / 2) 12,
  even_mask (s / 2 / 2 / 2 / 2) 6,
  even_mask (s / 2 / 2 / 2 / 2 / 2) 3,
  two_low_bits (s / 2 / 2 / 2 / 2 / 2 / 2),
)

module _ (b : Breakpoint) where
  armed_lem : armed b ≡ (bit 7 b.status == 1 && bit 6 b.status == 1)
  armed_lem = ground (arith, both_bits b.status, bit-le-one 7 b.status, bit-le-one 6 b.status)

  set_lem : is_set b ≡ (bit 6 b.status == 1)
  set_lem = ground (arith, bit_and-pow 6 b.status, bit-le-one 6 b.status)

  enabled_lem : is_enabled b ≡ (bit 7 b.status == 1)
  enabled_lem = ground (arith, bit_and-pow 7 b.status, bit-le-one 7 b.status)

  pub armed-set : armed b ≡ is_enabled b && is_set b
  armed-set = ground (arith, armed_lem, set_lem, enabled_lem)

pub armed-arm : (addr : ℕ) (b : Breakpoint) → armed (arm addr b) ≡ true
armed-arm addr b = ground (
  arith,
  armed_lem (arm addr b),
  bit-bit_or 7 b.status 192,
  bit-bit_or 6 b.status 192,
  bit-le-one 7 b.status,
  bit-le-one 6 b.status,
)

pub armed-disarm : (b : Breakpoint) → armed (disarm b) ≡ false
armed-disarm b =
    ground (arith, armed_lem (disarm b), bit-bit_and 7 b.status 63, bit-bit_and 6 b.status 63)

pub armed-flip : (b : Breakpoint) → armed (flip b) ≡ not (is_enabled b)
armed-flip b = ground (
  arith,
  armed_lem (flip b),
  enabled_lem b,
  bit-bit_or 7 (bit_xor b.status 128) 64,
  bit-bit_or 6 (bit_xor b.status 128) 64,
  bit-bit_xor 7 b.status 128,
  bit-le-one 7 b.status,
  bit-le-one 6 (bit_xor b.status 128),
  bit-le-one 7 (bit_xor b.status 128),
)

-- After each change what is enabled is set.
pub normal-arm : (addr : ℕ) (b : Breakpoint) → is_enabled (arm addr b) ≡ armed (arm addr b)
normal-arm addr b =
    ground (arith, armed-arm addr b, enabled_lem (arm addr b), armed_lem (arm addr b))

pub normal-disarm : (b : Breakpoint) → is_enabled (disarm b) ≡ armed (disarm b)
normal-disarm b = ground (arith, armed-disarm b, enabled_lem (disarm b), bit-bit_and 7 b.status 63)

pub normal-flip : (b : Breakpoint) → is_enabled (flip b) ≡ armed (flip b)
normal-flip b = ground (
  arith,
  armed_lem (flip b),
  enabled_lem (flip b),
  bit-bit_or 6 (bit_xor b.status 128) 64,
  bit-le-one 6 (bit_xor b.status 128),
)
