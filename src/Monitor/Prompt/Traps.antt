-- ===== src/Monitor/Prompt/Traps.antt =====
-- The bits of the trap field that the monitor tests (vmmonitor.c).
use c_vm.Prelude.{ℕ, ◌+◌, ◌*◌, ◌/◌, ◌%◌, ◌≡◌, refl, bit_and, bit_or, nonzero, arith, true}
use c_vm.Bits.{
  even_mask, even_or, bit, bit-le-one, bit_and_step, bit_and-zero, bit_or_step, bit_or-zero,
  bit_and-pow, bit-bit_or,
}

or_one : (x : ℕ) → bit_or x 1 ≡ x / 2 * 2 + 1
or_one x = omega (arith, bit_or_step x 1, bit_or-zero (x / 2))

pub trace_bits : (t : ℕ) → bit_and t 48 ≡ bit 5 t * 32 + bit 4 t * 16
trace_bits t = omega (
  arith,
  even_mask t 24,
  even_mask (t / 2) 12,
  even_mask (t / 2 / 2) 6,
  even_mask (t / 2 / 2 / 2) 3,
  bit_and_step (t / 2 / 2 / 2 / 2) 3,
  bit_and_step (t / 2 / 2 / 2 / 2 / 2) 1,
  bit_and-zero (t / 2 / 2 / 2 / 2 / 2 / 2),
)

pub halt_bits : (t : ℕ) → bit_and t 144 ≡ bit 7 t * 128 + bit 4 t * 16
halt_bits t = omega (
  arith,
  even_mask t 72,
  even_mask (t / 2) 36,
  even_mask (t / 2 / 2) 18,
  even_mask (t / 2 / 2 / 2) 9,
  bit_and_step (t / 2 / 2 / 2 / 2) 9,
  even_mask (t / 2 / 2 / 2 / 2 / 2) 2,
  even_mask (t / 2 / 2 / 2 / 2 / 2 / 2) 1,
  bit_and_step (t / 2 / 2 / 2 / 2 / 2 / 2 / 2) 1,
  bit_and-zero (t / 2 / 2 / 2 / 2 / 2 / 2 / 2 / 2),
)

-- A halt sets bit 7, and leaves the others.
pub halted_twice : (t : ℕ) → bit_or (bit_or t 128) 128 ≡ bit_or t 128
halted_twice t = omega (arith, or_halt t, or_halt (bit_or t 128))
  where
    or_halt : (t : ℕ) → bit_or t 128 ≡ t / 256 * 256 + t % 128 + 128
    or_halt t = omega (
      arith,
      even_or t 128 64 refl,
      even_or (t / 2) 64 32 refl,
      even_or (t / 2 / 2) 32 16 refl,
      even_or (t / 2 / 2 / 2) 16 8 refl,
      even_or (t / 2 / 2 / 2 / 2) 8 4 refl,
      even_or (t / 2 / 2 / 2 / 2 / 2) 4 2 refl,
      even_or (t / 2 / 2 / 2 / 2 / 2 / 2) 2 1 refl,
      or_one (t / 2 / 2 / 2 / 2 / 2 / 2 / 2),
    )

pub halt_no_trace : (t : ℕ) → bit_and t 48 ≡ 0 → bit_and (bit_or t 128) 48 ≡ 0
halt_no_trace t h =
    omega (arith, trace_bits t, trace_bits (bit_or t 128), bit-bit_or 5 t 128, bit-bit_or 4 t 128)

pub halt_halts : (t : ℕ) → nonzero (bit_and (bit_or t 128) 144) ≡ true
halt_halts t = ground (arith, halt_bits (bit_or t 128), bit-bit_or 7 t 128, bit-le-one 7 t)

-- Without tracing, only the halt bit stops the program.
pub halts_lem : (t : ℕ) → bit_and t 48 ≡ 0 → nonzero (bit_and t 144) ≡ nonzero (bit_and t 128)
halts_lem t h = ground (arith, trace_bits t, halt_bits t, bit_and-pow 7 t)
