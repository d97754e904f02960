-- ===== src/Flags.antt =====
-- The condition code flags (vm6809.c, vm6809.h): signs, carries, and setting and clearing flags.
pub mod Laws
use c_vm.Prelude.{
  ℕ, ◌/◌, ◌^◌, bit_and, bit_or, ◌≡◌, Bool, true, false, not, ◌&&◌, ◌||◌, ◌==◌, nonzero, not8,
  if◌then◌else◌,
}

-- `cpu_ccflags_6809`
abbrev pub cc_e : ℕ
cc_e = 128

abbrev pub cc_f : ℕ
cc_f = 64

abbrev pub cc_h : ℕ
cc_h = 32

abbrev pub cc_i : ℕ
cc_i = 16

abbrev pub cc_n : ℕ
cc_n = 8

abbrev pub cc_z : ℕ
cc_z = 4

abbrev pub cc_v : ℕ
cc_v = 2

abbrev pub cc_c : ℕ
cc_c = 1

-- `_setclrf`: the flags of `clr` are cleared before those of `set` are set.
unfoldable pub setclrf : ℕ → ℕ → ℕ → ℕ
setclrf reg set clr = bit_or (bit_and reg (not8 clr)) set

-- `_nsign8`, `_nsign16`
unfoldable pub nsign8 : ℕ → ℕ
nsign8 a = bit_and a 0x80 / 2 ^ 7

unfoldable pub nsign16 : ℕ → ℕ
nsign16 a = bit_and a 0x8000 / 2 ^ 15

-- `_carry8`, `_carry16`
unfoldable pub carry8 : ℕ → ℕ
carry8 a = bit_and a 0x0100 / 2 ^ 8

unfoldable pub carry16 : ℕ → ℕ
carry16 a = bit_and a 0x010000 / 2 ^ 16

-- The local variables `set` and `clr` of the functions that compute flags.
pub record Marks : Type 0 where
  pub set : ℕ
  pub clr : ℕ

-- `*(test ? &set : &clr) |= flag`
unfoldable pub mark : Bool → ℕ → Marks → Marks
mark test flag m =
    if test then record m { set = bit_or m.set flag } else record m { clr = bit_or m.clr flag }

-- `uint8_t set=0, clr=0` and `uint8_t set=0, clr=cc_v`
abbrev pub no_marks : Marks
no_marks = record { set = 0; clr = 0 }

abbrev pub clear_v : Marks
clear_v = record { set = 0; clr = 2 }

-- `_setclrccf(set, clr)` on the flags `cc`.
unfoldable pub apply : ℕ → Marks → ℕ
unfolding setclrf
apply cc m = setclrf cc m.set m.clr

-- `_flags_nz_v8`, `_flags_nz_v16` and `_flags_z16` on the flags `cc`.
unfoldable pub flags_nz_v8 : ℕ → ℕ → ℕ
unfolding apply mark nsign8
flags_nz_v8 a cc = apply cc (mark (not (nonzero a)) cc_z (mark (nonzero (nsign8 a)) cc_n clear_v))

unfoldable pub flags_nz_v16 : ℕ → ℕ → ℕ
unfolding apply mark nsign16
flags_nz_v16 a cc = apply cc (mark (not (nonzero a)) cc_z (mark (nonzero (nsign16 a)) cc_n clear_v))

unfoldable pub flags_z16 : ℕ → ℕ → ℕ
unfolding apply mark
flags_z16 a cc = apply cc (mark (not (nonzero a)) cc_z no_marks)

-- `_sameccf` and `_orccf` on the flags `cc`.
unfoldable pub sameccf : ℕ → ℕ → Bool
sameccf flags cc = bit_and cc flags == flags || not (nonzero (bit_and cc flags))

unfoldable pub orccf : ℕ → ℕ → ℕ
orccf flags cc = bit_and cc flags
