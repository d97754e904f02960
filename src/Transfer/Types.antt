-- ===== src/Transfer/Types.antt =====
-- TFR and EXG (vm6809.c), and the C types.
use c_vm.Prelude.{
  ℕ, ◌*◌, ◌/◌, ◌^◌, ◌<◌, Bool, true, false, arith, bit_or, bit_xor, bit_and, Option, some, none,
}
use c_vm.Bits.{bit_or-lt, bit_xor-lt}
use c_vm.Machine.{Regs}
use c_vm.Machine.Keeps.{IsRegs, Any, Keeps, Keeps-modify, Keeps-undefined}
use c_vm.Transfer.{
  RegName, reg_d, reg_x, reg_y, reg_u, reg_s, reg_pc, reg_a, reg_b, reg_cc, reg_dp, get, put, widen,
  narrow, transfer_sd, transfer_between, transfer, register,
}

-- The values that a register holds.
abbrev pub Held : RegName → ℕ → Type 0
Held reg_a v = v < 256
Held reg_b v = v < 256
Held reg_cc v = v < 256
Held reg_dp v = v < 256
Held _ v = v < 65536

pub get-Held : (name : RegName) (r : Regs) → IsRegs r → Held name (get name r)
get-Held reg_d r h = omega arith
get-Held reg_x r h = h.x
get-Held reg_y r h = h.y
get-Held reg_u r h = h.u
get-Held reg_s r h = h.s
get-Held reg_pc r h = h.pc
get-Held reg_a r h = h.a
get-Held reg_b r h = h.b
get-Held reg_cc r h = h.cc
get-Held reg_dp r h = h.dp

pub put-IsRegs :
    (name : RegName) (v : ℕ) (r : Regs) → Held name v → IsRegs r → IsRegs (put name v r)
put-IsRegs reg_d v r hv h = omega arith
put-IsRegs reg_x v r hv h = omega arith
put-IsRegs reg_y v r hv h = omega arith
put-IsRegs reg_u v r hv h = omega arith
put-IsRegs reg_s v r hv h = omega arith
put-IsRegs reg_pc v r hv h = omega arith
put-IsRegs reg_a v r hv h = omega arith
put-IsRegs reg_b v r hv h = omega arith
put-IsRegs reg_cc v r hv h = omega arith
put-IsRegs reg_dp v r hv h = omega arith

doubled-lt : (v : ℕ) → v < 256 → bit_or v (v * 2 ^ 8) < 65536
doubled-lt v h = bit_or-lt 16 v (v * 2 ^ 8) (omega arith) (omega arith)

pub widen-lt : (name : RegName) (v : ℕ) → Held name v → widen name v < 65536
widen-lt reg_d v h = h
widen-lt reg_x v h = h
widen-lt reg_y v h = h
widen-lt reg_u v h = h
widen-lt reg_s v h = h
widen-lt reg_pc v h = h
widen-lt reg_a v h = doubled-lt v h
widen-lt reg_b v h = doubled-lt v h
widen-lt reg_cc v h = doubled-lt v h
widen-lt reg_dp v h = doubled-lt v h

narrow-Held : (name : RegName) (v : ℕ) → v < 65536 → Held name (narrow name v)
narrow-Held reg_d v h = h
narrow-Held reg_x v h = h
narrow-Held reg_y v h = h
narrow-Held reg_u v h = h
narrow-Held reg_s v h = h
narrow-Held reg_pc v h = h
narrow-Held reg_a v h = omega arith
narrow-Held reg_b v h = omega arith
narrow-Held reg_cc v h = omega arith
narrow-Held reg_dp v h = omega arith

store-IsRegs :
    (name : RegName) (v : ℕ) (r : Regs) → v < 65536 → IsRegs r → IsRegs (put name (narrow name v) r)
store-IsRegs name v r hv h = put-IsRegs name (narrow name v) r (narrow-Held name v hv) h

transfer_sd-IsRegs :
    (src dst : RegName) (swap : Bool) (r : Regs) → IsRegs r → IsRegs (transfer_sd src dst swap r)
unfolding transfer_sd
transfer_sd-IsRegs src dst false r h = store-IsRegs dst _ r (widen-lt src _ (get-Held src r h)) h
transfer_sd-IsRegs src dst true r h =
    let s : ℕ = widen src (get src r) in
    let t : ℕ = widen dst (get dst r) in
    let hs : s < 65536 = widen-lt src _ (get-Held src r h) in
    let ht : t < 65536 = widen-lt dst _ (get-Held dst r h) in
    let h1 : bit_xor s t < 65536 = bit_xor-lt 16 s t hs ht in
    let h2 : bit_xor t (bit_xor s t) < 65536 = bit_xor-lt 16 t (bit_xor s t) ht h1 in
    store-IsRegs dst _ _ h2
      (store-IsRegs src _ r (bit_xor-lt 16 (bit_xor s t) (bit_xor t (bit_xor s t)) h1 h2) h)

transfer_between-Keeps :
    (dst src : Option RegName) (swap : Bool) → Keeps Any (transfer_between dst src swap)
transfer_between-Keeps (some dst) (some src) swap = Keeps-modify _ (transfer_sd-IsRegs src dst swap)
transfer_between-Keeps (some dst) none swap = Keeps-undefined Any
transfer_between-Keeps none src swap = Keeps-undefined Any

pub transfer-Keeps : (post : ℕ) (swap : Bool) → Keeps Any (transfer post swap)
unfolding transfer
transfer-Keeps post swap =
    transfer_between-Keeps (register (bit_and post 0x0f)) (register (post / 2 ^ 4)) swap
