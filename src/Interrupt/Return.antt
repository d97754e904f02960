-- ===== src/Interrupt/Return.antt =====
-- `cpu_execirq` and RTI (vm6809.c): the return from an interrupt that pushes all registers.
use c_vm.Prelude.{
  ℕ, ◌+◌, ◌≡◌, refl, sym, ap, ◌∙◌, Bool, true, false, Option, none, some, if◌then◌else◌, ltb,
}
use c_vm.Bits.{bit}
use c_vm.Flags.{setclrf}
use c_vm.Machine.{Vm, M, and_then, modify}
use c_vm.Machine.Keeps.{result_eq}
use c_vm.Signal.{setclrirqf}
use c_vm.Memory.{mem_rd16}
use c_vm.Stack.{pushstate, pullstate, system}
use c_vm.Stack.Push.{HasRoom}
use c_vm.Stack.RoundTrip.{StillThere, pullstate-pushstate}
use c_vm.Interrupt.{vector, serve}

-- Where a sequence ends in a state, its first part does.
and_then-some :
    (r : Option (Unit {0} × Vm)) (n : M (Unit {0})) (end : Vm)
    → and_then r (λ _. n) ≡ some (tt, end)
    → (mid : Vm) × (r ≡ some (tt, mid)) × (n mid ≡ some (tt, end))
and_then-some none n end e = cc
and_then-some (some (tt, mid)) n end e = (mid, refl, e)

fetched_same :
    (b : Bool) (v : ℕ) (vm end : Vm)
    → and_then (if b then some (v, vm) else none) (λ w. modify (λ r. record r { pc = w }))
      ≡ some (tt, end)
    → (end.memory ≡ vm.memory) × (end.regs.s ≡ vm.regs.s)
fetched_same false v vm end e = cc
fetched_same true v vm end e =
    (ap (λ (w : Vm). w.memory) (sym (result_eq e)), ap (λ (w : Vm). w.regs.s) (sym (result_eq e)))

-- Fetching the vector moves PC only.
vector_same :
    (addr : ℕ) (vm end : Vm)
    → vector addr vm ≡ some (tt, end)
    → (end.memory ≡ vm.memory) × (end.regs.s ≡ vm.regs.s)
unfolding mem_rd16
vector_same addr vm end e = fetched_same (ltb (addr + 1) 65536) _ vm end e

-- Whatever request is served by pushing all registers, and whatever handler runs that keeps the
-- frame, the stack pointer and the E flag: RTI brings back every register as it was interrupted,
-- but with E set in CC. The request and trap flags are those of the handler.
pub pullstate-serve :
    (flag addr : ℕ) (vm mid later : Vm)
    → HasRoom system 12 vm
    → serve flag pushstate addr vm ≡ some (tt, mid)
    → StillThere system vm.regs.s mid later
    → bit 7 later.regs.cc ≡ 1
    → pullstate later
      ≡ some (
        tt,
        record later {
          regs = record (vm.regs) {
            cc = setclrf vm.regs.cc 0x80 0;
            irq = later.regs.irq;
            trap = later.regs.trap;
          };
        },
      )
unfolding setclrirqf
pullstate-serve flag addr vm mid later room run there e =
    let lowered : Vm = record vm { regs = setclrirqf 0 flag vm.regs } in
    let pushed = and_then-some (pushstate lowered) (vector addr) mid run in
    let same = vector_same addr pushed.0 mid pushed.2 in
    pullstate-pushstate lowered pushed.0 later (record { above = room.above; below = room.below })
      pushed.1
      (record {
        pointer_same = there.pointer_same ∙ same.1;
        bytes_same = λ i lo hi. there.bytes_same i (rw same.1 lo) hi ∙ ap (λ m. m i) same.0;
      })
      e
