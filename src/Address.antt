-- ===== src/Address.antt =====
-- Effective addresses (vm6809.c): the operand bytes behind an opcode, and the address they mean.
pub mod Types
pub mod Offsets
pub mod PostByte
pub mod Indexed
mod Tests
use c_vm.Prelude.{
  ℕ, ◌+◌, ◌-◌, ◌*◌, ◌/◌, ◌%◌, ◌<◌, ◌^◌, bit_and, bit_or, Bool, true, false, not, ◌&&◌, ◌||◌, Option,
  none, some, ◌==◌, ltb, nonzero, u8, u16, if◌then◌else◌,
}
use c_vm.Machine.{
  StatusCode, ok, invalid_postcode, undefined_adressing_mode, Regs, Vm, M, d, pure, ◌>>=◌, ◌>>◌,
  reads, modify, errorexit, eyecatcher_16,
}
use c_vm.Memory.{mem_rd8, mem_rd16}

-- `_sext58` and `_sext816`
unfoldable pub sext58 : ℕ → ℕ
sext58 bits5 =
    if nonzero (bit_and bits5 0x10) then bit_or 0xe0 (bit_and bits5 0x1f) else bit_and bits5 0x1f

unfoldable pub sext816 : ℕ → ℕ
sext816 bits8 = if nonzero (bit_and bits8 0x80) then bit_or 0xff00 bits8 else bits8

-- `cpu_regs.pc += n`
abbrev pub advance : ℕ → M (Unit {0})
advance n = modify (λ r. record r { pc = u16 (r.pc + n) })

-- `mem_rd8(cpu_regs.pc++)`
unfoldable pub fetch8 : M ℕ
unfolding mem_rd8
fetch8 = do p ← reads (λ r. r.pc); advance 1; mem_rd8 p

-- `mem_rd16(cpu_regs.pc)` and `cpu_regs.pc += 2`
unfoldable pub fetch16 : M ℕ
unfolding mem_rd16
fetch16 = do p ← reads (λ r. r.pc); v ← mem_rd16 p; advance 2; pure v

-- `_eadirect`
unfoldable pub eadirect : M ℕ
unfolding fetch8
eadirect = do low ← fetch8; high ← reads (λ r. r.dp); pure (bit_or (high * 2 ^ 8) low)

-- The register that bits 5 and 6 of a post byte name.
pub data IndexReg : Type 0 where
  index_x index_y index_u index_s : IndexReg

abbrev pub index_of : ℕ → IndexReg
index_of post =
    let n = bit_and (post / 2 ^ 5) 0x03 in
    if n == 0 then index_x else if n == 1 then index_y else if n == 2 then index_u else index_s

abbrev pub index_value : IndexReg → Regs → ℕ
index_value index_x r = r.x
index_value index_y r = r.y
index_value index_u r = r.u
index_value index_s r = r.s

abbrev pub put_index : IndexReg → ℕ → Regs → Regs
put_index index_x v r = record r { x = v }
put_index index_y v r = record r { y = v }
put_index index_u v r = record r { u = v }
put_index index_s v r = record r { s = v }

-- `*preg += n`
abbrev pub step_index : IndexReg → ℕ → M (Unit {0})
step_index i n = modify (λ r. put_index i (u16 (index_value i r + n)) r)

-- `*preg + ofs`
abbrev pub offset : IndexReg → ℕ → M ℕ
offset i ofs = reads (λ r. u16 (index_value i r + ofs))

-- The switch of `_eaindexed` on `post & 0x8f`. The 16-bit offset steps PC once only.
unfoldable pub indexed_ea : ℕ → IndexReg → M ℕ
unfolding fetch8 fetch16 mem_rd16 sext58 sext816
indexed_ea post i =
    let mode = bit_and post 0x8f in
    if ltb mode 0x20
    then offset i (sext816 (sext58 post))
    else if mode == 0x80
    then (do ea ← offset i 0; step_index i 1; pure ea)
    else if mode == 0x81
    then (do ea ← offset i 0; step_index i 2; pure ea)
    else if mode == 0x82
    then (do step_index i 65535; offset i 0)
    else if mode == 0x83
    then (do step_index i 65534; offset i 0)
    else if mode == 0x84
    then offset i 0
    else if mode == 0x85
    then (do b ← reads (λ r. r.b); offset i (sext816 b))
    else if mode == 0x86
    then (do a ← reads (λ r. r.a); offset i (sext816 a))
    else if mode == 0x88
    then (do ofs ← fetch8; offset i (sext816 ofs))
    else if mode == 0x89
    then (do p ← reads (λ r. r.pc); advance 1; ofs ← mem_rd16 p; offset i ofs)
    else if mode == 0x8b
    then (do ofs ← reads d; offset i ofs)
    else if mode == 0x8c
    then (do ofs ← fetch8; reads (λ r. u16 (r.pc + sext816 ofs)))
    else if mode == 0x8d
    then (do ofs ← fetch16; reads (λ r. u16 (r.pc + ofs)))
    else if mode == 0x8f
    then fetch16
    else (λ vm. some (eyecatcher_16, record vm { status = invalid_postcode }))

-- The flag `ind`, which the 5-bit offsets clear.
abbrev pub indirect : ℕ → Bool
indirect post = nonzero (bit_and post 0x10) && not (ltb (bit_and post 0x8f) 0x20)

abbrev pub is_ok : StatusCode → Bool
is_ok ok = true
is_ok _ = false

-- `_eaindexed`
unfoldable pub eaindexed : M ℕ
unfolding fetch8 indexed_ea mem_rd16
eaindexed = do
  post ← fetch8
  ea ← indexed_ea post (index_of post)
  (λ vm. if indirect post && is_ok vm.status then mem_rd16 ea vm else some (ea, vm))

-- `_earelative`
unfoldable pub earelative : ℕ → M ℕ
unfolding mem_rd8 mem_rd16 sext816
earelative nbyte = do
  p ← reads (λ r. r.pc)
  ofs ← (if ltb 1 nbyte then mem_rd16 p else (do v ← mem_rd8 p; pure (sext816 v)))
  advance nbyte
  reads (λ r. u16 (r.pc + ofs))

-- `_eaextended` and `_eaimmediate`
unfoldable pub eaextended : M ℕ
unfolding fetch16
eaextended = fetch16

unfoldable pub eaimmediate : ℕ → M ℕ
eaimmediate nbyte = do ea ← reads (λ r. r.pc); advance nbyte; pure ea

-- The addressing modes that `_eafromopc` tells apart.
pub data Mode : Type 0 where
  direct indexed extended inherent undefined_mode : Mode
  relative immediate : ℕ → Mode

-- The switch of `_eafromopc` on the high nibble, and inside it on the low one.
unfoldable pub mode_of : ℕ → Mode
mode_of opc =
    let high = opc / 2 ^ 4 in
    let low = bit_and opc 0x0f in
    if high == 0
    then direct
    else if high == 1
    then (if low == 2 || low == 3 || low == 9 || low == 0xd
        then inherent
        else if low == 6 || low == 7
        then relative 2
        else immediate 1)
    else if high == 2
    then relative 1
    else if high == 3
    then (if ltb low 4 then indexed else if ltb low 8 then immediate 1 else inherent)
    else if high == 4 || high == 5
    then inherent
    else if high == 6 || high == 0xa || high == 0xe
    then indexed
    else if high == 7 || high == 0xb || high == 0xf
    then extended
    else if high == 8 || high == 0xc
    then (if low == 3 || low == 0xc || low == 0xe then immediate 2 else immediate 1)
    else if high == 9 || high == 0xd
    then direct
    else undefined_mode

-- What each case of `_eafromopc` returns.
unfoldable pub ea_of_mode : Mode → M ℕ
unfolding eadirect eaindexed eaextended earelative eaimmediate errorexit
ea_of_mode direct = eadirect
ea_of_mode indexed = eaindexed
ea_of_mode extended = eaextended
ea_of_mode inherent = pure eyecatcher_16
ea_of_mode (relative n) = earelative n
ea_of_mode (immediate n) = eaimmediate n
ea_of_mode undefined_mode = errorexit undefined_adressing_mode >> pure eyecatcher_16

-- `_eafromopc`
unfoldable pub eafromopc : ℕ → M ℕ
unfolding mode_of ea_of_mode
eafromopc opc = ea_of_mode (mode_of opc)
