-- ===== src/Alu/Tests.antt =====
-- The theorems on the ALU at concrete operands.
use c_vm.Prelude.{◌+◌, ◌*◌, ◌/◌, ◌%◌, ◌≡◌, ◌&&◌, not, ◌==◌, leb, ltb, true, false, arith, refl}
use c_vm.Prelude.Int.{signed8}
use c_vm.Bits.{bit}
use c_vm.Flags.Laws.{HasFlags, as_bit}
use c_vm.Alu.{
  addf8, addcf8, subf8, subcf8, incf8, decf8, logicf8, lo_xor, shiftf8, sh_left, sh_right,
  sh_aright, decadja,
}
use c_vm.Alu.Add.{IsSum8, addf8-IsSum8, addcf8-IsSum8}
use c_vm.Alu.Sub.{IsDifference8, subf8-IsDifference8, subcf8-IsDifference8}
use c_vm.Alu.Logic.{IsLogic, logicf8-IsLogic, half_ℤ, shiftf8_lem, shiftf8_rotates}
use c_vm.Alu.Step.{incf8_and_decf8}
use c_vm.Alu.Daa.{bcd, decadja-addf8}

addf8-IsSum8_example : IsSum8 200 100 0 0x11 (addf8 200 100 0x11)
addf8-IsSum8_example = addf8-IsSum8 200 100 0x11 (omega arith) (omega arith)

addcf8-IsSum8_example : IsSum8 200 100 (bit 0 0x11) 0x11 (addcf8 200 100 0x11)
addcf8-IsSum8_example = addcf8-IsSum8 200 100 0x11 (omega arith) (omega arith)

subf8-IsDifference8_example : IsDifference8 10 200 0 0x11 (subf8 10 200 0x11)
subf8-IsDifference8_example = subf8-IsDifference8 10 200 0x11 (omega arith) (omega arith)

subcf8-IsDifference8_example : IsDifference8 10 200 (bit 0 0x11) 0x11 (subcf8 10 200 0x11)
subcf8-IsDifference8_example = subcf8-IsDifference8 10 200 0x11 (omega arith) (omega arith)

logicf8-IsLogic_example : IsLogic 0x5a 0xff lo_xor 0x03 7 (logicf8 0x5a 0xff lo_xor 0x03)
logicf8-IsLogic_example =
    logicf8-IsLogic 0x5a 0xff 0x03 (omega arith) (omega arith) lo_xor 7 (omega arith)

shiftf8_lem_example :
    (shiftf8 0x81 sh_left false 0x05 ≡ (0x81 * 2 % 256, 0x05))
    × (shiftf8 0x81 sh_right false 0x05 ≡ (0x81 / 2, 0x05))
    × (signed8 (shiftf8 0x81 sh_aright false 0x05).0 ≡ half_ℤ (signed8 0x81))
    × ((shiftf8 0x81 sh_aright false 0x05).1 ≡ 0x05)
shiftf8_lem_example = shiftf8_lem 0x81 0x05 (omega arith)

shiftf8_rotates_example :
    (bit 7 (shiftf8 0x22 sh_left true 0x01).0 ≡ 1)
    × (bit 0 (shiftf8 0x22 sh_left true 0x01).0 ≡ 0)
    × (bit 0 (shiftf8 0x22 sh_right true 0x01).0 ≡ 1)
    × (bit 7 (shiftf8 0x22 sh_right true 0x01).0 ≡ 0)
shiftf8_rotates_example = shiftf8_rotates 0x22 0x01 (omega arith) refl

incf8_and_decf8_example :
    ((incf8 127 0x01).0 ≡ (127 + 1) % 256)
    × HasFlags
        (incf8 127 0x01).1
        (bit 7 0x01)
        (bit 6 0x01)
        (bit 5 0x01)
        (bit 4 0x01)
        ((127 + 1) % 256 / 128)
        (as_bit (127 == 255))
        (as_bit (127 == 127))
        (bit 0 0x01)
    × ((decf8 127 0x01).0 ≡ (127 + 255) % 256)
    × HasFlags
        (decf8 127 0x01).1
        (bit 7 0x01)
        (bit 6 0x01)
        (bit 5 0x01)
        (bit 4 0x01)
        ((127 + 255) % 256 / 128)
        (as_bit (127 == 1))
        (as_bit (127 == 128))
        (bit 0 0x01)
incf8_and_decf8_example = incf8_and_decf8 127 0x01 (omega arith)

decadja-addf8_example :
    let (sum, cc') = addf8 (bcd 47) (bcd 55) 0 in
    let (out, cc'') = decadja sum cc' in
    (out ≡ bcd ((47 + 55) % 100))
    × (bit 0 cc''
        ≡ as_bit (leb 100 (47 + 55) && not (47 / 10 + 55 / 10 == 9 && ltb (47 % 10 + 55 % 10) 16)))
decadja-addf8_example = decadja-addf8 47 55 0 (omega arith) (omega arith)
