-- ===== src/Startup/Tests.antt =====
-- The theorem on the start of the program, with a file of two bytes.
use c_vm.Prelude.{ℕ, ◌≡◌, List, [], ◌∷◌, Option, some, ltb, length, if◌then◌else◌}
use c_vm.System.{done, aborted}
use c_vm.Startup.{static_system, startup}
use c_vm.Startup.Boot.{boot_file, booted, startup_lem}

-- Two instructions: no operation, and a branch to itself.
abbrev files : List ℕ → Option (List ℕ)
files path = some (0x12 ∷ 0x20 ∷ 0xfe ∷ [])

-- "vm"
abbrev from_path : List ℕ
from_path = b'v' ∷ b'm' ∷ []

startup_lem_example :
    startup files from_path (static_system [])
    ≡ (if ltb (length from_path) 80 then done tt (booted (files boot_file) []) else aborted)
startup_lem_example = startup_lem files from_path []
