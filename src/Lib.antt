-- ===== src/Lib.antt =====
-- Verification of c_vm6809, a virtual machine for the Motorola 6809.
--
-- The program is a CPU (vm6809.c) with 64 K bytes of memory (vmmemory.c), a terminal interface
-- behind five addresses of the memory (vmtermio.c), a monitor (vmmonitor.c), and a main loop
-- (main.c) that runs the terminal, the interrupts, the monitor and one instruction in turn. The
-- CPU reads and writes memory; memory passes the five addresses on to the UART; the UART requests
-- interrupts of the CPU.
--
-- The global variables are one record, `Vm` of Machine: registers, status, memory, UART, and
-- two lists of characters: those that `os_putchar_nowait` writes at once, and those of `printf`, which
-- wait in a buffer; the order between the two is left open. A function of C that uses them is a
-- command `M A = Vm → Option (A × Vm)`,
-- where `none` is undefined behaviour: an access outside the memory array, or through a null
-- pointer. Functions that only compute a value and flags take the flags as an argument.
--
--   Machine     vm6809.h, the globals and ERROREXIT; Machine/Keeps has the values of the C types
--   Flags       the helpers on the condition codes (_setclrf, _nsign8, _flags_nz_v8, ...)
--   Alu         _addf8 to _shiftf8 and _decadja
--   Signal      cpu_irq, cpu_firq, cpu_nmi, cpu_reset and the request flags
--   Uart        vmtermio.c
--   Memory      vmmemory.c
--   Stack       _pushregs, _pullregs, _pushfast, _pushstate, _pullstate
--   Address     _eadirect to _eafromopc
--   Transfer    _register, _transfer_sd, _transfer
--   Decode      the opcodes, and the labels of the three switches of cpu_execop and its pages
--   Execute     the bodies of their cases, and cpu_execop
--   Interrupt   cpu_execirq
--   Monitor     vmmonitor.c: Breakpoint (the table of break points), Console (_getline, _getval),
--               Memory and Files (the loops over memory, the files and paths), Trap and Commands
--               (the trap field, _readoptval, _execcmd_*), Prompt (_execcmd and mon_execmon)
--   Text        the conversions of printf; Text/Registers, Text/Dump and Text/Help: the texts of
--               mon_printreg, mon_printreg_short, mon_printmem, _execcmd_question and others
--   System      the state of the whole program and commands on it; System/Strings has os_sprintf of
--               os.c, System/Holds and System/Kept what commands keep
--   Startup     cpu_init6809, mon_init and main.c up to its loop; MainLoop: the loop
--   Prelude     names of the libraries, tests on numbers, integers; Bits: bits of a number
--
-- The functions of the monitor and of main.c use more: `System` has the machine, the monitor, the
-- break points, the signal, the statics of mon_execmon, the registers printed last and the input that
-- is left. A command there is
-- `Run A = System → Outcome A`; it ends with a result, by `exit(0)`, by the failed assertion of os.c,
-- in undefined behaviour, or it has used up its fuel. Two loops have fuel. The fill of `m=` has fuel
-- for the 65536 addresses, which is enough wherever it ends. The prompt takes its fuel as an argument;
-- more than the number of characters of input is enough, and at the end of the input it loops for ever.
-- The host's files are a parameter, a function of the path. One event for each round of the main loop
-- says whether Ctrl-C has been pressed since the round before, and which character the terminal has
-- ready; a signal in the middle of a round is seen in the next.
--
-- Numbers are natural numbers, with the conversions to `uint8_t` and `uint16_t` written out, and an
-- `int` that is read is its word of 32 bits. A and B are the fields of the registers and D is computed
-- from them, as the union lays them out on a little-endian host, which the program checks at its
-- start. `toupper` is a parameter.
--
-- Not modelled: the text of ERROREXIT, which has a line number of the source, mon_printstatus, which
-- nothing calls, and what `system` prints: the list of files, and the clearing of the screen; the terminal modes and characters of the host in os.c, conio.c, raw.c and mygetch.c; `_internal_loopback`,
-- which nothing calls; and the code under `#ifdef obsolete`.
pub mod Prelude
pub mod Bits
pub mod Machine
pub mod Flags
pub mod Alu
pub mod Signal
pub mod Uart
pub mod Memory
pub mod Stack
pub mod Address
pub mod Transfer
pub mod Decode
pub mod Execute
pub mod Interrupt
pub mod Monitor
pub mod Text
pub mod System
pub mod Startup
pub mod MainLoop
