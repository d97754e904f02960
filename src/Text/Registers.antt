-- ===== src/Text/Registers.antt =====
-- The texts of `mon_printreg` and `mon_printreg_short` (vmmonitor.c), and of the other lines that
-- show a state of the machine or of the monitor.
use c_vm.Prelude.{
  ℕ, ◌+◌, ◌%◌, bit_and, Bool, not, ◌||◌, List, [], ◌∷◌, ◌++◌, ◌==◌, nonzero, if◌then◌else◌,
}
use c_vm.Flags.{cc_e, cc_f, cc_h, cc_i, cc_n, cc_z, cc_v, cc_c}
use c_vm.Machine.{Regs, d}
use c_vm.Signal.{irq_rst, irq_irq, irq_firq, irq_nmi, irq_swi, irq_swi2, irq_swi3}
use c_vm.Monitor.Breakpoint.{Breakpoint, is_set, is_enabled, bps_enabled}
use c_vm.Text.{chars, join, newline, pad, hex2, hex4, dec, plus_dec, is_print}

-- `"(%5d/%+6d)"`
abbrev pub both_decimals : ℕ → ℕ → List ℕ
both_decimals w v =
    join (chars "(" ∷ pad 5 (dec v) ∷ chars "/" ∷ pad 6 (plus_dec w v) ∷ chars ")" ∷ [])

-- `'c'`, or `---`.
abbrev pub quoted : ℕ → List ℕ
quoted c = if is_print c then b'\'' ∷ c ∷ b'\'' ∷ [] else chars "---"

-- `%c%c%c%c%c%c%c%c` of the flags, or of the requests.
abbrev pub letter : ℕ → ℕ → ℕ → ℕ
letter codes flag c = if nonzero (bit_and codes flag) then c else b'-'

abbrev pub flag_letters : ℕ → List ℕ
flag_letters codes =
    letter codes cc_e b'E'
    ∷ letter codes cc_f b'F'
    ∷ letter codes cc_h b'H'
    ∷ letter codes cc_i b'I'
    ∷ letter codes cc_n b'N'
    ∷ letter codes cc_z b'Z'
    ∷ letter codes cc_v b'V'
    ∷ letter codes cc_c b'C'
    ∷ []

abbrev pub irq_letters : ℕ → List ℕ
irq_letters irq =
    letter irq irq_rst b'r'
    ∷ letter irq irq_nmi b'n'
    ∷ letter irq irq_firq b'f'
    ∷ letter irq irq_irq b'i'
    ∷ letter irq irq_swi b's'
    ∷ letter irq irq_swi2 b'2'
    ∷ letter irq irq_swi3 b'3'
    ∷ []

abbrev pub word_line : ℕ → ℕ → List ℕ
word_line name v = join ((b' ' ∷ name ∷ b':' ∷ []) ∷ hex4 v ∷ chars " " ∷ both_decimals 16 v ∷ [])

-- `mon_printreg`
abbrev pub byte_registers : Regs → List ℕ
byte_registers r = join (
    chars " A:  "
    ∷ hex2 r.a
    ∷ chars " "
    ∷ both_decimals 8 r.a
    ∷ chars "   B:  "
    ∷ hex2 r.b
    ∷ chars " "
    ∷ both_decimals 8 r.b
    ∷ newline
    ∷ chars "    "
    ∷ quoted r.a
    ∷ chars "                     "
    ∷ quoted r.b
    ∷ newline
    ∷ [])

abbrev pub word_registers : Regs → List ℕ
word_registers r = join (
    word_line b'D' (d r)
    ∷ newline
    ∷ word_line b'X' r.x
    ∷ chars "  "
    ∷ word_line b'Y' r.y
    ∷ newline
    ∷ word_line b'S' r.s
    ∷ chars "  "
    ∷ word_line b'U' r.u
    ∷ newline
    ∷ [])

abbrev pub last_registers : Regs → List ℕ
last_registers r = join (
    chars "PC:"
    ∷ hex4 r.pc
    ∷ chars "                 DP:  "
    ∷ hex2 r.dp
    ∷ chars "                 CC:"
    ∷ hex2 r.cc
    ∷ chars " ("
    ∷ flag_letters r.cc
    ∷ chars ")\n"
    ∷ [])

unfoldable pub printreg_text : Regs → List ℕ
printreg_text r = join (byte_registers r ∷ word_registers r ∷ last_registers r ∷ [])

-- The fields of the short line: the value if it has changed or if there is a header.
abbrev pub field : Bool → ℕ → ℕ → List ℕ → List ℕ → List ℕ
field hdr now before text same = if not (now == before) || hdr then text else same

abbrev pub short_flag : ℕ → ℕ → ℕ → List ℕ → List ℕ
short_flag codes flag c rest = if nonzero (bit_and codes flag) then c ∷ rest else rest

-- `scc` where it is written: the letters of the flags that are set, or `0`.
abbrev pub short_flags : ℕ → List ℕ
short_flags codes = short_flag codes cc_e b'E' (
    short_flag codes cc_f b'F' (
      short_flag codes cc_h b'H' (
        short_flag codes cc_i b'I' (
          short_flag codes cc_n b'N' (
            short_flag codes cc_z b'Z' (
              short_flag codes cc_v b'V'
                (short_flag codes cc_c b'C' (if codes == 0 then b'0' ∷ [] else []))))))))

abbrev pub shown_char : ℕ → List ℕ
shown_char c = if is_print c then c ∷ [] else b' ' ∷ []

abbrev pub blank4 : List ℕ
blank4 = chars ".   "

abbrev pub blank2 : List ℕ
blank2 = chars ". "

-- `mon_printreg_short`, with the registers that it printed last and the four bytes from the PC on.
abbrev pub header_text : List ℕ
header_text = chars "\nPC    @PC          D/A  D/B  DP S    U    X    Y    CC"

abbrev pub byte_field : Bool → ℕ → ℕ → List ℕ
byte_field hdr now before = field hdr now before (hex2 now) blank2

abbrev pub word_field : Bool → ℕ → ℕ → List ℕ
word_field hdr now before = field hdr now before (hex4 now) blank4

abbrev pub char_field : Bool → ℕ → ℕ → List ℕ
char_field hdr now before = field hdr now before (shown_char now) (chars " ")

abbrev pub memory_field : ℕ → (ℕ → ℕ) → List ℕ
memory_field pc memory = join (
    hex2 (memory pc)
    ∷ chars " "
    ∷ hex2 (memory (pc + 1))
    ∷ chars " "
    ∷ hex2 (memory (pc + 2))
    ∷ chars " "
    ∷ hex2 (memory (pc + 3))
    ∷ [])

abbrev pub line_text : Bool → Regs → Regs → (ℕ → ℕ) → List ℕ
line_text hdr prev r memory = join (
    newline
    ∷ word_field hdr r.pc prev.pc
    ∷ chars "  "
    ∷ memory_field r.pc memory
    ∷ chars "  "
    ∷ byte_field hdr r.a prev.a
    ∷ chars " "
    ∷ char_field hdr r.a prev.a
    ∷ chars " "
    ∷ byte_field hdr r.b prev.b
    ∷ chars " "
    ∷ char_field hdr r.b prev.b
    ∷ chars " "
    ∷ byte_field hdr r.dp prev.dp
    ∷ chars " "
    ∷ word_field hdr r.s prev.s
    ∷ chars " "
    ∷ word_field hdr r.u prev.u
    ∷ chars " "
    ∷ word_field hdr r.x prev.x
    ∷ chars " "
    ∷ word_field hdr r.y prev.y
    ∷ chars " "
    ∷ field hdr r.cc prev.cc (short_flags r.cc) (chars ".       ")
    ∷ [])

unfoldable pub printreg_short_text : Bool → Regs → Regs → (ℕ → ℕ) → List ℕ
printreg_short_text hdr prev r memory =
    (if hdr then header_text else []) ++ line_text hdr prev r memory

-- `_showset`
abbrev pub showset_text : List ℕ → Bool → List ℕ
showset_text name set =
    join (chars "  " ∷ name ∷ chars " " ∷ (if set then chars "on" else chars "off") ∷ newline ∷ [])

-- `"  %01d:%04x %s %s\n"`
abbrev pub slot_text : ℕ → ℕ → List ℕ → List ℕ → List ℕ
slot_text i addr set enabled = join (
    chars "  "
    ∷ dec i
    ∷ chars ":"
    ∷ hex4 addr
    ∷ chars " "
    ∷ set
    ∷ chars " "
    ∷ enabled
    ∷ newline
    ∷ [])

abbrev pub set_word : Breakpoint → List ℕ
set_word b = if is_set b then chars "set " else chars "free"

abbrev pub enabled_word : Bool → List ℕ
enabled_word on = if on then chars "enabled " else chars "disabled"

-- The line of `_setclr_breakpoint`, whose last test is a remainder; that of `_toggle_breakpoint`;
-- and the lines of `_list_breakpoints`.
unfoldable pub setclr_text : ℕ → ℕ → Breakpoint → List ℕ
setclr_text i addr b =
    slot_text i addr (set_word b) (enabled_word (nonzero (b.status % bps_enabled)))

unfoldable pub toggle_text : ℕ → ℕ → Breakpoint → List ℕ
toggle_text i addr b = join (
    chars "  "
    ∷ dec i
    ∷ chars ":"
    ∷ hex4 addr
    ∷ chars " "
    ∷ (if is_enabled b then chars "enabled" else chars "disabled")
    ∷ newline
    ∷ [])

unfoldable pub list_text : ℕ → List Breakpoint → List ℕ
list_text i [] = []
list_text i (b ∷ bs) =
    slot_text i b.address (set_word b) (enabled_word (is_enabled b)) ++ list_text (i + 1) bs

-- `_execcmd_i` with no option.
unfoldable pub irq_text : ℕ → List ℕ
irq_text irq = join (chars "  " ∷ irq_letters irq ∷ newline ∷ [])

-- `_pvector`, with the name in four characters.
abbrev pub vector_text : List ℕ → ℕ → ℕ → List ℕ
vector_text name addr v =
    join (chars "  " ∷ pad 4 name ∷ chars ":" ∷ hex4 addr ∷ chars " " ∷ hex4 v ∷ newline ∷ [])
