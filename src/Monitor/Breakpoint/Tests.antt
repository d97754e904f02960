-- ===== src/Monitor/Breakpoint/Tests.antt =====
-- The theorems on break points on a table in which all four are set.
use c_vm.Prelude.{◌≡◌, refl, true, false, not, ◌&&◌, ◌||◌, ◌==◌, if◌then◌else◌}
use c_vm.Monitor.Breakpoint.{
  Table, empty_table, find_breakpoint, find_nextbest, setclr_breakpoint, toggle_breakpoint,
  breakpoint_hit,
}
use c_vm.Monitor.Breakpoint.Shape.{IsTable}
use c_vm.Monitor.Breakpoint.Laws.{
  empty_table-IsTable, table_ops-IsTable, gives_way, present, breakpoint_hit_set,
  breakpoint_hit_changed,
}

abbrev two : Table
two = setclr_breakpoint 0x2000 true (setclr_breakpoint 0x1000 true empty_table)

abbrev full : Table
full = setclr_breakpoint 0x4000 true (setclr_breakpoint 0x3000 true two)

two-IsTable : IsTable two
two-IsTable =
    (table_ops-IsTable 0x2000 _ (table_ops-IsTable 0x1000 empty_table empty_table-IsTable).0).0

full-IsTable : IsTable full
full-IsTable = (table_ops-IsTable 0x4000 _ (table_ops-IsTable 0x3000 two two-IsTable).0).0

breakpoint_hit_set_example :
    breakpoint_hit 0x1000 (setclr_breakpoint 0x5000 true full)
    ≡ (0x5000 == 0x1000 || breakpoint_hit 0x1000 full && not (gives_way 0x5000 full 0x1000))
breakpoint_hit_set_example = breakpoint_hit_set 0x5000 0x1000 full full-IsTable

breakpoint_hit_changed_example :
    (breakpoint_hit 0x3000 (setclr_breakpoint 0x3000 false full)
      ≡ breakpoint_hit 0x3000 full && not (0x3000 == 0x3000))
    × (breakpoint_hit 0x3000 (toggle_breakpoint 0x3000 full) ≡ (
        if present 0x3000 full && 0x3000 == 0x3000
        then not (breakpoint_hit 0x3000 full)
        else breakpoint_hit 0x3000 full))
breakpoint_hit_changed_example = breakpoint_hit_changed 0x3000 0x3000 full full-IsTable

-- The fifth break point takes the place of the first.
fifth_set : breakpoint_hit 0x1000 (setclr_breakpoint 0x5000 true full) ≡ false
unfolding breakpoint_hit setclr_breakpoint find_breakpoint find_nextbest
fifth_set = refl
