-- ===== src/Console/Tests.antt =====
-- A text of three characters on the last column, and a scroll.
use hlos.Base.{◌≡◌, refl, [], ◌∷◌, arith, get_or}
use hlos.Bytes.{Mem}
use hlos.Console.{Screen, console_vga_write, write_loop, put_char, cell_of, scroll, move_cursor}
use hlos.Console.Scroll.{scroll_lem}
use hlos.Console.Bounds.{IsWithin, console_vga_write-IsWithin}

-- "ab", a line feed and "c" at 1
abbrev memory : Mem
memory a = get_or (0 ∷ b'a' ∷ b'b' ∷ b'\n' ∷ b'c' ∷ []) a 0

abbrev start : Screen
start = record { cells = λ a. a; xpos = 79; ypos = 3; log = [] }

abbrev bottom : Screen
bottom = record { cells = λ a. a; xpos = 5; ypos = 25; log = [] }

abbrev written : Screen
written = console_vga_write memory start 1 9

written_cursor : (written.xpos ≡ 1) × (written.ypos ≡ 5) × (written.cells 319 ≡ 0x761)
unfolding console_vga_write write_loop put_char scroll move_cursor cell_of
written_cursor = (refl, refl, refl)

console_vga_write-IsWithin_example : IsWithin bottom (console_vga_write memory bottom 1 9)
console_vga_write-IsWithin_example =
    console_vga_write-IsWithin memory bottom 1 9 (omega arith, omega arith)

scroll_lem_run :
    ((scroll bottom).cells 100 ≡ 180) × ((scroll bottom).ypos ≡ 24) × ((scroll bottom).xpos ≡ 5)
scroll_lem_run = scroll_lem bottom 100 (omega arith)
