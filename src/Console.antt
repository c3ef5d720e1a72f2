-- ===== src/Console.antt =====
-- drivers/console.c: the text screen. `cells` is `video_memory` by index, also outside the screen;
-- `xpos` and `ypos` have 8 bits, and `max_xpos` and `max_ypos` keep their values 80 and 25.
pub mod Scroll
pub mod Bounds
mod Tests
use hlos.Base.{ℕ, zero, suc, ◌+◌, ◌*◌, ◌/◌, ◌%◌, ◌^◌, bit_or, not, ◌==◌, leb, ltb, if◌then◌else◌}
use hlos.Links.{update}
use hlos.Bytes.{Mem}
use hlos.Io.{Log, outb}

pub record Screen : Type 0 where
  pub cells : ℕ → ℕ
  pub xpos : ℕ
  pub ypos : ℕ
  pub log : Log

unfoldable pub move_cursor : Screen → Screen
move_cursor s =
    let cursor_location = (s.ypos * 80 + s.xpos) % 2 ^ 16 in
    record s {
      log =
          outb (outb (outb (outb s.log 0x3d4 14) 0x3d5 (cursor_location / 256)) 0x3d4 15) 0x3d5
            cursor_location;
    }

-- `count` blanks from cell `i` on.
unfoldable pub blank : ℕ → (ℕ → ℕ) → ℕ → ℕ → ℕ
blank zero cells i = cells
blank (suc count) cells i = blank count (update cells i 0x720) (i + 1)

unfoldable pub console_init : Screen → Screen
console_init s = move_cursor (record s { cells = blank (80 * 25) s.cells 0; xpos = 0; ypos = 0 })

-- The inner loop of the scroll, with `count` columns left.
unfoldable pub copy_line : ℕ → (ℕ → ℕ) → (k j i : ℕ) → ℕ → ℕ
copy_line zero cells k j i = cells
copy_line (suc count) cells k j i =
    copy_line count (update cells (80 * j + i) (cells (80 * k + i))) k j (i + 1)

-- The outer loop, with `count` lines left.
unfoldable pub copy_lines : ℕ → (ℕ → ℕ) → (k j : ℕ) → ℕ → ℕ
copy_lines zero cells k j = cells
copy_lines (suc count) cells k j = copy_lines count (copy_line 80 cells k j 0) (k + 1) (j + 1)

unfoldable pub scroll : Screen → Screen
scroll s =
    if leb 25 s.ypos
    then record s { cells = blank 80 (copy_lines 24 s.cells 1 0) (80 * 24); ypos = 24 }
    else s

-- `(0x7 << 8) | (unsigned short) c`, where `c` is a signed char given by its bits.
unfoldable pub cell_of : ℕ → ℕ
cell_of c = bit_or 0x700 (if ltb c 128 then c else 0xff00 + c)

unfoldable pub put_char : Screen → ℕ → Screen
put_char s c =
    if c == b'\n'
    then record s { xpos = 0; ypos = (s.ypos + 1) % 256 }
    else if not (c == b'\r')
    then (let written = update s.cells (80 * s.ypos + s.xpos) (cell_of c) in
        let right = (s.xpos + 1) % 256 in
        if leb 80 right
        then record s { cells = written; xpos = 0; ypos = (s.ypos + 1) % 256 }
        else record s { cells = written; xpos = right })
    else s

unfoldable pub write_loop : Mem → Screen → (str n : ℕ) → Screen
write_loop m s str zero = s
write_loop m s str (suc n) =
    if m str == 0 then s else write_loop m (put_char (scroll s) (m str)) (str + 1) n

unfoldable pub console_vga_write : Mem → Screen → (str n : ℕ) → Screen
console_vga_write m s str n = move_cursor (write_loop m s str n)
