-- ===== src/Printk.antt =====
-- `printk` of drivers/console.c: formatted printing to the screen.
pub mod Safety
mod Tests
use hlos.Base.{ℕ, ◌+◌, Option, some}
use hlos.Bytes.{Mem}
use hlos.Console.{Screen, console_vga_write}
use hlos.Vsprintf.{◌>>=◌}
use hlos.Vsprintf.Print.{vscnprintf}

-- `LOG_LINE_MAX`
abbrev pub log_line_max : ℕ
log_line_max = 1024

-- `textbuf` is the address of the static buffer, `frame` that of the word of `fmt`, behind which the
-- arguments stand, `null_text` and `num` are those of `vsnprintf`. The result is the returned number,
-- the memory and the screen.
unfoldable pub printk :
    (fuel null_text num textbuf : ℕ) → Mem → Screen → (fmt frame : ℕ) → Option (ℕ × Mem × Screen)
unfolding vscnprintf console_vga_write
printk fuel null_text num textbuf m s fmt frame =
    vscnprintf fuel null_text num m textbuf log_line_max fmt (frame + 4) >>= λ r.
    some (r.0, r.1, console_vga_write r.1 s textbuf r.0)
