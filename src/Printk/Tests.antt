-- ===== src/Printk/Tests.antt =====
-- The message "hi" on an empty screen.
use hlos.Base.{
  ℕ, ◌-◌, ◌≡◌, refl, inr, [], ◌∷◌, Option, none, some, arith, get_or, leb, if◌then◌else◌,
}
use hlos.Bytes.{Mem, memcpy}
use hlos.Console.{Screen, console_vga_write}
use hlos.Printk.{printk}
use hlos.Printk.Safety.{IsSafe, printk-IsSafe, printk-IsText}
use hlos.Vsprintf.Decode.{find_percent, from_start, format_decode}
use hlos.Vsprintf.Print.{
  put_text, print_as, print_one, print_loop, terminate, vsnprintf, vscnprintf,
}
use hlos.Vsprintf.Loop.{no_count}
use hlos.Vsprintf.Plain.{IsText}

abbrev message : Mem
message p = if leb 16 p then get_or (b'h' ∷ b'i' ∷ []) (p - 16) 0 else 0

abbrev empty : Screen
empty = record { cells = λ a. 0; xpos = 0; ypos = 0; log = [] }

printk-IsText_example :
    (m' : Mem) × (printk 9 7 0 64 message empty 16 8192
      ≡ some (2, m', console_vga_write m' empty 64 2))
    × IsText message 64 1024 16 2 m'
printk-IsText_example =
    printk-IsText 9 7 0 64 message empty 16 8192 (b'h' ∷ b'i' ∷ [])
      (refl, omega arith, (refl, omega arith, refl)) (omega arith, (omega arith, tt)) (omega arith)
      (omega arith) (omega arith) (inr (omega arith)) (omega arith)

abbrev result : Option (ℕ × Mem × Screen)
result = printk 9 7 0 64 message empty 16 8192

abbrev memory : Option (ℕ × Mem × Screen) → Mem
memory none = message
memory (some r) = r.1

abbrev screen : Option (ℕ × Mem × Screen) → Screen
screen none = empty
screen (some r) = r.2

printk-IsSafe_example : IsSafe 64 message empty 2 (memory result) (screen result)
unfolding printk vscnprintf vsnprintf print_loop terminate format_decode from_start find_percent
    print_one print_as put_text memcpy no_count
printk-IsSafe_example =
    printk-IsSafe 9 7 0 64 message empty 16 8192 2 (memory result) (screen result) (omega arith)
      refl (omega arith, omega arith) refl
