-- ===== src/Io.antt =====
-- include/io.h: what leaves the kernel, as a log in the order of the events. What a port does and what
-- a handler function does is not in the code that writes the log.
use hlos.Base.{ℕ, ◌%◌, ◌^◌, List, [], ◌∷◌, ◌++◌}

-- `outb`, the call of the handler at an address, and the message for an unhandled interrupt.
pub data Event : Type 0 where
  out : (port value : ℕ) → Event
  call : (handler int_no : ℕ) → Event
  unhandled : (int_no : ℕ) → Event

abbrev pub Log : Type 0
Log = List Event

unfoldable pub outb : Log → (port value : ℕ) → Log
outb log port value = log ++ out (port % 2 ^ 16) (value % 256) ∷ []
