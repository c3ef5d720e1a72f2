-- ===== src/Console/Bounds.antt =====
-- Where the console writes and where its cursor stands.
use hlos.Base.{
  ℕ, zero, suc, ◌+◌, ◌<◌, ◌≤◌, ◌≡◌, refl, Bool-cases, inl, inr, arith, ◌==◌, leb, leb→le, ltb, ◌∙◌,
  if◌then◌else◌,
}
use hlos.Bytes.{Mem}
use hlos.Console.{Screen, console_vga_write, write_loop, put_char, scroll, move_cursor}
use hlos.Console.Scroll.{scroll_lem}

-- The cursor stands in a column of the screen, on a line of it or on the one below.
abbrev pub IsOnScreen : Screen → Type 0
IsOnScreen s = (s.xpos < 80) × (s.ypos ≤ 25)

-- `t` comes from `s` by writes on the screen only.
pub record IsWithin (s t : Screen) : Type 0 where
  pub cursor : IsOnScreen t
  pub outside : (a : ℕ) → 2000 ≤ a → t.cells a ≡ s.cells a

scroll-IsWithin : (s : Screen) → IsOnScreen s → IsWithin s (scroll s) × ((scroll s).ypos < 25)
unfolding scroll
scroll-IsWithin s on = elim (Bool-cases (leb 25 s.ypos)) [
  | inl low ↦
      let le : 25 ≤ s.ypos = leb→le 25 s.ypos low in
      let up = scroll_lem s 0 le in
      (
        record {
          cursor = (omega (arith, up.2, on.0), omega (arith, up.1));
          outside = λ a h. beyond a h (scroll_lem s a le).0;
        },
        omega (arith, up.1),
      )
  | inr high ↦ rw high (record { cursor = on; outside = λ a h. refl }, ground arith)
]
  where
    beyond :
        (a : ℕ) {x : ℕ}
        → 2000 ≤ a
        → x ≡ (if ltb a 1920 then s.cells (a + 80) else if ltb a 2000 then 0x720 else s.cells a)
        → x ≡ s.cells a
    beyond a h e = ground arith

put_char-IsWithin : (s : Screen) (c : ℕ) → s.xpos < 80 → s.ypos < 25 → IsWithin s (put_char s c)
unfolding put_char
put_char-IsWithin s c x y = record { cursor = ground arith; outside = λ a h. ground arith }

write_loop-IsWithin :
    (m : Mem) (s : Screen) (str n : ℕ) → IsOnScreen s → IsWithin s (write_loop m s str n)
unfolding write_loop
write_loop-IsWithin m s str zero on = record { cursor = on; outside = λ a h. refl }
write_loop-IsWithin m s str (suc n) on = elim (Bool-cases (m str == 0)) [
  | inl ends ↦ rw ends (record { cursor = on; outside = λ a h. refl })
  | inr more ↦
      let up = scroll-IsWithin s on in
      let char = put_char-IsWithin (scroll s) (m str) up.0.cursor.0 up.1 in
      let rest = write_loop-IsWithin m (put_char (scroll s) (m str)) (str + 1) n char.cursor in
      rw more (record {
        cursor = rest.cursor;
        outside = λ a h. rest.outside a h ∙ char.outside a h ∙ up.0.outside a h;
      })
]

-- From a cursor on the screen or on the line below it `console_vga_write` of any text and count
-- leaves the cursor there again and writes no cell outside the screen.
pub console_vga_write-IsWithin :
    (m : Mem) (s : Screen) (str n : ℕ) → IsOnScreen s → IsWithin s (console_vga_write m s str n)
unfolding console_vga_write move_cursor
console_vga_write-IsWithin m s str n on =
    let w = write_loop-IsWithin m s str n on in record { cursor = w.cursor; outside = w.outside }
