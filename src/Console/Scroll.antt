-- ===== src/Console/Scroll.antt =====
-- Scrolling.
use hlos.Base.{ℕ, zero, suc, ◌+◌, ◌*◌, ◌≤◌, ◌≡◌, refl, true, arith, leb, ltb, ◌&&◌, if◌then◌else◌}
use hlos.Links.{update}
use hlos.Console.{Screen, blank, copy_line, copy_lines, scroll}

pub blank_lem :
    (count : ℕ) (cells : ℕ → ℕ) (i a : ℕ)
    → blank count cells i a ≡ (if leb i a && ltb a (i + count) then 0x720 else cells a)
unfolding blank
blank_lem zero cells i a = ground arith
blank_lem (suc count) cells i a = ground (arith, blank_lem count (update cells i 0x720) (i + 1) a)

copy_line_lem :
    (count : ℕ) (cells : ℕ → ℕ) (j i a : ℕ)
    → i + count ≤ 80
    → copy_line count cells (j + 1) j i a
      ≡ (if leb (80 * j + i) a && ltb a (80 * j + i + count) then cells (a + 80) else cells a)
unfolding copy_line
copy_line_lem zero cells j i a h = ground arith
copy_line_lem (suc count) cells j i a h = ground (
  arith,
  copy_line_lem count (update cells (80 * j + i) (cells (80 * (j + 1) + i))) j (i + 1) a
      (omega arith),
)

copy_lines_lem :
    (count : ℕ) (cells : ℕ → ℕ) (j a : ℕ)
    → copy_lines count cells (j + 1) j a
      ≡ (if leb (80 * j) a && ltb a (80 * (j + count)) then cells (a + 80) else cells a)
unfolding copy_lines
copy_lines_lem zero cells j a = ground arith
copy_lines_lem (suc count) cells j a =
    let first : ℕ → ℕ = copy_line 80 cells (j + 1) j 0 in
    joined (copy_lines_lem count first (j + 1) a) (copy_line_lem 80 cells j 0 a (omega arith))
      (copy_line_lem 80 cells j 0 (a + 80) (omega arith))
  where
    joined :
        {x y z : ℕ}
        → x ≡ (if leb (80 * (j + 1)) a && ltb a (80 * (j + 1 + count)) then z else y)
        → y ≡ (if leb (80 * j + 0) a && ltb a (80 * j + 0 + 80) then cells (a + 80) else cells a)
        → z ≡ (
            if leb (80 * j + 0) (a + 80) && ltb (a + 80) (80 * j + 0 + 80)
            then cells (a + 80 + 80)
            else cells (a + 80))
        → x ≡ (if leb (80 * j) a && ltb a (80 * (j + suc count)) then cells (a + 80) else cells a)
    joined p q r = ground arith

-- With the cursor below the last line scroll moves every line up by one, blanks the last line,
-- writes nothing outside the screen and puts the cursor on the last line.
pub scroll_lem :
    (s : Screen) (a : ℕ)
    → 25 ≤ s.ypos
    → ((scroll s).cells a
        ≡ (if ltb a 1920 then s.cells (a + 80) else if ltb a 2000 then 0x720 else s.cells a))
      × ((scroll s).ypos ≡ 24)
      × ((scroll s).xpos ≡ s.xpos)
unfolding scroll
scroll_lem s a low =
    let below : leb 25 s.ypos ≡ true = ground arith in
    rw below (
      moved (blank_lem 80 (copy_lines 24 s.cells 1 0) 1920 a) (copy_lines_lem 24 s.cells 0 a),
      refl,
      refl,
    )
  where
    moved :
        {x y : ℕ}
        → x ≡ (if leb 1920 a && ltb a 2000 then 0x720 else y)
        → y ≡ (if leb 0 a && ltb a 1920 then s.cells (a + 80) else s.cells a)
        → x ≡ (if ltb a 1920 then s.cells (a + 80) else if ltb a 2000 then 0x720 else s.cells a)
    moved p q = ground arith
