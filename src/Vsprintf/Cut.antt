-- ===== src/Vsprintf/Cut.antt =====
-- What `vsnprintf` leaves in memory for a text: as much of it as fits, with a NUL.
use hlos.Base.{
  ℕ, zero, suc, ◌+◌, ◌-◌, ◌<◌, ◌≤◌, ◌≡◌, ◌⊎◌, refl, ap, ◌∙◌, List, [], ◌∷◌, arith, length, min,
  get_or,
}
use hlos.Bytes.{Mem}
use hlos.Vsprintf.{Out, put}
use hlos.Vsprintf.Print.{terminate}
use hlos.Vsprintf.Layout.{put_all}
use hlos.Vsprintf.Text.{put_all-at}

-- The buffer of `size` bytes at `buf` holds the first `size - 1` characters of the text, or all of them,
-- and a NUL behind them; the other bytes are as they were.
pub record IsCut (buf size : ℕ) (text : List ℕ) (m m' : Mem) : Type 0 where
  pub cut : (i : ℕ) → i < min (length text) (size - 1) → m' (buf + i) ≡ get_or text i 0
  pub nul : 0 < size → m' (buf + min (length text) (size - 1)) ≡ 0
  pub outside : (a : ℕ) → (a < buf) ⊎ (buf + min (suc (length text)) size ≤ a) → m' a ≡ m a

module _ (end : ℕ) where
  put_all-outside :
      (o : Out) (cs : List ℕ) (a : ℕ)
      → (a < o.at) ⊎ (o.at + length cs ≤ a) ⊎ (end ≤ a)
      → (put_all end o cs).mem a ≡ o.mem a
  unfolding put_all put
  put_all-outside o [] a out = refl
  put_all-outside o (c ∷ cs) a out =
      put_all-outside (put end o c) cs a (omega (arith, out)) ∙ ground (arith, out)

  put_all-inside :
      (o : Out) (cs : List ℕ) (i : ℕ)
      → i < length cs
      → o.at + i < end
      → (put_all end o cs).mem (o.at + i) ≡ get_or cs i 0
  unfolding put_all put
  put_all-inside o [] i lt room = absurd (omega arith)
  put_all-inside o (c ∷ cs) zero lt room =
      put_all-outside (put end o c) cs (o.at + 0) (omega arith) ∙ ground arith
  put_all-inside o (c ∷ cs) (suc i) lt room =
      let place : o.at + suc i ≡ o.at + 1 + i = omega arith in
      ap (put_all end (put end o c) cs).mem place
      ∙ put_all-inside (put end o c) cs i (omega arith) (omega arith)

module _ (m : Mem) (buf size : ℕ) (text : List ℕ) where
  abbrev written : Out
  written = put_all (buf + size) (record { mem = m; at = buf }) text

  written-at : written.at ≡ buf + length text
  written-at = put_all-at (buf + size) (record { mem = m; at = buf }) text

  pub terminate-IsCut : IsCut buf size text m (terminate (buf + size) size written)
  unfolding terminate
  terminate-IsCut =
      let start : Out = record { mem = m; at = buf } in
      let place = written-at in
      record {
        cut = λ i lt.
            let inside = put_all-inside (buf + size) start text i (omega arith) (omega arith) in
            ground (arith, place, inside);
        nul = λ room. ground (arith, place);
        outside = λ a out.
            let same = put_all-outside (buf + size) start text a (omega (arith, out)) in
            ground (arith, place, same, out);
      }
