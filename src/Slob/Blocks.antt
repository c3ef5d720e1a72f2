-- ===== src/Slob/Blocks.antt =====
-- The abstract heap: a list of blocks that fill an area of memory without gaps.
use hlos.Base.{
  ℕ, ◌+◌, ◌^◌, ◌<◌, ◌≤◌, ◌≡◌, ◌≢◌, ◌⊎◌, inl, inr, refl, ap, sym, subst, ◌∙◌, false, Bool-cases,
  List, [], ◌∷◌, ◌++◌, map, arith, ◌==◌, if◌then◌else◌,
}
use hlos.Links.Chain.{has, IsRing}
use hlos.Slob.{Heap}

pub record Block : Type 0 where
  pub addr : ℕ
  pub len : ℕ
  pub used : ℕ

abbrev pub node : Block → ℕ
node b = b.addr + 4

-- The blocks stand one behind the other, header and bytes, from `from` up to `to`.
abbrev pub Tiles : (from to : ℕ) → List Block → Type 0
Tiles from to [] = from ≡ to
Tiles from to (b ∷ bs) = (b.addr ≡ from) × Tiles (from + (12 + b.len)) to bs

-- The headers in memory say what the blocks say.
abbrev pub Fields : Heap → List Block → Type 0
Fields h [] = Unit
Fields h (b ∷ bs) = (h.allocated b.addr ≡ b.used) × (h.length b.addr ≡ b.len) × Fields h bs

pub Tiles-le : (from to : ℕ) (bs : List Block) → Tiles from to bs → from ≤ to
Tiles-le from to [] t = omega arith
Tiles-le from to (b ∷ bs) t = omega (arith, Tiles-le (from + (12 + b.len)) to bs t.1)

pub Tiles-append :
    (from mid to : ℕ) (xs ys : List Block)
    → Tiles from mid xs
    → Tiles mid to ys
    → Tiles from to (xs ++ ys)
Tiles-append from mid to [] ys t u = subst (λ m. Tiles m to ys) (sym t) u
Tiles-append from mid to (x ∷ xs) ys t u =
    (t.0, Tiles-append (from + (12 + x.len)) mid to xs ys t.1 u)

pub Tiles-split :
    (from to : ℕ) (xs ys : List Block)
    → Tiles from to (xs ++ ys)
    → (mid : ℕ) × Tiles from mid xs × Tiles mid to ys
Tiles-split from to [] ys t = (from, refl, t)
Tiles-split from to (x ∷ xs) ys t =
    let rest = Tiles-split (from + (12 + x.len)) to xs ys t.1 in (rest.0, (t.0, rest.1), rest.2)

-- A node outside the area is none of the blocks'.
pub Tiles-has :
    (from to a : ℕ) (bs : List Block)
    → Tiles from to bs
    → (a < from + 4) ⊎ (to + 4 ≤ a)
    → has a (map node bs) ≡ false
Tiles-has from to a [] t out = refl
Tiles-has from to a (b ∷ bs) t out =
    let le = Tiles-le (from + (12 + b.len)) to bs t.1 in
    let rest = Tiles-has (from + (12 + b.len)) to a bs t.1 (omega (arith, le)) in
    let ne : a ≢ node b = omega (arith, t.0, le) in ground (arith, rest, ne)

-- Headers that an operation leaves alone.
pub Fields-same :
    (h g : Heap) (from to : ℕ) (bs : List Block)
    → Tiles from to bs
    → ((a : ℕ) → from ≤ a → a < to → (g.allocated a ≡ h.allocated a) × (g.length a ≡ h.length a))
    → Fields h bs
    → Fields g bs
Fields-same h g from to [] t e f = tt
Fields-same h g from to (b ∷ bs) t e f =
    let le = Tiles-le (from + (12 + b.len)) to bs t.1 in
    let here = e b.addr (omega (arith, t.0)) (omega (arith, t.0, le)) in
    (
      here.0 ∙ f.0,
      here.1 ∙ f.1,
      Fields-same h g (from + (12 + b.len)) to bs t.1 (λ a p q. e a (omega arith) q) f.2,
    )

pub Fields-append :
    (h : Heap) (xs ys : List Block) → Fields h xs → Fields h ys → Fields h (xs ++ ys)
Fields-append h [] ys f g = g
Fields-append h (x ∷ xs) ys f g = (f.0, f.1, Fields-append h xs ys f.2 g)

pub Fields-split : (h : Heap) (xs ys : List Block) → Fields h (xs ++ ys) → Fields h xs × Fields h ys
Fields-split h [] ys f = (tt, f)
Fields-split h (x ∷ xs) ys f = let rest = Fields-split h xs ys f.2 in ((f.0, f.1, rest.0), rest.1)

-- The memory stands for the blocks, which fill the area from `from` to `to`; the list head stands
-- outside the area.
pub record Holds (head : ℕ) (h : Heap) (from to : ℕ) (bs : List Block) : Type 0 where
  pub ring : IsRing h.links head (map node bs)
  pub tiles : Tiles from to bs
  pub fields : Fields h bs
  pub top : to < 2 ^ 32
  pub size : to < from + 2 ^ 31
  pub apart : (head < from + 4) ⊎ (to + 4 ≤ head)

-- The blocks that are in use.
unfoldable pub used_of : List Block → List Block
used_of [] = []
used_of (b ∷ bs) = if b.used == 0 then used_of bs else b ∷ used_of bs

pub used_of-append : (xs ys : List Block) → used_of (xs ++ ys) ≡ used_of xs ++ used_of ys
unfolding used_of
used_of-append [] ys = refl
used_of-append (x ∷ xs) ys = elim (Bool-cases (x.used == 0)) [
  | inl e ↦ rw e (used_of-append xs ys)
  | inr e ↦ rw e (ap (λ bs. x ∷ bs) (used_of-append xs ys))
]
