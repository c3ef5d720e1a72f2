-- ===== src/Hlist/Place.antt =====
-- Where a node stands in its list.
use hlos.Base.{ℕ, ◌≡◌, ◌≢◌, List, [], ◌∷◌, ◌++◌, arith}
use hlos.Links.Chain.{Distinct, last, first, has-first, ne_of_has}
use hlos.Hlist.{Nodes}
use hlos.Hlist.Chain.{Nexts}

pub Nexts-first : (h : Nodes) (a : ℕ) (xs : List ℕ) → Nexts h a xs → h.cell a ≡ first xs 0
Nexts-first h a [] n = n
Nexts-first h a (x ∷ xs) n = n.0

-- What the fields of a node in the list are.
pub record IsAt (h : Nodes) (p n q : ℕ) : Type 0 where
  pub next : h.cell n ≡ q
  pub before : h.pprev n ≡ p
  pub some_node : n ≢ 0

pub Nexts-IsAt :
    (h : Nodes) (a : ℕ) (xs : List ℕ) (n : ℕ) (ys : List ℕ)
    → Nexts h a (xs ++ n ∷ ys)
    → IsAt h (last a xs) n (first ys 0)
Nexts-IsAt h a [] n ys c = record { next = Nexts-first h n ys c.3; before = c.2; some_node = c.1 }
Nexts-IsAt h a (x ∷ xs) n ys c = Nexts-IsAt h x xs n ys c.3

-- The neighbours of a node in the list differ from it.
pub neighbours :
    (a : ℕ) (xs : List ℕ) (n : ℕ) (ys : List ℕ)
    → Distinct (a ∷ xs ++ n ∷ ys)
    → n ≢ 0
    → (last a xs ≢ n) × (first ys 0 ≢ n)
neighbours a [] n ys d ne =
    (ground arith, ground (arith, has-first ys 0, ne_of_has (first ys 0) n (0 ∷ ys)))
neighbours a (x ∷ xs) n ys d ne = neighbours x xs n ys d.1 ne
