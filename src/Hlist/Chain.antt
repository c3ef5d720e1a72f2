-- ===== src/Hlist/Chain.antt =====
-- What a list with a single pointer as its head stands for, and how an insertion and a removal change
-- it.
use hlos.Base.{ℕ, ◌≡◌, ◌≢◌, ◌⊎◌, ◌∙◌, true, false, List, [], ◌∷◌, ◌++◌, arith}
use hlos.Links.Chain.{
  has, Distinct, last, first, has-append, has-last, has-first, ne_of_has, Distinct-insert,
  Distinct-delete,
}
use hlos.Hlist.{Nodes}

-- From the pointer at `a` the nodes `xs` follow, each with the address of the pointer to it.
abbrev pub Nexts : Nodes → ℕ → List ℕ → Type 0
Nexts h a [] = h.cell a ≡ 0
Nexts h a (x ∷ xs) = (h.cell a ≡ x) × (x ≢ 0) × (h.pprev x ≡ a) × Nexts h x xs

pub record IsHlist (h : Nodes) (head : ℕ) (xs : List ℕ) : Type 0 where
  pub nexts : Nexts h head xs
  pub distinct : Distinct (head ∷ xs)

pub Nexts-same :
    (h g : Nodes) (a : ℕ) (xs : List ℕ)
    → ((b : ℕ) → has b (a ∷ xs) ≡ true → g.cell b ≡ h.cell b)
    → ((b : ℕ) → has b xs ≡ true → g.pprev b ≡ h.pprev b)
    → Nexts h a xs
    → Nexts g a xs
Nexts-same h g a [] c p n = c a (ground arith) ∙ n
Nexts-same h g a (x ∷ xs) c p n = (
  c a (ground arith) ∙ n.0,
  n.1,
  p x (ground arith) ∙ n.2,
  Nexts-same h g x xs (λ b k. c b (ground arith)) (λ b k. p b (ground arith)) n.3,
)

-- `n` comes between the pointer at `p` and the node `q`, or the end.
pub record IsInserted (h g : Nodes) (p n q : ℕ) : Type 0 where
  pub to_new : g.cell p ≡ n
  pub from_new : g.cell n ≡ q
  pub back : g.pprev n ≡ p
  pub back_next : (q ≡ 0) ⊎ (g.pprev q ≡ n)
  pub cell_else : (a : ℕ) → a ≢ p → a ≢ n → g.cell a ≡ h.cell a
  pub pprev_else : (a : ℕ) → a ≢ n → a ≢ q → g.pprev a ≡ h.pprev a

-- The node `n` between the pointer at `p` and the node `q`, or the end, is gone.
pub record IsRemoved (h g : Nodes) (p n q : ℕ) : Type 0 where
  pub over : g.cell p ≡ q
  pub back_next : (q ≡ 0) ⊎ (g.pprev q ≡ p)
  pub cell_else : (a : ℕ) → a ≢ p → a ≢ n → g.cell a ≡ h.cell a
  pub pprev_else : (a : ℕ) → a ≢ n → a ≢ q → g.pprev a ≡ h.pprev a

module _ (h g : Nodes) (n : ℕ) where
  insert-Nexts :
      (a : ℕ) (xs ys : List ℕ)
      → Distinct (a ∷ xs ++ ys)
      → has n (a ∷ xs ++ ys) ≡ false
      → n ≢ 0
      → Nexts h a (xs ++ ys)
      → IsInserted h g (last a xs) n (first ys 0)
      → Nexts g a (xs ++ n ∷ ys)
  insert-Nexts a [] [] d f ne c i = (i.to_new, ne, i.back, i.from_new)
  insert-Nexts a [] (y ∷ ys) d f ne c i = (
    i.to_new,
    ne,
    i.back,
    (
      i.from_new,
      c.1,
      ground (arith, i.back_next, c.1),
      Nexts-same h g y ys
          (λ b k.
            i.cell_else b (ne_of_has b a (y ∷ ys) k d.0) (ne_of_has b n (y ∷ ys) k (ground arith)))
          (λ b k. i.pprev_else b (ne_of_has b n ys k (ground arith)) (ne_of_has b y ys k d.1.0))
          c.3,
    ),
  )
  insert-Nexts a (x ∷ xs) ys d f ne c i = (
    i.cell_else a
          (ground (arith, has-append a xs ys, has-last x xs, ne_of_has (last x xs) a (x ∷ xs)))
          (ground arith)
        ∙ c.0,
    c.1,
    i.pprev_else x (ground arith) (
          ground
            (arith, c.1, has-append x xs ys, has-first ys 0, ne_of_has (first ys 0) x (0 ∷ ys)))
        ∙ c.2,
    insert-Nexts x xs ys d.1 (ground arith) ne c.3 i,
  )

  pub insert-IsHlist :
      (head : ℕ) (xs ys : List ℕ)
      → IsHlist h head (xs ++ ys)
      → has n (head ∷ xs ++ ys) ≡ false
      → n ≢ 0
      → IsInserted h g (last head xs) n (first ys 0)
      → IsHlist g head (xs ++ n ∷ ys)
  insert-IsHlist head xs ys r f ne i = record {
    nexts = insert-Nexts head xs ys r.distinct f ne r.nexts i;
    distinct = Distinct-insert n (head ∷ xs) ys r.distinct f;
  }

  remove-Nexts :
      (a : ℕ) (xs ys : List ℕ)
      → Distinct (a ∷ xs ++ n ∷ ys)
      → Nexts h a (xs ++ n ∷ ys)
      → IsRemoved h g (last a xs) n (first ys 0)
      → Nexts g a (xs ++ ys)
  remove-Nexts a [] [] d c i = i.over
  remove-Nexts a [] (y ∷ ys) d c i = (
    i.over,
    c.3.1,
    ground (arith, i.back_next, c.3.1),
    Nexts-same h g y ys
        (λ b k.
          i.cell_else b (ne_of_has b a (n ∷ y ∷ ys) (ground arith) d.0)
            (ne_of_has b n (y ∷ ys) k d.1.0))
        (λ b k.
          i.pprev_else b (ne_of_has b n (y ∷ ys) (ground arith) d.1.0) (ne_of_has b y ys k d.1.1.0))
        c.3.3,
  )
  remove-Nexts a (x ∷ xs) ys d c i = (
    i.cell_else a
          (ground
            (arith, has-append a xs (n ∷ ys), has-last x xs, ne_of_has (last x xs) a (x ∷ xs)))
          (ground (arith, has-append a xs (n ∷ ys)))
        ∙ c.0,
    c.1,
    i.pprev_else x (ground (arith, has-append x xs (n ∷ ys))) (
          ground (
            arith,
            c.1,
            has-append x xs (n ∷ ys),
            has-first ys 0,
            ne_of_has (first ys 0) x (0 ∷ ys),
          ))
        ∙ c.2,
    remove-Nexts x xs ys d.1 c.3 i,
  )

  pub remove-IsHlist :
      (head : ℕ) (xs ys : List ℕ)
      → IsHlist h head (xs ++ n ∷ ys)
      → IsRemoved h g (last head xs) n (first ys 0)
      → IsHlist g head (xs ++ ys)
  remove-IsHlist head xs ys r i = record {
    nexts = remove-Nexts head xs ys r.distinct r.nexts i;
    distinct = Distinct-delete (head ∷ xs) n ys r.distinct;
  }
