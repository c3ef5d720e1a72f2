-- ===== src/Links/Chain.antt =====
-- What a linked list stands for: chains of consistent links, rings, and the writes that spare them.
use hlos.Base.{ℕ, ◌≡◌, ◌≢◌, refl, Bool, true, false, ◌||◌, List, [], ◌∷◌, ◌++◌, arith, ◌==◌}
use hlos.Links.{Links, set_next, set_prev}

abbrev pub has : ℕ → List ℕ → Bool
has a [] = false
has a (x ∷ xs) = (a == x) || has a xs

abbrev pub Distinct : List ℕ → Type 0
Distinct [] = Unit
Distinct (x ∷ xs) = (has x xs ≡ false) × Distinct xs

-- From `a` the `next` links lead through `xs` to `e`, and the `prev` links lead back.
abbrev pub Chain : Links → ℕ → List ℕ → ℕ → Type 0
Chain h a [] e = (h.next a ≡ e) × (h.prev e ≡ a)
Chain h a (x ∷ xs) e = (h.next a ≡ x) × (h.prev x ≡ a) × Chain h x xs e

-- The list whose head is at `head` holds the entries `xs`, in order.
pub record IsRing (h : Links) (head : ℕ) (xs : List ℕ) : Type 0 where
  pub chain : Chain h head xs head
  pub distinct : Distinct (head ∷ xs)

abbrev pub last : ℕ → List ℕ → ℕ
last a [] = a
last a (x ∷ xs) = last x xs

abbrev pub first : List ℕ → ℕ → ℕ
first [] e = e
first (x ∷ xs) e = x

pub has-append : (a : ℕ) (xs ys : List ℕ) → has a (xs ++ ys) ≡ (has a xs || has a ys)
has-append a [] ys = refl
has-append a (x ∷ xs) ys = ground (arith, has-append a xs ys)

pub has-last : (a : ℕ) (xs : List ℕ) → has (last a xs) (a ∷ xs) ≡ true
has-last a [] = ground arith
has-last a (x ∷ xs) = ground (arith, has-last x xs)

-- A value that is in a list differs from one that is not.
pub ne_of_has : (a b : ℕ) (xs : List ℕ) → has a xs ≡ true → has b xs ≡ false → a ≢ b
ne_of_has a b [] p q e = cc
ne_of_has a b (x ∷ xs) p q e = ground (arith, ne_of_has a b xs)

pub Distinct-append-left : (xs ys : List ℕ) → Distinct (xs ++ ys) → Distinct xs
Distinct-append-left [] ys d = tt
Distinct-append-left (x ∷ xs) ys d =
    (ground (arith, has-append x xs ys), Distinct-append-left xs ys d.1)

pub Distinct-append-right : (xs ys : List ℕ) → Distinct (xs ++ ys) → Distinct ys
Distinct-append-right [] ys d = d
Distinct-append-right (x ∷ xs) ys d = Distinct-append-right xs ys d.1

pub next-Chain : (h : Links) (a : ℕ) (xs : List ℕ) (e : ℕ) → Chain h a xs e → h.next a ≡ first xs e
next-Chain h a [] e c = c.0
next-Chain h a (x ∷ xs) e c = c.0

pub prev-Chain : (h : Links) (a : ℕ) (xs : List ℕ) (e : ℕ) → Chain h a xs e → h.prev e ≡ last a xs
prev-Chain h a [] e c = c.1
prev-Chain h a (x ∷ xs) e c = prev-Chain h x xs e c.2

pub Chain-split :
    (h : Links) (a : ℕ) (xs : List ℕ) (y : ℕ) (ys : List ℕ) (e : ℕ)
    → Chain h a (xs ++ y ∷ ys) e
    → Chain h a xs y × Chain h y ys e
Chain-split h a [] y ys e c = ((c.0, c.1), c.2)
Chain-split h a (x ∷ xs) y ys e c = let r = Chain-split h x xs y ys e c.2 in ((c.0, c.1, r.0), r.1)

pub Chain-append :
    (h : Links) (a : ℕ) (xs : List ℕ) (y : ℕ) (ys : List ℕ) (e : ℕ)
    → Chain h a xs y
    → Chain h y ys e
    → Chain h a (xs ++ y ∷ ys) e
Chain-append h a [] y ys e c d = (c.0, c.1, d)
Chain-append h a (x ∷ xs) y ys e c d = (c.0, c.1, Chain-append h x xs y ys e c.2 d)

-- Writes that spare a chain.
pub Chain-set_next :
    (h : Links) (p q : ℕ) (a : ℕ) (xs : List ℕ) (e : ℕ)
    → has p (a ∷ xs) ≡ false
    → Chain h a xs e
    → Chain (set_next h p q) a xs e
Chain-set_next h p q a [] e f c = ground arith
Chain-set_next h p q a (x ∷ xs) e f c =
    (ground arith, c.1, Chain-set_next h p q x xs e (ground arith) c.2)

pub Chain-set_prev :
    (h : Links) (p q : ℕ) (a : ℕ) (xs : List ℕ) (e : ℕ)
    → has p (e ∷ xs) ≡ false
    → Chain h a xs e
    → Chain (set_prev h p q) a xs e
Chain-set_prev h p q a [] e f c = ground arith
Chain-set_prev h p q a (x ∷ xs) e f c =
    (c.0, ground arith, Chain-set_prev h p q x xs e (ground arith) c.2)

-- Two writes move the end of a chain from `e` to `t`, or its start from `a` to `s`.
pub Chain-new_end :
    (h : Links) (a : ℕ) (xs : List ℕ) (e t : ℕ)
    → Distinct (a ∷ xs)
    → has t xs ≡ false
    → Chain h a xs e
    → Chain (set_next (set_prev h t (last a xs)) (last a xs) t) a xs t
Chain-new_end h a [] e t d f c = ground arith
Chain-new_end h a (x ∷ xs) e t d f c = (
  ground (arith, ne_of_has (last x xs) a (x ∷ xs) (has-last x xs) d.0),
  ground arith,
  Chain-new_end h x xs e t d.1 (ground arith) c.2,
)

-- The part of a chain behind its first link.
abbrev pub Inner : Links → List ℕ → ℕ → Type 0
Inner h [] e = Unit
Inner h (x ∷ xs) e = Chain h x xs e

pub Chain→Inner : (h : Links) (a : ℕ) (xs : List ℕ) (e : ℕ) → Chain h a xs e → Inner h xs e
Chain→Inner h a [] e c = tt
Chain→Inner h a (x ∷ xs) e c = c.2

pub Chain-new_start :
    (h : Links) (xs : List ℕ) (e s : ℕ)
    → Distinct xs
    → has e xs ≡ false
    → has s xs ≡ false
    → Inner h xs e
    → Chain (set_next (set_prev h (first xs e) s) s (first xs e)) s xs e
Chain-new_start h [] e s d f k c = ground arith
Chain-new_start h (x ∷ xs) e s d f k c = (
  ground arith,
  ground arith,
  Chain-set_next _ s x x xs e k (Chain-set_prev h x s x xs e (ground arith) c),
)

pub Chain-concat :
    (h : Links) (a : ℕ) (xs ys : List ℕ) (e : ℕ)
    → Chain h a xs (first ys e)
    → Chain h (last a xs) ys e
    → Chain h a (xs ++ ys) e
Chain-concat h a [] ys e c d = d
Chain-concat h a (x ∷ xs) ys e c d = (c.0, c.1, Chain-concat h x xs ys e c.2 d)

pub has-first : (xs : List ℕ) (e : ℕ) → has (first xs e) (e ∷ xs) ≡ true
has-first [] e = ground arith
has-first (x ∷ xs) e = ground arith

-- Two lists with no entry in common.
abbrev pub Apart : List ℕ → List ℕ → Type 0
Apart [] ys = Unit
Apart (x ∷ xs) ys = (has x ys ≡ false) × Apart xs ys

pub Apart-has : (a : ℕ) (xs ys : List ℕ) → Apart xs ys → has a xs ≡ true → has a ys ≡ false
Apart-has a [] ys f h = cc
Apart-has a (x ∷ xs) ys f h = elim-has (Apart-has a xs ys f.1)
  where
    elim-has : (has a xs ≡ true → has a ys ≡ false) → has a ys ≡ false
    elim-has k = ground arith

pub Distinct-insert :
    (new : ℕ) (xs ys : List ℕ)
    → Distinct (xs ++ ys)
    → has new (xs ++ ys) ≡ false
    → Distinct (xs ++ new ∷ ys)
Distinct-insert new [] ys d f = (f, d)
Distinct-insert new (x ∷ xs) ys d f = (
  ground (arith, has-append x xs ys, has-append x xs (new ∷ ys)),
  Distinct-insert new xs ys d.1 (ground arith),
)

pub Distinct-delete :
    (xs : List ℕ) (y : ℕ) (ys : List ℕ) → Distinct (xs ++ y ∷ ys) → Distinct (xs ++ ys)
Distinct-delete [] y ys d = d.1
Distinct-delete (x ∷ xs) y ys d =
    (ground (arith, has-append x xs ys, has-append x xs (y ∷ ys)), Distinct-delete xs y ys d.1)

pub has-delete :
    (xs : List ℕ) (y : ℕ) (ys : List ℕ) → Distinct (xs ++ y ∷ ys) → has y (xs ++ ys) ≡ false
has-delete [] y ys d = d.0
has-delete (x ∷ xs) y ys d = ground (arith, has-append x xs (y ∷ ys), has-delete xs y ys d.1)

pub Apart-has_right : (b : ℕ) (xs ys : List ℕ) → Apart xs ys → has b ys ≡ true → has b xs ≡ false
Apart-has_right b [] ys f h = refl
Apart-has_right b (x ∷ xs) ys f h =
    ground (arith, ne_of_has b x ys h f.0, Apart-has_right b xs ys f.1 h)

pub Distinct-append :
    (xs ys : List ℕ) → Distinct xs → Distinct ys → Apart xs ys → Distinct (xs ++ ys)
Distinct-append [] ys d k f = k
Distinct-append (x ∷ xs) ys d k f =
    (ground (arith, has-append x xs ys), Distinct-append xs ys d.1 k f.1)

pub Apart-drop_second :
    (xs : List ℕ) (e a : ℕ) (ys : List ℕ) → Apart xs (e ∷ a ∷ ys) → Apart xs (e ∷ ys)
Apart-drop_second [] e a ys f = tt
Apart-drop_second (x ∷ xs) e a ys f = (ground arith, Apart-drop_second xs e a ys f.1)

pub Apart-drop_first : (xs : List ℕ) (y : ℕ) (ys : List ℕ) → Apart xs (y ∷ ys) → Apart xs ys
Apart-drop_first [] y ys f = tt
Apart-drop_first (x ∷ xs) y ys f = (ground arith, Apart-drop_first xs y ys f.1)

pub Apart-comm : (xs ys : List ℕ) → Apart xs ys → Apart ys xs
Apart-comm xs [] f = tt
Apart-comm xs (y ∷ ys) f =
    (Apart-has_right y xs (y ∷ ys) f (ground arith), Apart-comm xs ys (Apart-drop_first xs y ys f))

pub Apart-twice : (xs : List ℕ) (e : ℕ) (ys : List ℕ) → Apart xs (e ∷ ys) → Apart xs (e ∷ e ∷ ys)
Apart-twice [] e ys f = tt
Apart-twice (x ∷ xs) e ys f = (ground arith, Apart-twice xs e ys f.1)
