-- ===== src/Links/Remove.antt =====
-- `list_del` and what is built on it.
use hlos.Base.{
  ℕ, ◌≡◌, refl, ap₂, sym, subst, Bool, true, not, if◌then◌else◌, false, List, [], ◌∷◌, ◌++◌, arith,
}
use hlos.Links.{
  Links, null, set_next, set_prev, join, unlink_entry, list_del, list_del_init, list_move,
  list_move_tail, list_empty, list_rotate_left,
}
use hlos.Links.Chain.{
  has, Distinct, Chain, IsRing, last, first, has-append, has-last, has-first, ne_of_has, next-Chain,
  prev-Chain, Chain-set_next, Chain-set_prev, Chain-new_start, Chain→Inner, Chain-split, Apart,
  Apart-has, Distinct-delete, has-delete,
}
use hlos.Links.Insert.{list_add-IsRing, list_add_tail-IsRing}

abbrev pub rotate_left : List ℕ → List ℕ
rotate_left [] = []
rotate_left (x ∷ xs) = xs ++ x ∷ []

module _ (h : Links) where
  -- The entries on the two sides of `y` become neighbours.
  pub join-Chain :
      (a : ℕ) (xs : List ℕ) (y : ℕ) (ys : List ℕ) (e : ℕ)
      → Distinct (a ∷ xs ++ y ∷ ys)
      → has e (xs ++ y ∷ ys) ≡ false
      → Chain h a (xs ++ y ∷ ys) e
      → Chain (join h (last a xs) (first ys e)) a (xs ++ ys) e
  unfolding join
  join-Chain a [] y ys e d f c =
      Chain-new_start h ys e a d.1.1 (ground arith) (ground arith) (Chain→Inner h y ys e c.2)
  join-Chain a (x ∷ xs) y ys e d f c = (
    ground (arith, has-append a xs (y ∷ ys), has-last x xs, ne_of_has (last x xs) a (x ∷ xs)),
    ground (arith, has-append x xs (y ∷ ys), has-first ys e, ne_of_has (first ys e) x (e ∷ ys)),
    join-Chain x xs y ys e d.1 (ground arith) c.2,
  )

  unlink_entry-eq : (y p n : ℕ) → h.prev y ≡ p → h.next y ≡ n → unlink_entry h y ≡ join h p n
  unfolding unlink_entry
  unlink_entry-eq y p n e f = ap₂ (join h) e f

  pub unlink_entry-IsRing :
      (head : ℕ) (xs : List ℕ) (y : ℕ) (ys : List ℕ)
      → IsRing h head (xs ++ y ∷ ys)
      → IsRing (unlink_entry h y) head (xs ++ ys)
  unlink_entry-IsRing head xs y ys r =
      let s = Chain-split h head xs y ys head r.chain in
      record {
        chain =
            rw
              (unlink_entry-eq y (last head xs) (first ys head) (prev-Chain h head xs y s.0)
                (next-Chain h y ys head s.1))
              (join-Chain head xs y ys head r.distinct r.distinct.0 r.chain);
        distinct = Distinct-delete (head ∷ xs) y ys r.distinct;
      }

  list_del-eq : (y : ℕ) → list_del h y ≡ set_prev (set_next (unlink_entry h y) y null) y null
  unfolding list_del unlink_entry
  list_del-eq y = refl

  -- `list_del` takes an entry out of its list, wherever it stands, leaves the others in order and
  -- clears the two links of the entry.
  pub list_del-IsRing :
      (head : ℕ) (xs : List ℕ) (y : ℕ) (ys : List ℕ)
      → IsRing h head (xs ++ y ∷ ys)
      → IsRing (list_del h y) head (xs ++ ys)
        × ((list_del h y).next y ≡ null)
        × ((list_del h y).prev y ≡ null)
  list_del-IsRing head xs y ys r =
      let gone : has y (head ∷ xs ++ ys) ≡ false = has-delete (head ∷ xs) y ys r.distinct in
      let u = unlink_entry-IsRing head xs y ys r in
      rw (list_del-eq y) (
        record {
          chain =
              Chain-set_prev _ y null head (xs ++ ys) head gone
                (Chain-set_next _ y null head (xs ++ ys) head gone u.chain);
          distinct = u.distinct;
        },
        ground arith,
        ground arith,
      )

  -- `list_del_init` takes the entry out and leaves it as a list of its own with no entries.
  pub list_del_init-IsRing :
      (head : ℕ) (xs : List ℕ) (y : ℕ) (ys : List ℕ)
      → IsRing h head (xs ++ y ∷ ys)
      → IsRing (list_del_init h y) head (xs ++ ys) × IsRing (list_del_init h y) y []
  unfolding list_del_init
  list_del_init-IsRing head xs y ys r =
      let gone : has y (head ∷ xs ++ ys) ≡ false = has-delete (head ∷ xs) y ys r.distinct in
      let u = unlink_entry-IsRing head xs y ys r in
      (
        record {
          chain =
              Chain-set_prev _ y y head (xs ++ ys) head gone
                (Chain-set_next _ y y head (xs ++ ys) head gone u.chain);
          distinct = u.distinct;
        },
        record { chain = ground arith; distinct = (refl, tt) },
      )

-- `list_move` and `list_move_tail` of an entry within its own list put it first or last and keep
-- the order of the rest.
pub list_move-IsRing :
    (h : Links) (head : ℕ) (xs : List ℕ) (y : ℕ) (ys : List ℕ)
    → IsRing h head (xs ++ y ∷ ys)
    → IsRing (list_move h y head) head (y ∷ xs ++ ys)
      × IsRing (list_move_tail h y head) head ((xs ++ ys) ++ y ∷ [])
unfolding list_move list_move_tail
list_move-IsRing h head xs y ys r =
    let gone : has y (head ∷ xs ++ ys) ≡ false = has-delete (head ∷ xs) y ys r.distinct in
    let u = unlink_entry-IsRing h head xs y ys r in
    (
      list_add-IsRing (unlink_entry h y) y head (xs ++ ys) u gone,
      list_add_tail-IsRing (unlink_entry h y) y head (xs ++ ys) u gone,
    )

list_rotate_left-eq :
    (h : Links) (head : ℕ) (b : Bool) (first : ℕ)
    → list_empty h head ≡ b
    → h.next head ≡ first
    → list_rotate_left h head ≡ (if not b then list_move_tail h first head else h)
unfolding list_rotate_left
list_rotate_left-eq h head b first p q =
    ap₂ (λ c f. if not c then list_move_tail h f head else h) p q

-- `list_rotate_left` moves the first entry of a list to its end, and leaves an empty list as it
-- is.
pub list_rotate_left-IsRing :
    (h : Links) (head : ℕ) (xs : List ℕ)
    → IsRing h head xs
    → IsRing (list_rotate_left h head) head (rotate_left xs)
unfolding list_empty
list_rotate_left-IsRing h head [] r =
    subst (λ g. IsRing g head [])
      (sym (list_rotate_left-eq h head true head (ground arith) r.chain.0)) r
list_rotate_left-IsRing h head (x ∷ xs) r =
    subst (λ g. IsRing g head (xs ++ x ∷ []))
      (sym (list_rotate_left-eq h head false x (ground arith) r.chain.0))
      (list_move-IsRing h head [] x xs r).1

join-spares :
    (h : Links) (p n a : ℕ) (zs : List ℕ) (e : ℕ)
    → has p (a ∷ zs) ≡ false
    → has n (e ∷ zs) ≡ false
    → Chain h a zs e
    → Chain (join h p n) a zs e
unfolding join
join-spares h p n a zs e fp fn c = Chain-set_next _ p n a zs e fp (Chain-set_prev h n p a zs e fn c)

-- `list_del` of an entry of one list leaves a second list as it is, if the two share no node.
pub list_del-other :
    (h : Links) (head : ℕ) (xs : List ℕ) (y : ℕ) (ys : List ℕ) (other : ℕ) (zs : List ℕ)
    → IsRing h head (xs ++ y ∷ ys)
    → IsRing h other zs
    → Apart (head ∷ xs ++ y ∷ ys) (other ∷ zs)
    → IsRing (list_del h y) other zs
list_del-other h head xs y ys other zs r s apart = record {
  chain =
      subst (λ g. Chain g other zs other) (sym (list_del-eq h y))
        (Chain-set_prev _ y null other zs other y_out (
          Chain-set_next _ y null other zs other y_out (
            subst (λ g. Chain g other zs other)
              (sym (
                unlink_entry-eq h y p n (prev-Chain h head xs y cut.0)
                  (next-Chain h y ys head cut.1)))
              (join-spares h p n other zs other p_out n_out s.chain))));
  distinct = s.distinct;
}
  where
    all : List ℕ
    all = head ∷ xs ++ y ∷ ys

    p : ℕ
    p = last head xs

    n : ℕ
    n = first ys head

    cut : Chain h head xs y × Chain h y ys head
    cut = Chain-split h head xs y ys head r.chain

    y_in : has y all ≡ true
    y_in = ground (arith, has-append y (head ∷ xs) (y ∷ ys))

    p_in : has p all ≡ true
    p_in = ground (arith, has-append p (head ∷ xs) (y ∷ ys), has-last head xs)

    n_in : has n all ≡ true
    n_in = ground (arith, has-append n (head ∷ xs) (y ∷ ys), has-first ys head)

    y_out : has y (other ∷ zs) ≡ false
    y_out = Apart-has y all (other ∷ zs) apart y_in

    p_out : has p (other ∷ zs) ≡ false
    p_out = Apart-has p all (other ∷ zs) apart p_in

    n_out : has n (other ∷ zs) ≡ false
    n_out = Apart-has n all (other ∷ zs) apart n_in
