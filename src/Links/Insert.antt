-- ===== src/Links/Insert.antt =====
-- `list_add` and `list_add_tail`.
use mathlib.Core.List.{append-nil}
use hlos.Base.{ℕ, ◌≡◌, ap, sym, subst, false, List, [], ◌∷◌, ◌++◌, arith}
use hlos.Links.{Links, link_between, list_add, list_add_tail}
use hlos.Links.Chain.{
  has, Distinct, Chain, IsRing, last, first, has-append, has-last, has-first, ne_of_has, next-Chain,
  prev-Chain, Chain-set_next, Chain-set_prev, Chain-new_start, Chain→Inner, Apart, Apart-has,
  Distinct-insert,
}

module _ (h : Links) (new : ℕ) where
  -- A new entry between `xs` and `ys`.
  pub link_between-Chain :
      (a : ℕ) (xs ys : List ℕ) (e : ℕ)
      → Distinct (a ∷ xs ++ ys)
      → has e (xs ++ ys) ≡ false
      → has new (e ∷ a ∷ xs ++ ys) ≡ false
      → Chain h a (xs ++ ys) e
      → Chain (link_between h new (last a xs) (first ys e)) a (xs ++ new ∷ ys) e
  unfolding link_between
  link_between-Chain a [] ys e d f k c = (
    ground arith,
    ground (arith, has-first ys e, ne_of_has (first ys e) new (e ∷ ys)),
    Chain-set_next _ a new new ys e (ground arith) (
        Chain-set_prev _ new a new ys e (ground arith)
          (Chain-new_start h ys e new d.1 f (ground arith) (Chain→Inner h a ys e c))),
  )
  link_between-Chain a (x ∷ xs) ys e d f k c = (
    ground (arith, has-append a xs ys, has-last x xs, ne_of_has (last x xs) a (x ∷ xs)),
    ground (arith, has-append x xs ys, has-first ys e, ne_of_has (first ys e) x (e ∷ ys)),
    link_between-Chain x xs ys e d.1 (ground arith) (ground arith) c.2,
  )

  link_between-spares :
      (p n a : ℕ) (zs : List ℕ) (e : ℕ)
      → has new (e ∷ zs) ≡ false
      → has p (a ∷ zs) ≡ false
      → has n (e ∷ zs) ≡ false
      → has new (a ∷ zs) ≡ false
      → Chain h a zs e
      → Chain (link_between h new p n) a zs e
  unfolding link_between
  link_between-spares p n a zs e f fp fn k c = Chain-set_next _ p new a zs e fp (
      Chain-set_prev _ new p a zs e f
        (Chain-set_next _ new n a zs e k (Chain-set_prev h n new a zs e fn c)))

  list_add-eq :
      (head next : ℕ) → h.next head ≡ next → list_add h new head ≡ link_between h new head next
  unfolding list_add
  list_add-eq head next e = ap (link_between h new head) e

  list_add_tail-eq :
      (head prev : ℕ) → h.prev head ≡ prev → list_add_tail h new head ≡ link_between h new prev head
  unfolding list_add_tail
  list_add_tail-eq head prev e = ap (λ p. link_between h new p head) e

  -- `list_add` puts an entry that is not in the list at its front.
  pub list_add-IsRing :
      (head : ℕ) (xs : List ℕ)
      → IsRing h head xs
      → has new (head ∷ xs) ≡ false
      → IsRing (list_add h new head) head (new ∷ xs)
  list_add-IsRing head xs r f = record {
    chain =
        subst (λ g. Chain g head (new ∷ xs) head)
          (sym (list_add-eq head (first xs head) (next-Chain h head xs head r.chain)))
          (link_between-Chain head [] xs head r.distinct r.distinct.0 (ground arith) r.chain);
    distinct = ground (arith, r.distinct.0);
  }

  -- `list_add_tail` puts an entry that is not in the list at its end.
  pub list_add_tail-IsRing :
      (head : ℕ) (xs : List ℕ)
      → IsRing h head xs
      → has new (head ∷ xs) ≡ false
      → IsRing (list_add_tail h new head) head (xs ++ new ∷ [])
  list_add_tail-IsRing head xs r f = record {
    chain =
        let outside : has new (head ∷ head ∷ xs) ≡ false = ground arith in
        subst (λ g. Chain g head (xs ++ new ∷ []) head)
          (sym (list_add_tail-eq head (last head xs) (prev-Chain h head xs head r.chain)))
          (link_between-Chain head xs [] head (rw append-nil r.distinct)
            (rw append-nil r.distinct.0) (rw append-nil outside) (rw append-nil r.chain));
    distinct = Distinct-insert new (head ∷ xs) [] (rw append-nil r.distinct) (rw append-nil f);
  }

  -- `list_add` to one list of an entry that a second list does not hold leaves the second one as
  -- it is, if the two share no node.
  pub list_add-other :
      (head : ℕ) (xs : List ℕ) (other : ℕ) (zs : List ℕ)
      → IsRing h head xs
      → IsRing h other zs
      → Apart (head ∷ xs) (other ∷ zs)
      → has new (other ∷ zs) ≡ false
      → IsRing (list_add h new head) other zs
  list_add-other head xs other zs r s apart f =
      let n = first xs head in
      let n_out : has n (other ∷ zs) ≡ false =
        Apart-has n (head ∷ xs) (other ∷ zs) apart (has-first xs head) in
      record {
        chain =
            subst (λ g. Chain g other zs other)
              (sym (list_add-eq head n (next-Chain h head xs head r.chain)))
              (link_between-spares head n other zs other f apart.0 n_out f s.chain);
        distinct = s.distinct;
      }
