-- ===== src/Links/Splice.antt =====
-- `list_splice` and its three variants.
use hlos.Base.{
  ℕ, ◌≡◌, refl, sym, ap₂, subst, subst₂, ◌∙◌, Bool, true, false, not, List, [], ◌∷◌, ◌++◌, arith,
  if◌then◌else◌,
}
use hlos.Links.{
  Links, set_next, set_prev, init_list_head, list_empty, splice_between, list_splice,
  list_splice_tail, list_splice_init, list_splice_tail_init,
}
use mathlib.Core.List.{append-nil}
use hlos.Links.Chain.{
  has, Distinct, Chain, IsRing, last, first, has-append, has-last, has-first, ne_of_has, next-Chain,
  prev-Chain, Chain-set_next, Chain-set_prev, Chain-new_start, Chain-new_end, Chain→Inner,
  Chain-concat, Apart, Apart-has, Apart-has_right, Apart-drop_first, Apart-twice, Apart-drop_second,
  Apart-comm, Distinct-append, Inner,
}

-- The four writes of `__list_splice`, with `first` and `last` read.
abbrev relink : Links → (first last prev next : ℕ) → Links
relink h f l p n = set_prev (set_next (set_next (set_prev h f p) p f) l n) n l

Inner-set :
    (h : Links) (x a : ℕ) (ys : List ℕ) (e : ℕ)
    → has x (e ∷ ys) ≡ false
    → has a ys ≡ false
    → Inner h ys e
    → Inner (set_next (set_prev h x a) a x) ys e
Inner-set h x a [] e f k c = tt
Inner-set h x a (y ∷ ys) e f k c =
    Chain-set_next _ a x y ys e k (Chain-set_prev h x a y ys e (ground arith) c)

module _ (h : Links) where
  splice_between-eq :
      (list f l p n : ℕ)
      → h.next list ≡ f
      → h.prev list ≡ l
      → splice_between h list p n ≡ relink h f l p n
  unfolding splice_between
  splice_between-eq list f l p n e k = ap₂ (λ f l. relink h f l p n) e k

  module _ (list x : ℕ) (xs : List ℕ) (dl : Distinct (x ∷ xs)) (cl : Chain h x xs list)
      (x_list : has x (list ∷ xs) ≡ false) where
    -- The entries `x ∷ xs` go between `us` and `ys`.
    relink-Chain :
        (a : ℕ) (us ys : List ℕ) (e : ℕ)
        → Distinct (a ∷ us ++ ys)
        → has e (us ++ ys) ≡ false
        → Apart (x ∷ xs) (e ∷ a ∷ us ++ ys)
        → Chain h a (us ++ ys) e
        → Chain (relink h x (last x xs) (last a us) (first ys e)) a (us ++ (x ∷ xs) ++ ys) e
    relink-Chain a [] ys e d f apart c =
        let l_in : has (last x xs) (x ∷ xs) ≡ true = has-last x xs in
        let n_in : has (first ys e) (e ∷ ys) ≡ true = has-first ys e in
        let n_in' : has (first ys e) (e ∷ a ∷ ys) ≡ true = ground arith in
        let l_out : has (last x xs) (e ∷ a ∷ ys) ≡ false =
          Apart-has (last x xs) (x ∷ xs) (e ∷ a ∷ ys) apart l_in in
        let n_out : has (first ys e) (x ∷ xs) ≡ false =
          Apart-has_right (first ys e) (x ∷ xs) (e ∷ a ∷ ys) apart n_in' in
        let a_out : has a (x ∷ xs) ≡ false =
          Apart-has_right a (x ∷ xs) (e ∷ a ∷ ys) apart (ground arith) in
        (
          ground (arith, ne_of_has (last x xs) a (x ∷ xs)),
          ground (arith, ne_of_has (first ys e) x (e ∷ ys), ne_of_has x (first ys e) (x ∷ xs)),
          Chain-concat _ x xs ys e
              (Chain-new_end _ x xs list (first ys e) dl (ground arith)
                (Chain-set_next _ a x x xs list a_out (Chain-set_prev h x a x xs list x_list cl)))
              (Chain-new_start _ ys e (last x xs) d.1 f (ground arith)
                (Inner-set h x a ys e (ground arith) d.0 (Chain→Inner h a ys e c))),
        )
    relink-Chain a (u ∷ us) ys e d f apart c =
        let apart' : Apart (x ∷ xs) (e ∷ u ∷ us ++ ys) =
          Apart-drop_second (x ∷ xs) e a (u ∷ us ++ ys) apart in
        let n_in : has (first ys e) (e ∷ ys) ≡ true = has-first ys e in
        let a_out : has a (x ∷ xs) ≡ false =
          Apart-has_right a (x ∷ xs) (e ∷ a ∷ u ∷ us ++ ys) apart (ground arith) in
        let u_out : has u (x ∷ xs) ≡ false =
          Apart-has_right u (x ∷ xs) (e ∷ a ∷ u ∷ us ++ ys) apart (ground arith) in
        (
          ground (
            arith,
            has-append a us ys,
            has-last x xs,
            has-last u us,
            ne_of_has (last x xs) a (x ∷ xs),
            ne_of_has (last u us) a (u ∷ us),
          ),
          ground (arith, has-append u us ys, ne_of_has (first ys e) u (e ∷ ys)),
          relink-Chain u us ys e d.1 (ground arith) apart' c.2,
        )

module _ (h : Links) (list head : ℕ) where
  list_splice-eq :
      (b : Bool) (n : ℕ)
      → list_empty h list ≡ b
      → h.next head ≡ n
      → list_splice h list head ≡ (if not b then splice_between h list head n else h)
  unfolding list_splice
  list_splice-eq b n p q = ap₂ (λ c n. if not c then splice_between h list head n else h) p q

  list_splice_tail-eq :
      (b : Bool) (n : ℕ)
      → list_empty h list ≡ b
      → h.prev head ≡ n
      → list_splice_tail h list head ≡ (if not b then splice_between h list n head else h)
  unfolding list_splice_tail
  list_splice_tail-eq b n p q = ap₂ (λ c n. if not c then splice_between h list n head else h) p q

  list_empty-nil : IsRing h list [] → list_empty h list ≡ true
  unfolding list_empty
  list_empty-nil r = ground (arith, r.chain.0)

  list_empty-cons : (x : ℕ) (xs : List ℕ) → IsRing h list (x ∷ xs) → list_empty h list ≡ false
  unfolding list_empty
  list_empty-cons x xs r = ground (arith, r.chain.0, r.distinct.0)

  -- `list_splice` puts the entries of a list, empty or not, in order in front of those of another
  -- list that shares no node with it.
  pub list_splice-IsRing :
      (zs ys : List ℕ)
      → IsRing h list zs
      → IsRing h head ys
      → Apart (list ∷ zs) (head ∷ ys)
      → IsRing (list_splice h list head) head (zs ++ ys)
  list_splice-IsRing [] ys r s apart =
      subst (λ g. IsRing g head ys) (sym (list_splice-eq true _ (list_empty-nil r) refl)) s
  list_splice-IsRing (x ∷ xs) ys r s apart =
      let out : has head (x ∷ xs) ≡ false =
        Apart-has_right head (x ∷ xs) (head ∷ ys) apart.1 (ground arith) in
      let n = first ys head in
      record {
        chain =
            subst (λ g. Chain g head ((x ∷ xs) ++ ys) head)
              (sym (
                list_splice-eq false n (list_empty-cons x xs r) (next-Chain h head ys head s.chain)
                ∙ splice_between-eq h list x (last x xs) head n r.chain.0
                    (prev-Chain h x xs list r.chain.2)))
              (relink-Chain h list x xs r.distinct.1 r.chain.2 (ground (arith, r.distinct.0)) head
                [] ys head s.distinct s.distinct.0 (Apart-twice (x ∷ xs) head ys apart.1) s.chain);
        distinct = (
          ground (arith, has-append head (x ∷ xs) ys, s.distinct.0),
          Distinct-append (x ∷ xs) ys r.distinct.1 s.distinct.1
              (Apart-drop_first (x ∷ xs) head ys apart.1),
        );
      }

  -- `list_splice_tail` puts them behind those of `head`.
  pub list_splice_tail-IsRing :
      (zs ys : List ℕ)
      → IsRing h list zs
      → IsRing h head ys
      → Apart (list ∷ zs) (head ∷ ys)
      → IsRing (list_splice_tail h list head) head (ys ++ zs)
  list_splice_tail-IsRing [] ys r s apart =
      subst (λ g. IsRing g head (ys ++ []))
        (sym (list_splice_tail-eq true _ (list_empty-nil r) refl)) (rw append-nil s)
  list_splice_tail-IsRing (x ∷ xs) ys r s apart =
      let out : has head (x ∷ xs) ≡ false =
        Apart-has_right head (x ∷ xs) (head ∷ ys) apart.1 (ground arith) in
      let p = last head ys in
      let no_tail : ys ++ [] ≡ ys = rw append-nil in
      record {
        chain =
            subst (λ g. Chain g head (ys ++ x ∷ xs) head)
              (sym (
                list_splice_tail-eq false p (list_empty-cons x xs r)
                  (prev-Chain h head ys head s.chain)
                ∙ splice_between-eq h list x (last x xs) p head r.chain.0
                    (prev-Chain h x xs list r.chain.2)))
              (rw append-nil at (
                relink-Chain h list x xs r.distinct.1 r.chain.2 (ground (arith, r.distinct.0)) head
                  ys [] head (rw append-nil s.distinct) (rw append-nil s.distinct.0)
                  (subst (λ l. Apart (x ∷ xs) (head ∷ head ∷ l)) (sym no_tail)
                    (Apart-twice (x ∷ xs) head ys apart.1))
                  (rw append-nil s.chain)));
        distinct = (
          ground (arith, has-append head ys (x ∷ xs), s.distinct.0),
          Distinct-append ys (x ∷ xs) s.distinct.1 r.distinct.1
              (Apart-comm (x ∷ xs) ys (Apart-drop_first (x ∷ xs) head ys apart.1)),
        );
      }

  init_list_head-IsRing : (g : Links) → IsRing (init_list_head g list) list []
  unfolding init_list_head
  init_list_head-IsRing g = record { chain = ground arith; distinct = (refl, tt) }

  init_list_head-other :
      (g : Links) (zs : List ℕ)
      → has list (head ∷ zs) ≡ false
      → IsRing g head zs
      → IsRing (init_list_head g list) head zs
  unfolding init_list_head
  init_list_head-other g zs f r = record {
    chain =
        Chain-set_prev _ list list head zs head f
          (Chain-set_next g list list head zs head f r.chain);
    distinct = r.distinct;
  }

  list_splice_init-eq :
      list_empty h list ≡ false
      → list_splice_init h list head ≡ init_list_head (list_splice h list head) list
  unfolding list_splice_init list_splice
  list_splice_init-eq e = rw e

  list_splice_tail_init-eq :
      list_empty h list ≡ false
      → list_splice_tail_init h list head ≡ init_list_head (list_splice_tail h list head) list
  unfolding list_splice_tail_init list_splice_tail
  list_splice_tail_init-eq e = rw e

  list_splice_init-nil : list_empty h list ≡ true → list_splice_init h list head ≡ h
  unfolding list_splice_init
  list_splice_init-nil e = rw e

  list_splice_tail_init-nil : list_empty h list ≡ true → list_splice_tail_init h list head ≡ h
  unfolding list_splice_tail_init
  list_splice_tail_init-nil e = rw e

  -- For two lists that share no node, `list_splice_init` and `list_splice_tail_init` put the
  -- entries of the first before or behind those of the second and leave the first one empty.
  pub list_splice_init-IsRing :
      (zs ys : List ℕ)
      → IsRing h list zs
      → IsRing h head ys
      → Apart (list ∷ zs) (head ∷ ys)
      → IsRing (list_splice_init h list head) head (zs ++ ys)
        × IsRing (list_splice_init h list head) list []
        × IsRing (list_splice_tail_init h list head) head (ys ++ zs)
        × IsRing (list_splice_tail_init h list head) list []
  list_splice_init-IsRing [] ys r s apart =
      let e = list_splice_init-nil (list_empty-nil r) in
      let t = list_splice_tail_init-nil (list_empty-nil r) in
      let no_tail : ys ++ [] ≡ ys = rw append-nil in
      (
        subst (λ g. IsRing g head ys) (sym e) s,
        subst (λ g. IsRing g list []) (sym e) r,
        subst₂ (λ g l. IsRing g head l) (sym t) (sym no_tail) s,
        subst (λ g. IsRing g list []) (sym t) r,
      )
  list_splice_init-IsRing (x ∷ xs) ys r s apart =
      let e = list_splice_init-eq (list_empty-cons x xs r) in
      let t = list_splice_tail_init-eq (list_empty-cons x xs r) in
      let out : has list (head ∷ (x ∷ xs) ++ ys) ≡ false =
        ground (arith, apart.0, has-append list (x ∷ xs) ys, r.distinct.0) in
      let out' : has list (head ∷ ys ++ x ∷ xs) ≡ false =
        ground (arith, apart.0, has-append list ys (x ∷ xs), r.distinct.0) in
      (
        subst (λ g. IsRing g head ((x ∷ xs) ++ ys)) (sym e)
            (init_list_head-other _ ((x ∷ xs) ++ ys) out
              (list_splice-IsRing (x ∷ xs) ys r s apart)),
        subst (λ g. IsRing g list []) (sym e) (init_list_head-IsRing _),
        subst (λ g. IsRing g head (ys ++ x ∷ xs)) (sym t)
            (init_list_head-other _ (ys ++ x ∷ xs) out'
              (list_splice_tail-IsRing (x ∷ xs) ys r s apart)),
        subst (λ g. IsRing g list []) (sym t) (init_list_head-IsRing _),
      )
