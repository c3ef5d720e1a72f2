-- ===== src/Hlist/Insert.antt =====
-- `hlist_add_head`, `hlist_add_before` and `hlist_add_after`.
use hlos.Base.{
  ℕ, ◌≡◌, ◌≢◌, inl, inr, ap, sym, subst, ◌∙◌, false, Bool-cases, List, [], ◌∷◌, ◌++◌, arith, ◌==◌,
  if◌then◌else◌,
}
use hlos.Links.Chain.{has, last, first, has-append, has-last, has-first, ne_of_has}
use hlos.Hlist.{Nodes, hlist_add_head, hlist_add_before, hlist_add_after}
use hlos.Hlist.Chain.{Nexts, IsHlist, IsInserted, insert-IsHlist}
use hlos.Hlist.Place.{Nexts-first, Nexts-IsAt}

module _ (h : Nodes) where
  add_head-IsInserted :
      (n head q : ℕ)
      → h.cell head ≡ q
      → n ≢ head
      → q ≢ n
      → IsInserted h (hlist_add_head h n head) head n q
  unfolding hlist_add_head
  add_head-IsInserted n head q e ne other = rw e (elim (Bool-cases (q == 0)) [
    | inl end ↦ rw end (record {
      to_new = ground arith;
      from_new = ground arith;
      back = ground arith;
      back_next = inl (ground arith);
      cell_else = λ a u v. ground arith;
      pprev_else = λ a u v. ground arith;
    })
    | inr more ↦ rw more (record {
      to_new = ground arith;
      from_new = ground arith;
      back = ground arith;
      back_next = inr (ground arith);
      cell_else = λ a u v. ground arith;
      pprev_else = λ a u v. ground arith;
    })
  ])

  -- `hlist_add_head` puts a node that is not in the list, and is not null, in front.
  pub hlist_add_head-IsHlist :
      (n head : ℕ) (xs : List ℕ)
      → IsHlist h head xs
      → has n (head ∷ xs) ≡ false
      → n ≢ 0
      → IsHlist (hlist_add_head h n head) head (n ∷ xs)
  hlist_add_head-IsHlist n head xs r f ne =
      insert-IsHlist h (hlist_add_head h n head) n head [] xs r f ne (
        add_head-IsInserted n head (first xs 0) (Nexts-first h head xs r.nexts) (ground arith)
          (ground (arith, has-first xs 0, ne_of_has (first xs 0) n (0 ∷ xs))))

  add_before-IsInserted :
      (n next p : ℕ)
      → h.pprev next ≡ p
      → n ≢ next
      → n ≢ p
      → IsInserted h (hlist_add_before h n next) p n next
  unfolding hlist_add_before
  add_before-IsInserted n next p e ne other =
      let place : (if n == next then n else if n == n then p else h.pprev n) ≡ p = ground arith in
      rw (e, place)
        (record {
          to_new = ground arith;
          from_new = ground arith;
          back = ground arith;
          back_next = inr (ground arith);
          cell_else = λ a u v. ground arith;
          pprev_else = λ a u v. ground arith;
        })

  -- `hlist_add_before` puts a node that is not in the list, and is not null, in front of a node
  -- of the list.
  pub hlist_add_before-IsHlist :
      (n head : ℕ) (xs : List ℕ) (next : ℕ) (ys : List ℕ)
      → IsHlist h head (xs ++ next ∷ ys)
      → has n (head ∷ xs ++ next ∷ ys) ≡ false
      → n ≢ 0
      → IsHlist (hlist_add_before h n next) head (xs ++ n ∷ next ∷ ys)
  hlist_add_before-IsHlist n head xs next ys r f ne =
      let here = Nexts-IsAt h head xs next ys r.nexts in
      insert-IsHlist h (hlist_add_before h n next) n head xs (next ∷ ys) r f ne (
        add_before-IsInserted n next (last head xs) here.before
          (ground (arith, has-append n xs (next ∷ ys)))
          (ground (
            arith,
            has-append n xs (next ∷ ys),
            has-last head xs,
            ne_of_has (last head xs) n (head ∷ xs),
          )))

  add_after-IsInserted :
      (n next q : ℕ)
      → h.cell n ≡ q
      → n ≢ next
      → q ≢ next
      → IsInserted h (hlist_add_after h n next) n next q
  unfolding hlist_add_after
  add_after-IsInserted n next q e ne other =
      let place : (if next == n then next else if next == next then q else h.cell next) ≡ q =
        ground arith in
      rw (e, place)
        (elim (Bool-cases (q == 0)) [
          | inl end ↦ rw end (record {
            to_new = ground arith;
            from_new = ground arith;
            back = ground arith;
            back_next = inl (ground arith);
            cell_else = λ a u v. ground arith;
            pprev_else = λ a u v. ground arith;
          })
          | inr more ↦ rw more (record {
            to_new = ground arith;
            from_new = ground arith;
            back = ground arith;
            back_next = inr (ground arith);
            cell_else = λ a u v. ground arith;
            pprev_else = λ a u v. ground arith;
          })
        ])

  Nexts-last : (a : ℕ) (xs ys : List ℕ) → Nexts h a (xs ++ ys) → h.cell (last a xs) ≡ first ys 0
  Nexts-last a [] ys n = Nexts-first h a ys n
  Nexts-last a (x ∷ xs) ys n = Nexts-last x xs ys n.3

  -- `hlist_add_after` puts a node that is not in the list, and is not null, behind the last of `us`.
  pub hlist_add_after-IsHlist :
      (n next head : ℕ) (us ys : List ℕ)
      → last head us ≡ n
      → IsHlist h head (us ++ ys)
      → has next (head ∷ us ++ ys) ≡ false
      → next ≢ 0
      → IsHlist (hlist_add_after h n next) head (us ++ next ∷ ys)
  hlist_add_after-IsHlist n next head us ys e r f ne =
      insert-IsHlist h (hlist_add_after h n next) next head us ys r f ne (
        subst (λ p. IsInserted h (hlist_add_after h n next) p next (first ys 0)) (sym e)
          (add_after-IsInserted n next (first ys 0)
            (ap h.cell (sym e) ∙ Nexts-last head us ys r.nexts)
            (ground (
              arith,
              e,
              has-append next us ys,
              has-last head us,
              ne_of_has (last head us) next (head ∷ us),
            ))
            (ground (
              arith,
              has-append next us ys,
              has-first ys 0,
              ne_of_has (first ys 0) next (0 ∷ ys),
            ))))
