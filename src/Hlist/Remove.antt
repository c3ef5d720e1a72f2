-- ===== src/Hlist/Remove.antt =====
-- `hlist_del`, `hlist_move_list` and the walk.
use hlos.Base.{
  ℕ, zero, suc, ◌<◌, ◌≡◌, ◌≢◌, inl, inr, refl, sym, subst, false, Bool-cases, List, [], ◌∷◌, ◌++◌,
  some, arith, ◌==◌, if◌then◌else◌, length,
}
use hlos.Links.Chain.{has, last, first, ne_of_has}
use hlos.Hlist.{Nodes, unlink_node, hlist_del, hlist_move_list, hlist_walk, hlist_for_each}
use hlos.Hlist.Chain.{Nexts, IsHlist, Nexts-same, IsRemoved, remove-IsHlist}
use hlos.Hlist.Place.{Nexts-IsAt, neighbours}

module _ (h : Nodes) where
  del-IsRemoved :
      (n p q : ℕ) → h.cell n ≡ q → h.pprev n ≡ p → p ≢ n → q ≢ n → IsRemoved h (hlist_del h n) p n q
  unfolding hlist_del unlink_node
  del-IsRemoved n p q e k ne other =
      rw (e, k)
        (elim (Bool-cases (q == 0)) [
          | inl end ↦ rw end (record {
            over = ground arith;
            back_next = inl (ground arith);
            cell_else = λ a u v. ground arith;
            pprev_else = λ a u v. ground arith;
          })
          | inr more ↦ rw more (record {
            over = ground arith;
            back_next = inr (ground arith);
            cell_else = λ a u v. ground arith;
            pprev_else = λ a u v. ground arith;
          })
        ])

  -- `hlist_del` takes a node out of its list, wherever it stands, and leaves the others in order.
  pub hlist_del-IsHlist :
      (head : ℕ) (xs : List ℕ) (n : ℕ) (ys : List ℕ)
      → IsHlist h head (xs ++ n ∷ ys)
      → IsHlist (hlist_del h n) head (xs ++ ys)
  hlist_del-IsHlist head xs n ys r =
      let here = Nexts-IsAt h head xs n ys r.nexts in
      let apart = neighbours head xs n ys r.distinct here.some_node in
      remove-IsHlist h (hlist_del h n) n head xs ys r
        (del-IsRemoved n (last head xs) (first ys 0) here.next here.before apart.0 apart.1)

  walk-Nexts :
      (fuel a : ℕ) (xs : List ℕ)
      → Nexts h a xs
      → length xs < fuel
      → hlist_walk fuel h (h.cell a) ≡ some xs
  unfolding hlist_walk
  walk-Nexts zero a xs n lt = absurd (omega arith)
  walk-Nexts (suc fuel) a [] n lt = rw n refl
  walk-Nexts (suc fuel) a (x ∷ xs) n lt =
      let go : (x == 0) ≡ false = ground (arith, n.1) in
      rw (n.0, go, walk-Nexts fuel x xs n.3 (omega arith)) refl

  -- With more fuel than the list has nodes, `hlist_for_each` ends and visits exactly the nodes,
  -- in order.
  pub hlist_for_each-IsHlist :
      (fuel head : ℕ) (xs : List ℕ)
      → IsHlist h head xs
      → length xs < fuel
      → hlist_for_each fuel h head ≡ some xs
  unfolding hlist_for_each
  hlist_for_each-IsHlist fuel head xs r lt = walk-Nexts fuel head xs r.nexts lt

  move_list-eq :
      (old new x : ℕ)
      → h.cell old ≡ x
      → x ≢ 0
      → hlist_move_list h old new ≡ record {
        cell = λ a. if a == old then 0 else if a == new then x else h.cell a;
        pprev = λ a. if a == x then new else h.pprev a;
      }
  unfolding hlist_move_list
  move_list-eq old new x e ne =
      let read : (if new == new then x else h.cell new) ≡ x = ground arith in
      let some_node : (x == 0) ≡ false = ground arith in rw (e, read, some_node) refl

  -- `hlist_move_list` to a head outside the list moves all nodes there, in order, and leaves the
  -- old list empty.
  pub hlist_move_list-IsHlist :
      (old new : ℕ) (xs : List ℕ)
      → IsHlist h old xs
      → has new (old ∷ xs) ≡ false
      → IsHlist (hlist_move_list h old new) new xs × IsHlist (hlist_move_list h old new) old []
  unfolding hlist_move_list
  hlist_move_list-IsHlist old new [] r f =
      let e : h.cell old ≡ 0 = r.nexts in
      let read : (if new == new then h.cell old else h.cell new) ≡ 0 = ground (arith, e) in
      (
        rw read (record { nexts = ground (arith, e); distinct = (refl, tt) }),
        rw read (record { nexts = ground (arith, e); distinct = (refl, tt) }),
      )
  hlist_move_list-IsHlist old new (x ∷ xs) r f =
      let g : Nodes = record {
        cell = λ a. if a == old then 0 else if a == new then x else h.cell a;
        pprev = λ a. if a == x then new else h.pprev a;
      } in
      let n = r.nexts in
      let d = r.distinct in
      let moved : IsHlist g new (x ∷ xs) × IsHlist g old [] = (
        record {
          nexts = (
            ground arith,
            n.1,
            ground arith,
            Nexts-same h g x xs
                (λ b k.
                  let a = ne_of_has b old (x ∷ xs) k d.0 in
                  let c = ne_of_has b new (x ∷ xs) k (ground arith) in ground (arith, a, c))
                (λ b k. let a = ne_of_has b x xs k d.1.0 in ground (arith, a)) n.3,
          );
          distinct = (ground arith, d.1);
        },
        record { nexts = ground arith; distinct = (refl, tt) },
      ) in
      subst (λ t. IsHlist t new (x ∷ xs) × IsHlist t old []) (sym (move_list-eq old new x n.0 n.1))
        moved
