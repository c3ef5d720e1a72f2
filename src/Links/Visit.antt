-- ===== src/Links/Visit.antt =====
-- What the loops over the entries of a list see and leave.
use mathlib.Core.List.{append_assoc}
use hlos.Base.{
  ℕ, zero, suc, ◌^◌, ◌<◌, ◌≤◌, ◌≡◌, inl, inr, refl, ap, sym, subst, ◌∙◌, Bool, false, Bool-cases,
  List, [], ◌∷◌, ◌++◌, map, Option, some, arith, ◌==◌, ==_refl, length, length-append, All,
  if◌then◌else◌,
}
use hlos.Links.{Links, list_del}
use hlos.Links.Chain.{has, has-append, IsRing, Inner, Chain→Inner, first, next-Chain, Chain-split}
use hlos.Links.Remove.{list_del-IsRing}
use hlos.Links.Entry.{
  list_entry, member_of, next_entry, Visits, saw, each, each_safe, list_for_each_safe,
  list_for_each_entry, list_for_each_entry_continue, list_for_each_entry_from,
  list_for_each_entry_safe,
}

-- The entries that `drop` does not name.
abbrev pub kept : (ℕ → Bool) → List ℕ → List ℕ
kept drop [] = []
kept drop (x ∷ xs) = if drop x then kept drop xs else x ∷ kept drop xs

-- A body that takes the entries out that `drop` names.
abbrev pub del_if : (node_of : ℕ → ℕ) → (ℕ → Bool) → Links → ℕ → Links
del_if node_of drop h pos = if drop (node_of pos) then list_del h (node_of pos) else h

-- The loop sees the structures of the nodes `xs`, and the list keeps `ws` and what `drop` leaves of
-- `xs`.
pub record IsSwept (ent : ℕ → ℕ) (drop : ℕ → Bool) (head : ℕ) (ws xs : List ℕ)
    (result : Option Visits) : Type 0 where
  pub after : Links
  pub ends : result ≡ some (map ent xs, after)
  pub ring : IsRing after head (ws ++ kept drop xs)

module _ (step : Links → ℕ → ℕ) (node_of ent : ℕ → ℕ) (drop : ℕ → Bool) (head : ℕ)
    (stepped : (h : Links) (x : ℕ) → node_of (ent x) ≡ x → step h (ent x) ≡ ent (h.next x)) where
  -- The nodes that `ent` and `node_of` lead back to.
  abbrev AreEntries : List ℕ → Type 0
  AreEntries xs = All (λ x. node_of (ent x) ≡ x) xs

  abbrev body : Links → ℕ → Links
  body = del_if node_of drop

  each_safe-stop :
      (fuel : ℕ) (h : Links) (n : ℕ)
      → node_of (ent head) ≡ head
      → each_safe step node_of body head (suc fuel) h (ent head) n ≡ some ([], h)
  unfolding each_safe
  each_safe-stop fuel h n e = rw (e, ==_refl head) refl

  each_safe-more :
      (fuel : ℕ) (h g : Links) (x n : ℕ) (v : Visits)
      → node_of (ent x) ≡ x
      → (x == head) ≡ false
      → body h (ent x) ≡ g
      → each_safe step node_of body head fuel g n (step g n) ≡ some v
      → each_safe step node_of body head (suc fuel) h (ent x) n ≡ saw (ent x) v
  unfolding each_safe
  each_safe-more fuel h g x n v e ne b rest = rw (b, rest, e, ne) refl

  first-entry :
      (xs : List ℕ)
      → node_of (ent head) ≡ head
      → AreEntries xs
      → node_of (ent (first xs head)) ≡ first xs head
  first-entry [] e a = e
  first-entry (x ∷ xs) e a = a.0

  not_head :
      (h : Links) (ws : List ℕ) (x : ℕ) (xs : List ℕ)
      → IsRing h head (ws ++ x ∷ xs)
      → (x == head) ≡ false
  not_head h ws x xs r = ground (arith, r.distinct.0, has-append head ws (x ∷ xs))

  -- One round: the body leaves `g`, and the rest of the loop sweeps `xs` there.
  sweep-round :
      (fuel : ℕ) (h g : Links) (ws vs : List ℕ) (x : ℕ) (xs : List ℕ)
      → IsRing h head (ws ++ x ∷ xs)
      → node_of (ent head) ≡ head
      → AreEntries (x ∷ xs)
      → body h (ent x) ≡ g
      → vs ++ kept drop xs ≡ ws ++ kept drop (x ∷ xs)
      → IsSwept ent drop head vs xs (
          each_safe step node_of body head fuel g
            (ent (first xs head))
            (ent (g.next (first xs head))))
      → IsSwept ent drop head ws
          (x ∷ xs)
          (each_safe step node_of body head (suc fuel) h (ent x) (ent (h.next x)))
  sweep-round fuel h g ws vs x xs r e a b same rest =
      let next = next-Chain h x xs head (Chain-split h head ws x xs head r.chain).1 in
      let step_n = stepped g (first xs head) (first-entry xs e a.1) in
      let more =
        each_safe-more fuel h g x (ent (first xs head)) (map ent xs, rest.after) a.0
          (not_head h ws x xs r) b
          (ap (λ n. each_safe step node_of body head fuel g (ent (first xs head)) n) step_n
            ∙ rest.ends) in
      record {
        after = rest.after;
        ends = ap (λ n. each_safe step node_of body head (suc fuel) h (ent x) (ent n)) next ∙ more;
        ring = subst (IsRing rest.after head) same rest.ring;
      }

  sweep :
      (fuel : ℕ) (h : Links) (ws xs : List ℕ)
      → IsRing h head (ws ++ xs)
      → node_of (ent head) ≡ head
      → AreEntries xs
      → length xs < fuel
      → IsSwept ent drop head ws xs (
          each_safe step node_of body head fuel h
            (ent (first xs head))
            (ent (h.next (first xs head))))
  sweep zero h ws xs r e a enough = absurd (omega arith)
  sweep (suc fuel) h ws [] r e a enough = record {
    after = h;
    ends = each_safe-stop fuel h _ e;
    ring = r;
  }
  sweep (suc fuel) h ws (x ∷ xs) r e a enough = elim (Bool-cases (drop x)) [
    | inl gone ↦
        sweep-round fuel h (list_del h x) ws ws x xs r e a (rw (a.0, body, gone) refl)
          (rw gone refl)
          (sweep fuel (list_del h x) ws xs (list_del-IsRing h head ws x xs r).0 e a.1 (omega arith))
    | inr stays ↦
        let assoc = append_assoc ws (x ∷ []) xs in
        sweep-round fuel h h ws (ws ++ x ∷ []) x xs r e a (rw (a.0, body, stays) refl)
          (append_assoc ws (x ∷ []) (kept drop xs) ∙ rw stays refl)
          (sweep fuel h (ws ++ x ∷ []) xs (subst (IsRing h head) (sym assoc) r) e a.1 (omega arith))
  ]

-- With a body that takes out of the list whatever entries a test names, `list_for_each_safe` ends
-- if the fuel is more than the number of entries: it visits every entry once, in order, and
-- leaves the entries that the test does not name, in order.
pub list_for_each_safe-IsSwept :
    (drop : ℕ → Bool) (fuel : ℕ) (h : Links) (head : ℕ) (xs : List ℕ)
    → IsRing h head xs
    → length xs < fuel
    → IsSwept (λ p. p) drop head [] xs (list_for_each_safe fuel (del_if (λ p. p) drop) h head)
unfolding list_for_each_safe
list_for_each_safe-IsSwept drop fuel h head xs r enough = rw (next-Chain h head xs head r.chain) (
    sweep (λ g pos. g.next pos) (λ p. p) (λ p. p) drop head (λ h x e. refl) fuel h [] xs r refl
      (All-refl xs) enough)
  where
    All-refl : (xs : List ℕ) → All (λ x. x ≡ x) xs
    All-refl [] = tt
    All-refl (x ∷ xs) = (refl, All-refl xs)

-- A body that leaves the links alone.
abbrev pub unchanged : Links → ℕ → Links
unchanged h pos = h

module _ (offset : ℕ) (inside : offset ≤ 2 ^ 32) where
  abbrev entry_at : ℕ → ℕ
  entry_at x = list_entry x offset

  member_of-list_entry : (x : ℕ) → x < 2 ^ 32 → member_of (entry_at x) offset ≡ x
  unfolding member_of list_entry
  member_of-list_entry x lt = omega arith

  next_entry-eq :
      (h : Links) (x : ℕ)
      → member_of (entry_at x) offset ≡ x
      → next_entry offset h (entry_at x) ≡ entry_at (h.next x)
  unfolding next_entry
  next_entry-eq h x e = rw e refl

  All-entries :
      (xs : List ℕ) → All (λ x. x < 2 ^ 32) xs → All (λ x. member_of (entry_at x) offset ≡ x) xs
  All-entries [] a = tt
  All-entries (x ∷ xs) a = (member_of-list_entry x a.0, All-entries xs a.1)

  first-lt :
      (head : ℕ) (xs : List ℕ) → head < 2 ^ 32 → All (λ x. x < 2 ^ 32) xs → first xs head < 2 ^ 32
  first-lt head [] lt a = lt
  first-lt head (x ∷ xs) lt a = a.0

  -- On 32-bit addresses and with an offset of at most 2^32, with a body that takes out of the
  -- list whatever entries a test names, `list_for_each_entry_safe` ends if the fuel is more than
  -- the number of entries: it visits the structure of every entry once, in order, and leaves
  -- the entries that the test does not name, in order.
  pub list_for_each_entry_safe-IsSwept :
      (drop : ℕ → Bool) (fuel : ℕ) (h : Links) (head : ℕ) (xs : List ℕ)
      → IsRing h head xs
      → head < 2 ^ 32
      → All (λ x. x < 2 ^ 32) xs
      → length xs < fuel
      → IsSwept entry_at drop head [] xs
          (list_for_each_entry_safe fuel offset (del_if (λ p. member_of p offset) drop) h head)
  unfolding list_for_each_entry_safe
  list_for_each_entry_safe-IsSwept drop fuel h head xs r lt a enough =
      rw
        (
          next-Chain h head xs head r.chain,
          next_entry-eq h (first xs head) (member_of-list_entry _ (first-lt head xs lt a)),
        )
        (sweep (next_entry offset) (λ p. member_of p offset) entry_at drop head next_entry-eq fuel h
          [] xs r (member_of-list_entry head lt) (All-entries xs a) enough)

  each-more :
      (fuel : ℕ) (h : Links) (head x next : ℕ) (v : Visits)
      → member_of (entry_at x) offset ≡ x
      → (x == head) ≡ false
      → next_entry offset h (entry_at x) ≡ next
      → each (next_entry offset) (λ p. member_of p offset) unchanged head fuel h next ≡ some v
      → each (next_entry offset) (λ p. member_of p offset) unchanged head (suc fuel) h (entry_at x)
        ≡ saw (entry_at x) v
  unfolding each
  each-more fuel h head x next v e ne n rest = rw (e, ne, n, rest) refl

  each-first :
      (fuel : ℕ) (h : Links) (head : ℕ) (xs : List ℕ)
      → has head xs ≡ false
      → head < 2 ^ 32
      → All (λ x. x < 2 ^ 32) xs
      → Inner h xs head
      → length xs < fuel
      → each
          (next_entry offset)
          (λ p. member_of p offset)
          unchanged
          head
          fuel
          h
          (entry_at (first xs head))
        ≡ some (map entry_at xs, h)
  unfolding each
  each-first zero h head xs out lt small c enough = absurd (omega arith)
  each-first (suc fuel) h head [] out lt small c enough =
      rw (member_of-list_entry head lt, ==_refl head) refl
  each-first (suc fuel) h head (x ∷ xs) out lt small c enough =
      let node = member_of-list_entry x small.0 in
      each-more fuel h head x (entry_at (first xs head)) (map entry_at xs, h) node (ground arith)
        (next_entry-eq h x node ∙ ap entry_at (next-Chain h x xs head c))
        (each-first fuel h head xs (ground arith) lt small.1 (Chain→Inner h x xs head c)
          (omega arith))

  -- With a body that leaves the links alone, on 32-bit addresses and with an offset of at most 2^32,
  -- list_for_each_entry visits the structures of all entries, list_for_each_entry_from those from
  -- its start on, and list_for_each_entry_continue those behind its start, in order.
  pub list_for_each_entry-IsRing :
      (fuel : ℕ) (h : Links) (head : ℕ) (ws : List ℕ) (x : ℕ) (ys : List ℕ)
      → IsRing h head (ws ++ x ∷ ys)
      → head < 2 ^ 32
      → All (λ x. x < 2 ^ 32) (ws ++ x ∷ ys)
      → length (ws ++ x ∷ ys) < fuel
      → (list_for_each_entry fuel offset unchanged h head ≡ some (map entry_at (ws ++ x ∷ ys), h))
        × (list_for_each_entry_from fuel offset unchanged h head (entry_at x)
            ≡ some (map entry_at (x ∷ ys), h))
        × (list_for_each_entry_continue fuel offset unchanged h head (entry_at x)
            ≡ some (map entry_at ys, h))
  unfolding list_for_each_entry list_for_each_entry_from list_for_each_entry_continue
  list_for_each_entry-IsRing fuel h head ws x ys r lt small enough =
      let cut = Chain-split h head ws x ys head r.chain in
      let out = has-append head ws (x ∷ ys) in
      let part = All-right ws (x ∷ ys) small in
      let short = length-append ws (x ∷ ys) in
      (
        rw (next-Chain h head (ws ++ x ∷ ys) head r.chain) (
            each-first fuel h head (ws ++ x ∷ ys) r.distinct.0 lt small
              (Chain→Inner h head (ws ++ x ∷ ys) head r.chain) enough),
        each-first fuel h head (x ∷ ys) (ground (arith, r.distinct.0)) lt part cut.1 (omega arith),
        rw (next_entry-eq h x (member_of-list_entry x part.0), next-Chain h x ys head cut.1)
            (each-first fuel h head ys (ground (arith, r.distinct.0)) lt part.1
              (Chain→Inner h x ys head cut.1) (omega arith)),
      )
    where
      All-right : (ws xs : List ℕ) → All (λ x. x < 2 ^ 32) (ws ++ xs) → All (λ x. x < 2 ^ 32) xs
      All-right [] xs a = a
      All-right (w ∷ ws) xs a = All-right ws xs a.1
