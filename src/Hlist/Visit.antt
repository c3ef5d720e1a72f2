-- ===== src/Hlist/Visit.antt =====
-- What the safe loops over the nodes of a list see and leave.
use mathlib.Core.List.{append_assoc}
use hlos.Base.{
  ℕ, zero, suc, ◌+◌, ◌-◌, ◌%◌, ◌^◌, ◌<◌, ◌≡◌, ◌≢◌, inl, inr, refl, ap, sym, subst, ◌∙◌, Bool, false,
  Bool-cases, List, [], ◌∷◌, ◌++◌, map, Option, some, arith, ◌==◌, length, All, if◌then◌else◌,
}
use hlos.Links.Chain.{first}
use hlos.Links.Entry.{list_entry, member_of}
use hlos.Links.Visit.{kept}
use hlos.Hlist.{Nodes, hlist_del}
use hlos.Hlist.Chain.{Nexts, IsHlist}
use hlos.Hlist.Place.{Nexts-IsAt, Nexts-first}
use hlos.Hlist.Remove.{hlist_del-IsHlist}
use hlos.Hlist.Entry.{
  hlist_entry, hlist_entry_safe, NodeVisits, node_saw, hlist_each_safe, hlist_for_each_safe,
  next_hlist_entry, hlist_for_each_entry_safe,
}

-- A body that takes the nodes out that `drop` names.
abbrev pub hlist_del_if : (node_of : ℕ → ℕ) → (ℕ → Bool) → Nodes → ℕ → Nodes
hlist_del_if node_of drop h pos = if drop (node_of pos) then hlist_del h (node_of pos) else h

-- The loop sees the structures of the nodes `xs`, and the list keeps `ws` and what `drop` leaves of
-- `xs`.
pub record IsHlistSwept (ent : ℕ → ℕ) (drop : ℕ → Bool) (head : ℕ) (ws xs : List ℕ)
    (result : Option NodeVisits) : Type 0 where
  pub after : Nodes
  pub ends : result ≡ some (map ent xs, after)
  pub nodes : IsHlist after head (ws ++ kept drop xs)

-- A node that its structure leads back to.
abbrev IsEntry : (node_of ent : ℕ → ℕ) → ℕ → Type 0
IsEntry node_of ent x = (node_of (ent x) ≡ x) × (ent x ≢ 0)

module _ (step : Nodes → ℕ → ℕ) (node_of ent : ℕ → ℕ) (drop : ℕ → Bool) (head : ℕ)
    (ent_null : ent 0 ≡ 0)
    (stepped : (h : Nodes) (x : ℕ) → node_of (ent x) ≡ x → step h (ent x) ≡ ent (h.cell x)) where
  abbrev body : Nodes → ℕ → Nodes
  body = hlist_del_if node_of drop

  hlist_each_safe-stop :
      (fuel : ℕ) (h : Nodes) → hlist_each_safe step body (suc fuel) h (ent 0) ≡ some ([], h)
  unfolding hlist_each_safe
  hlist_each_safe-stop fuel h = rw ent_null refl

  hlist_each_safe-more :
      (fuel : ℕ) (h g : Nodes) (x n : ℕ) (v : NodeVisits)
      → (ent x == 0) ≡ false
      → body h (ent x) ≡ g
      → step h (ent x) ≡ n
      → hlist_each_safe step body fuel g n ≡ some v
      → hlist_each_safe step body (suc fuel) h (ent x) ≡ node_saw (ent x) v
  unfolding hlist_each_safe
  hlist_each_safe-more fuel h g x n v ne b e rest = rw (b, e, rest, ne) refl

  sweep_round :
      (fuel : ℕ) (h g : Nodes) (ws vs : List ℕ) (x : ℕ) (xs : List ℕ)
      → IsHlist h head (ws ++ x ∷ xs)
      → IsEntry node_of ent x
      → body h (ent x) ≡ g
      → vs ++ kept drop xs ≡ ws ++ kept drop (x ∷ xs)
      → IsHlistSwept ent drop head vs xs (hlist_each_safe step body fuel g (ent (first xs 0)))
      → IsHlistSwept ent drop head ws (x ∷ xs) (hlist_each_safe step body (suc fuel) h (ent x))
  sweep_round fuel h g ws vs x xs r e b same rest =
      let here = Nexts-IsAt h head ws x xs r.nexts in
      record {
        after = rest.after;
        ends =
            hlist_each_safe-more fuel h g x (ent (first xs 0)) (map ent xs, rest.after)
              (ground arith) b (stepped h x e.0 ∙ ap ent here.next) rest.ends;
        nodes = subst (IsHlist rest.after head) same rest.nodes;
      }

  sweep :
      (fuel : ℕ) (h : Nodes) (ws xs : List ℕ)
      → IsHlist h head (ws ++ xs)
      → All (IsEntry node_of ent) xs
      → length xs < fuel
      → IsHlistSwept ent drop head ws xs (hlist_each_safe step body fuel h (ent (first xs 0)))
  sweep zero h ws xs r a enough = absurd (omega arith)
  sweep (suc fuel) h ws [] r a enough = record {
    after = h;
    ends = hlist_each_safe-stop fuel h;
    nodes = r;
  }
  sweep (suc fuel) h ws (x ∷ xs) r a enough = elim (Bool-cases (drop x)) [
    | inl gone ↦
        sweep_round fuel h (hlist_del h x) ws ws x xs r a.0 (rw (a.0.0, body, gone) refl)
          (rw gone refl)
          (sweep fuel (hlist_del h x) ws xs (hlist_del-IsHlist h head ws x xs r) a.1 (omega arith))
    | inr stays ↦
        sweep_round fuel h h ws (ws ++ x ∷ []) x xs r a.0 (rw (a.0.0, body, stays) refl)
          (append_assoc ws (x ∷ []) (kept drop xs) ∙ rw stays refl)
          (sweep fuel h (ws ++ x ∷ []) xs
            (subst (IsHlist h head) (sym (append_assoc ws (x ∷ []) xs)) r) a.1 (omega arith))
  ]

-- With a body that takes out of the list whatever nodes `drop` names, hlist_for_each_safe ends if the
-- fuel is more than the number of nodes: it visits every node once, in order, and leaves the nodes
-- that `drop` does not name, in order.
pub hlist_for_each_safe-IsHlistSwept :
    (drop : ℕ → Bool) (fuel : ℕ) (h : Nodes) (head : ℕ) (xs : List ℕ)
    → IsHlist h head xs
    → length xs < fuel
    → IsHlistSwept
        (λ p. p)
        drop
        head
        []
        xs
        (hlist_for_each_safe fuel (hlist_del_if (λ p. p) drop) h head)
unfolding hlist_for_each_safe
hlist_for_each_safe-IsHlistSwept drop fuel h head xs r enough = rw (Nexts-first h head xs r.nexts) (
    sweep (λ g pos. g.cell pos) (λ p. p) (λ p. p) drop head refl (λ h x e. refl) fuel h [] xs r
      (All-nodes head xs r.nexts) enough)
  where
    All-nodes : (a : ℕ) (xs : List ℕ) → Nexts h a xs → All (IsEntry (λ p. p) (λ p. p)) xs
    All-nodes a [] n = tt
    All-nodes a (x ∷ xs) n = ((refl, n.1), All-nodes x xs n.3)

module _ (offset : ℕ) where
  abbrev hlist_entry_at : ℕ → ℕ
  hlist_entry_at x = hlist_entry_safe x offset

  hlist_entry_at-IsEntry :
      (x : ℕ) → (offset < x) × (x < 2 ^ 32) → IsEntry (λ p. member_of p offset) hlist_entry_at x
  unfolding hlist_entry_safe hlist_entry list_entry member_of
  hlist_entry_at-IsEntry x lt =
      let some_node : (x == 0) ≡ false = ground arith in
      let wrap : (x + 2 ^ 32 - offset) % 2 ^ 32 ≡ x - offset = omega arith in
      rw (some_node, wrap) (omega arith, omega arith)

  All-entries :
      (xs : List ℕ)
      → All (λ x. (offset < x) × (x < 2 ^ 32)) xs
      → All (IsEntry (λ p. member_of p offset) hlist_entry_at) xs
  All-entries [] a = tt
  All-entries (x ∷ xs) a = (hlist_entry_at-IsEntry x a.0, All-entries xs a.1)

  next_hlist_entry-eq :
      (h : Nodes) (x : ℕ)
      → member_of (hlist_entry_at x) offset ≡ x
      → next_hlist_entry offset h (hlist_entry_at x) ≡ hlist_entry_at (h.cell x)
  unfolding next_hlist_entry
  next_hlist_entry-eq h x e = rw e refl

  -- On 32-bit addresses above the offset, with a body that takes out of the list whatever nodes a
  -- test names, `hlist_for_each_entry_safe` ends if the fuel is more than the number of nodes: it
  -- visits the structure of every node once, in order, and leaves the nodes that the test does
  -- not name, in order.
  pub hlist_for_each_entry_safe-IsHlistSwept :
      (drop : ℕ → Bool) (fuel : ℕ) (h : Nodes) (head : ℕ) (xs : List ℕ)
      → IsHlist h head xs
      → All (λ x. (offset < x) × (x < 2 ^ 32)) xs
      → length xs < fuel
      → IsHlistSwept hlist_entry_at drop head [] xs (
          hlist_for_each_entry_safe fuel offset
            (hlist_del_if (λ p. member_of p offset) drop)
            h
            head)
  unfolding hlist_for_each_entry_safe
  hlist_for_each_entry_safe-IsHlistSwept drop fuel h head xs r a enough =
      rw (Nexts-first h head xs r.nexts) (
        sweep (next_hlist_entry offset) (λ p. member_of p offset) hlist_entry_at drop head
          (unfold hlist_entry_safe in refl) next_hlist_entry-eq fuel h [] xs r (All-entries xs a)
          enough)
