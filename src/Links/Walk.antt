-- ===== src/Links/Walk.antt =====
-- The iterations `list_for_each` and `list_for_each_prev`.
use mathlib.Core.List
use mathlib.Core.List.{reverse_aux}
use mathlib.Core.Option
use hlos.Base.{
  ℕ, zero, suc, ◌+◌, ◌-◌, ◌<◌, ◌≡◌, ◌≢◌, refl, ap, sym, ◌∙◌, false, Option, none, some, List, [],
  ◌∷◌, arith, length, ne→==, ==_refl,
}
use hlos.Links.{Links, walk, list_for_each, walk_prev, list_for_each_prev}
use hlos.Links.Chain.{has, Chain, IsRing, last, first, next-Chain, prev-Chain}

map_same : (o : Option (List ℕ)) → o ≡ Option.map (λ t. t) o
map_same none = refl
map_same (some t) = refl

map-map :
    (xs : List ℕ) (x : ℕ) (o : Option (List ℕ))
    → Option.map (λ t. reverse_aux xs t) (Option.map (λ t. x ∷ t) o)
      ≡ Option.map (λ t. reverse_aux xs (x ∷ t)) o
map-map xs x none = refl
map-map xs x (some t) = refl

module _ (h : Links) (head : ℕ) where
  walk_prev-stop : (k : ℕ) → walk_prev (suc k) h head head ≡ some []
  unfolding walk_prev
  walk_prev-stop k = rw (==_refl head)

  walk-Chain :
      (fuel a : ℕ) (xs : List ℕ)
      → length xs < fuel
      → has head xs ≡ false
      → Chain h a xs head
      → walk fuel h (first xs head) head ≡ some xs
  unfolding walk
  walk-Chain zero a xs l f c = absurd (omega arith)
  walk-Chain (suc fuel) a [] l f c = rw (==_refl head)
  walk-Chain (suc fuel) a (x ∷ xs) l f c =
      rw (next-Chain h x xs head c.2)
        (ground (arith, walk-Chain fuel x xs (omega arith) (ground arith) c.2))

  -- On a list of fewer entries than the fuel `list_for_each` ends and visits the entries once
  -- each, in order.
  pub list_for_each-IsRing :
      (fuel : ℕ) (xs : List ℕ)
      → IsRing h head xs
      → length xs < fuel
      → list_for_each fuel h head ≡ some xs
  unfolding list_for_each
  list_for_each-IsRing fuel xs r l =
      rw (next-Chain h head xs head r.chain) (walk-Chain fuel head xs l r.distinct.0 r.chain)

  walk_prev-step :
      (k a x : ℕ)
      → h.prev x ≡ a
      → head ≢ x
      → walk_prev (suc k) h x head ≡ Option.map (λ t. x ∷ t) (walk_prev k h a head)
  unfolding walk_prev
  walk_prev-step k a x e ne = rw (ne→== x head (λ q. ne (sym q)), e)

  walk_prev-Chain :
      (k n a : ℕ) (xs : List ℕ) (e : ℕ)
      → length xs + k ≡ n
      → has head xs ≡ false
      → Chain h a xs e
      → walk_prev n h (last a xs) head ≡ Option.map (λ t. reverse_aux xs t) (walk_prev k h a head)
  walk_prev-Chain k n a [] e m f c =
      let same : k ≡ n = omega arith in rw (← same) (map_same (walk_prev k h a head))
  walk_prev-Chain k n a (x ∷ xs) e m f c =
      walk_prev-Chain (suc k) n x xs e (omega arith) (ground arith) c.2
      ∙ ap (Option.map (λ t. reverse_aux xs t)) (walk_prev-step k a x c.1 (ground arith))
      ∙ map-map xs x (walk_prev k h a head)

  -- `list_for_each_prev` visits them in the opposite order.
  pub list_for_each_prev-IsRing :
      (fuel : ℕ) (xs : List ℕ)
      → IsRing h head xs
      → length xs < fuel
      → list_for_each_prev fuel h head ≡ some (List.reverse xs)
  unfolding list_for_each_prev
  list_for_each_prev-IsRing fuel xs r l = rw (prev-Chain h head xs head r.chain) (
      walk_prev-Chain (suc (fuel - length xs - 1)) fuel head xs head (omega arith) r.distinct.0
        r.chain
      ∙ ap (Option.map (λ t. reverse_aux xs t)) (walk_prev-stop (fuel - length xs - 1)))
