-- ===== src/Slob/Split.antt =====
-- `split_chunk` and `slob_init`.
use mathlib.Core.List.{map-append, append_assoc}
use hlos.Base.{
  ℕ, ◌+◌, ◌-◌, ◌%◌, ◌^◌, ◌<◌, ◌≤◌, ◌≡◌, ◌⊎◌, inl, inr, refl, ap, sym, subst, false, Bool-cases,
  List, [], ◌∷◌, ◌++◌, map, arith, ltb, if◌then◌else◌,
}
use hlos.Links.{Links, list_add, link_between}
use hlos.Links.Chain.{
  has, IsRing, Chain, last, first, has-append, next-Chain, Chain-split, Distinct-insert,
}
use hlos.Links.Insert.{link_between-Chain, list_add-IsRing}
use hlos.Slob.{Heap, split_chunk, cut_chunk, slob_init}
use hlos.Slob.Blocks.{
  Block, node, Tiles, Tiles-le, Tiles-append, Tiles-split, Tiles-has, Fields-same, Fields-append,
  Fields-split, Holds,
}

-- What `split_chunk` makes of a free block that is longer than `len`: a used and a free part, or,
-- where no further chunk fits, the same free block.
abbrev used_part : ℕ → Block → Block
used_part len b = record { addr = b.addr; len = len - 12; used = 1 }

abbrev free_part : ℕ → Block → Block
free_part len b = record { addr = b.addr + len; len = b.len - len; used = 0 }

unfoldable pub carve : ℕ → Block → List Block
carve len b = if ltb (b.len - len) 44 then b ∷ [] else used_part len b ∷ free_part len b ∷ []

map-parts :
    (len : ℕ) (xs : List Block) (b : Block) (ys : List Block)
    → map node xs ++ node b ∷ (b.addr + len + 4) ∷ map node ys
      ≡ map node (xs ++ used_part len b ∷ free_part len b ∷ ys)
map-parts len [] b ys = refl
map-parts len (x ∷ xs) b ys = ap (λ t. node x ∷ t) (map-parts len xs b ys)

last-after : (e n : ℕ) (xs : List ℕ) → last e (xs ++ n ∷ []) ≡ n
last-after e n [] = refl
last-after e n (x ∷ xs) = last-after x n xs

-- `list_add` behind an entry of the list.
list_add-behind :
    (l : Links) (head new : ℕ) (xs : List ℕ) (n : ℕ) (ys : List ℕ)
    → IsRing l head (xs ++ n ∷ ys)
    → has new (head ∷ xs ++ n ∷ ys) ≡ false
    → IsRing (list_add l new n) head (xs ++ n ∷ new ∷ ys)
unfolding list_add
list_add-behind l head new xs n ys r out =
    let us = xs ++ n ∷ [] in
    let e = append_assoc xs (n ∷ []) ys in
    let e' = append_assoc xs (n ∷ []) (new ∷ ys) in
    let r' : IsRing l head (us ++ ys) = subst (IsRing l head) (sym e) r in
    let out' : has new (head ∷ us ++ ys) ≡ false =
      subst (λ t. has new (head ∷ t) ≡ false) (sym e) out in
    let nexts = next-Chain l n ys head (Chain-split l head xs n ys head r.chain).1 in
    let c =
      link_between-Chain l new head us ys head r'.distinct r'.distinct.0 (ground (arith, out'))
        r'.chain in
    subst (IsRing (link_between l new n (l.next n)) head) e' (record {
      chain =
          subst (λ p. Chain (link_between l new n p) head (us ++ new ∷ ys) head) (sym nexts)
            (subst (λ p. Chain (link_between l new p (first ys head)) head (us ++ new ∷ ys) head)
              (last-after head n xs) c);
      distinct = Distinct-insert new (head ∷ us) ys r'.distinct out';
    })

module _ (head : ℕ) (from to : ℕ) (h : Heap) where
  pub split_chunk-eq :
      (block len size : ℕ)
      → h.length block ≡ size
      → size < 2 ^ 32
      → len ≤ size
      → split_chunk h block len
        ≡ (if ltb (size - len) 44 then h else cut_chunk h block len (size - len))
  unfolding split_chunk
  split_chunk-eq block len size e lt le =
      let same : (size + 2 ^ 32 - len) % 2 ^ 32 ≡ size - len = omega arith in rw (e, same) refl

  cut_chunk-Holds :
      (len : ℕ) (xs : List Block) (b : Block) (ys : List Block)
      → Holds head h from to (xs ++ b ∷ ys)
      → 12 ≤ len
      → len < b.len
      → Holds head
          (cut_chunk h b.addr len (b.len - len))
          from
          to
          (xs ++ used_part len b ∷ free_part len b ∷ ys)
  unfolding cut_chunk
  cut_chunk-Holds len xs b ys a low fit =
      let g = cut_chunk h b.addr len (b.len - len) in
      let t = Tiles-split from to xs (b ∷ ys) a.tiles in
      let f = Fields-split h xs (b ∷ ys) a.fields in
      let below = Tiles-le from t.0 xs t.1 in
      let above = Tiles-le (t.0 + (12 + b.len)) to ys t.2.1 in
      let room : b.addr + len + 12 < to = omega (arith, t.2.0) in
      let new : (b.addr + len) % 2 ^ 32 ≡ b.addr + len = omega (arith, a.top) in
      let new_len : (b.len - len) % 2 ^ 31 ≡ b.len - len = omega (arith, a.size, t.2.0) in
      let old_len : ((len + 2 ^ 32 - 12) % 2 ^ 32) % 2 ^ 31 ≡ len - 12 =
        omega (arith, a.size, t.2.0) in
      let fresh : has (b.addr + len + 4) (head ∷ map node (xs ++ b ∷ ys)) ≡ false = ground (
        arith,
        a.apart,
        room,
        t.2.0,
        has-append (b.addr + len + 4) (map node xs) (map node (b ∷ ys)),
        Tiles-has from t.0 (b.addr + len + 4) xs t.1 (inr (omega (arith, t.2.0))),
        Tiles-has (t.0 + (12 + b.len)) to (b.addr + len + 4) ys t.2.1 (inl (omega (arith, t.2.0))),
        map-append node xs (b ∷ ys),
      ) in
      record {
        ring = rw new (
            subst (IsRing (list_add h.links (b.addr + len + 4) (node b)) head)
              (map-parts len xs b ys)
              (list_add-behind h.links head (b.addr + len + 4) (map node xs) (node b) (map node ys)
                (subst (IsRing h.links head) (map-append node xs (b ∷ ys)) a.ring)
                (subst (λ z. has (b.addr + len + 4) (head ∷ z) ≡ false)
                  (map-append node xs (b ∷ ys)) fresh)));
        tiles = Tiles-append from t.0 to xs (used_part len b ∷ free_part len b ∷ ys) t.1 (
          t.2.0,
          (omega (arith, t.2.0), subst (λ m. Tiles m to ys) (omega (arith, low, fit)) t.2.1),
        );
        fields =
            Fields-append g xs (used_part len b ∷ free_part len b ∷ ys)
              (Fields-same h g from t.0 xs t.1
                (λ x lo hi. (ground (arith, t.2.0, new), ground (arith, t.2.0, new))) f.0)
              (
                ground arith,
                ground (arith, old_len),
                (
                  ground (arith, new),
                  ground (arith, new, new_len),
                  Fields-same h g (t.0 + (12 + b.len)) to ys t.2.1
                      (λ x lo hi. (ground (arith, t.2.0, new), ground (arith, t.2.0, new))) f.1.2,
                ),
              );
        top = a.top;
        size = a.size;
        apart = a.apart;
      }

  pub split_chunk-Holds :
      (len : ℕ) (xs : List Block) (b : Block) (ys : List Block)
      → Holds head h from to (xs ++ b ∷ ys)
      → 12 ≤ len
      → len < b.len
      → Holds head (split_chunk h b.addr len) from to (xs ++ (carve len b ++ ys))
  unfolding carve
  split_chunk-Holds len xs b ys a low fit =
      let t = Tiles-split from to xs (b ∷ ys) a.tiles in
      let above = Tiles-le (t.0 + (12 + b.len)) to ys t.2.1 in
      let f = Fields-split h xs (b ∷ ys) a.fields in
      let e = split_chunk-eq b.addr len b.len f.1.1 (omega (arith, a.top, above)) (omega arith) in
      rw e (elim (Bool-cases (ltb (b.len - len) 44)) [
        | inl short ↦ rw short a
        | inr long ↦ rw long (cut_chunk-Holds len xs b ys a low fit)
      ])

  -- From an empty list, an area below 2^32 that does not hold the list head becomes one free block.
  pub slob_init-Holds :
      (block : ℕ)
      → IsRing h.links head []
      → from ≡ block
      → to ≡ block + 2 ^ 22
      → to < 2 ^ 32
      → (head < from + 4) ⊎ (to + 4 ≤ head)
      → Holds head
          (slob_init head h block)
          from
          to
          (record { addr = block; len = 2 ^ 22 - 12; used = 0 } ∷ [])
  unfolding slob_init
  slob_init-Holds block r start end top apart = record {
    ring = list_add-IsRing h.links (block + 4) head [] r (ground (arith, start, end));
    tiles = (sym start, omega arith);
    fields = (ground arith, ground arith, tt);
    top = top;
    size = omega arith;
    apart = apart;
  }
