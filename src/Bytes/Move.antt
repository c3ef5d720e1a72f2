-- ===== src/Bytes/Move.antt =====
-- Which bytes `memcpy`, `memmove` and `memset` write.
use hlos.Base.{
  ℕ, zero, suc, ◌+◌, ◌%◌, ◌<◌, ◌≤◌, ◌≡◌, ◌⊎◌, inl, inr, refl, ◌&&◌, ltb, arith, leb, leb→le,
  if◌then◌else◌, Bool-cases,
}
use hlos.Bytes.{Mem, poke, memset, memcpy, move_down, memmove}

-- `result` is `m` with the `count` bytes at `src`, as they stood, put at `dest`.
pub record IsCopied (m : Mem) (dest src count : ℕ) (result : Mem) : Type 0 where
  pub inside : (i : ℕ) → i < count → result (dest + i) ≡ m (src + i)
  pub outside : (a : ℕ) → (a < dest) ⊎ (dest + count ≤ a) → result a ≡ m a

-- Copying upwards is right when the destination starts below the source or behind its end.
pub memcpy-IsCopied :
    (m : Mem) (dest src count : ℕ)
    → (dest ≤ src) ⊎ (src + count ≤ dest)
    → IsCopied m dest src count (memcpy m dest src count)
unfolding memcpy
memcpy-IsCopied m dest src zero apart = record {
  inside = λ i h. absurd (omega arith);
  outside = λ a h. refl;
}
memcpy-IsCopied m dest src (suc count) apart =
    let rest = memcpy-IsCopied (poke m dest (m src)) (dest + 1) (src + 1) count (omega arith) in
    record { inside = λ i h. up i h rest; outside = λ a h. ground (arith, rest.outside a) }
  where
    up :
        (i : ℕ)
        → i < suc count
        → IsCopied
            (poke m dest (m src))
            (dest + 1)
            (src + 1)
            count
            (memcpy (poke m dest (m src)) (dest + 1) (src + 1) count)
        → memcpy (poke m dest (m src)) (dest + 1) (src + 1) count (dest + i) ≡ m (src + i)
    up zero h rest = ground (arith, rest.outside dest)
    up (suc i) h rest = ground (arith, rest.inside i)

-- Copying downwards is right when the destination starts above the source.
move_down-IsCopied :
    (m : Mem) (dest src count : ℕ)
    → src ≤ dest
    → IsCopied m dest src count (move_down m dest src count)
unfolding move_down
move_down-IsCopied m dest src zero above = record {
  inside = λ i h. absurd (omega arith);
  outside = λ a h. refl;
}
move_down-IsCopied m dest src (suc count) above =
    let rest = move_down-IsCopied (poke m (dest + count) (m (src + count))) dest src count above in
    record {
      inside = λ i h. ground (arith, rest.inside i, rest.outside (dest + count));
      outside = λ a h. ground (arith, rest.outside a);
    }

-- `memmove` copies the bytes as they stood before the call, also where the areas overlap, and
-- writes nothing else.
pub memmove-IsCopied :
    (m : Mem) (dest src count : ℕ) → IsCopied m dest src count (memmove m dest src count)
unfolding memmove
memmove-IsCopied m dest src count = elim (Bool-cases (leb dest src)) [
  | inl up ↦ rw up (memcpy-IsCopied m dest src count (inl (leb→le dest src up)))
  | inr down ↦ rw down (move_down-IsCopied m dest src count (ground arith))
]

-- `memset` writes the low byte of the value into each byte of the area and nothing else.
pub memset_lem :
    (m : Mem) (s c count a : ℕ)
    → memset m s c count a ≡ (if leb s a && ltb a (s + count) then c % 256 else m a)
unfolding memset
memset_lem m s c zero a = ground arith
memset_lem m s c (suc count) a = ground (arith, memset_lem (poke m s (c % 256)) (s + 1) c count a)
