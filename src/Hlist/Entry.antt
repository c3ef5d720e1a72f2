-- ===== src/Hlist/Entry.antt =====
-- The loops of include/list.h over the nodes of a hash table's list, and over the structures that hold
-- them, with `offset` that of the `hlist_node` in its structure. As in Links/Entry a loop gives what
-- its body saw and the memory at the end.
use hlos.Base.{ℕ, zero, suc, List, [], ◌∷◌, Option, none, some, ◌==◌, ◌>>=◌, if◌then◌else◌}
use hlos.Links.{null}
use hlos.Links.Entry.{list_entry, member_of}
use hlos.Hlist.{Nodes}

unfoldable pub hlist_entry : (ptr offset : ℕ) → ℕ
unfolding list_entry
hlist_entry ptr offset = list_entry ptr offset

unfoldable pub hlist_entry_safe : (ptr offset : ℕ) → ℕ
unfolding hlist_entry
hlist_entry_safe ptr offset = if ptr == null then null else hlist_entry ptr offset

abbrev pub NodeVisits : Type 0
NodeVisits = List ℕ × Nodes

abbrev pub node_saw : ℕ → NodeVisits → Option NodeVisits
node_saw pos v = some (pos ∷ v.0, v.1)

module _ (step : Nodes → ℕ → ℕ) (body : Nodes → ℕ → Nodes) where
  unfoldable pub hlist_each : ℕ → Nodes → ℕ → Option NodeVisits
  hlist_each zero h pos = none
  hlist_each (suc fuel) h pos =
      let h' = body h pos in
      let rest = hlist_each fuel h' (step h' pos) >>= node_saw pos in
      if pos == null then some ([], h) else rest

  -- The next position is read before the body.
  unfoldable pub hlist_each_safe : ℕ → Nodes → ℕ → Option NodeVisits
  hlist_each_safe zero h pos = none
  hlist_each_safe (suc fuel) h pos =
      let n = step h pos in
      let rest = hlist_each_safe fuel (body h pos) n >>= node_saw pos in
      if pos == null then some ([], h) else rest

unfoldable pub hlist_for_each_safe :
    (fuel : ℕ) (body : Nodes → ℕ → Nodes) (h : Nodes) (head : ℕ) → Option NodeVisits
hlist_for_each_safe fuel body h head =
    hlist_each_safe (λ g pos. g.cell pos) body fuel h (h.cell head)

-- `hlist_entry_safe((pos)->member.next, typeof(*(pos)), member)`
unfoldable pub next_hlist_entry : (offset : ℕ) → Nodes → ℕ → ℕ
unfolding hlist_entry_safe member_of
next_hlist_entry offset h pos = hlist_entry_safe (h.cell (member_of pos offset)) offset

module _ (fuel offset : ℕ) (body : Nodes → ℕ → Nodes) (h : Nodes) where
  unfoldable pub hlist_for_each_entry : (head : ℕ) → Option NodeVisits
  hlist_for_each_entry head =
      hlist_each (next_hlist_entry offset) body fuel h (hlist_entry_safe (h.cell head) offset)

  unfoldable pub hlist_for_each_entry_continue : (pos : ℕ) → Option NodeVisits
  hlist_for_each_entry_continue pos =
      hlist_each (next_hlist_entry offset) body fuel h (next_hlist_entry offset h pos)

  unfoldable pub hlist_for_each_entry_from : (pos : ℕ) → Option NodeVisits
  hlist_for_each_entry_from pos = hlist_each (next_hlist_entry offset) body fuel h pos

  unfoldable pub hlist_for_each_entry_safe : (head : ℕ) → Option NodeVisits
  hlist_for_each_entry_safe head =
      hlist_each_safe (next_hlist_entry offset) body fuel h (hlist_entry_safe (h.cell head) offset)
