-- ===== src/Hlist.antt =====
-- include/list.h: the lists of hash tables, with a single pointer as their head. `cell a` is the
-- pointer at the address `a`: `first` of a head there, and `next` of a node there, its first field;
-- `pprev a` is that field of the node at `a`. A null pointer is not followed.
pub mod Chain
pub mod Place
pub mod Insert
pub mod Remove
pub mod Entry
pub mod Visit
mod Tests
use mathlib.Core.Option
use hlos.Base.{ℕ, zero, suc, Bool, not, List, [], ◌∷◌, Option, none, some, ◌==◌, if◌then◌else◌}
use hlos.Links.{update, null}

pub record Nodes : Type 0 where
  pub cell : ℕ → ℕ
  pub pprev : ℕ → ℕ

abbrev pub set_cell : Nodes → (p v : ℕ) → Nodes
set_cell h p v = record h { cell = update h.cell p v }

abbrev pub set_pprev : Nodes → (p v : ℕ) → Nodes
set_pprev h p v = record h { pprev = update h.pprev p v }

-- `if (p) p->pprev = v;`
abbrev pub set_pprev_of : Nodes → (p v : ℕ) → Nodes
set_pprev_of h p v = if p == null then h else set_pprev h p v

unfoldable pub init_hlist_head : Nodes → ℕ → Nodes
init_hlist_head h ptr = set_cell h ptr null

unfoldable pub init_hlist_node : Nodes → ℕ → Nodes
init_hlist_node h n = set_pprev (set_cell h n null) n null

unfoldable pub hlist_unhashed : Nodes → ℕ → Bool
hlist_unhashed h n = h.pprev n == null

unfoldable pub hlist_empty : Nodes → ℕ → Bool
hlist_empty h head = h.cell head == null

-- `__hlist_del`
unfoldable pub unlink_node : Nodes → ℕ → Nodes
unlink_node h n =
    let next = h.cell n in let pprev = h.pprev n in set_pprev_of (set_cell h pprev next) next pprev

unfoldable pub hlist_del : Nodes → ℕ → Nodes
unfolding unlink_node
hlist_del h n = set_pprev (set_cell (unlink_node h n) n null) n null

unfoldable pub hlist_del_init : Nodes → ℕ → Nodes
unfolding unlink_node hlist_unhashed init_hlist_node
hlist_del_init h n = if not (hlist_unhashed h n) then init_hlist_node (unlink_node h n) n else h

unfoldable pub hlist_add_head : Nodes → (n head : ℕ) → Nodes
hlist_add_head h n head =
    let first = h.cell head in
    set_pprev (set_cell (set_pprev_of (set_cell h n first) first n) head n) n head

unfoldable pub hlist_add_before : Nodes → (n next : ℕ) → Nodes
hlist_add_before h n next =
    let h1 = set_pprev h n (h.pprev next) in
    let h2 = set_pprev (set_cell h1 n next) next n in set_cell h2 (h2.pprev n) n

unfoldable pub hlist_add_after : Nodes → (n next : ℕ) → Nodes
hlist_add_after h n next =
    let h1 = set_cell (set_cell h next (h.cell n)) n next in
    let h2 = set_pprev h1 next n in set_pprev_of h2 (h2.cell next) next

unfoldable pub hlist_add_fake : Nodes → ℕ → Nodes
hlist_add_fake h n = set_pprev h n n

unfoldable pub hlist_move_list : Nodes → (old new : ℕ) → Nodes
hlist_move_list h old new =
    let h1 = set_cell h new (h.cell old) in
    let h2 = set_pprev_of h1 (h1.cell new) new in set_cell h2 old null

-- `hlist_for_each(pos, head)` from `pos` on: the addresses that the body sees.
unfoldable pub hlist_walk : ℕ → Nodes → (pos : ℕ) → Option (List ℕ)
hlist_walk zero h pos = none
hlist_walk (suc fuel) h pos =
    let rest = hlist_walk fuel h (h.cell pos) in
    if pos == null then some [] else Option.map (λ xs. pos ∷ xs) rest

unfoldable pub hlist_for_each : ℕ → Nodes → (head : ℕ) → Option (List ℕ)
unfolding hlist_walk
hlist_for_each fuel h head = hlist_walk fuel h (h.cell head)
