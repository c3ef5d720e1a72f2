-- ===== src/Links.antt =====
-- include/list.h: the circular doubly linked list. A `struct list_head` is an address, and memory
-- keeps the `prev` and `next` fields of every address; distinct addresses are distinct objects.
-- A null or a stray pointer is read and written like any other address: faults are not modelled.
pub mod Chain
pub mod Insert
pub mod Remove
pub mod Splice
pub mod Walk
pub mod Entry
pub mod Visit
mod Tests
use hlos.Base.{
  ℕ, zero, suc, Bool, not, ◌&&◌, List, [], ◌∷◌, Option, none, some, map, ◌==◌, if◌then◌else◌,
}
use mathlib.Core.Option

pub record Links : Type 0 where
  pub prev : ℕ → ℕ
  pub next : ℕ → ℕ

abbrev pub null : ℕ
null = 0

abbrev pub update : (ℕ → ℕ) → ℕ → ℕ → ℕ → ℕ
update f p v a = if a == p then v else f a

-- `p->next = q` and `p->prev = q`
abbrev pub set_next : Links → ℕ → ℕ → Links
set_next h p q = record h { next = update h.next p q }

abbrev pub set_prev : Links → ℕ → ℕ → Links
set_prev h p q = record h { prev = update h.prev p q }

unfoldable pub init_list_head : Links → ℕ → Links
init_list_head h list = set_prev (set_next h list list) list list

-- `__list_add`
unfoldable pub link_between : Links → (new prev next : ℕ) → Links
link_between h new prev next =
    set_next (set_prev (set_next (set_prev h next new) new next) new prev) prev new

unfoldable pub list_add : Links → (new head : ℕ) → Links
unfolding link_between
list_add h new head = link_between h new head (h.next head)

unfoldable pub list_add_tail : Links → (new head : ℕ) → Links
unfolding link_between
list_add_tail h new head = link_between h new (h.prev head) head

-- `__list_del`
unfoldable pub join : Links → (prev next : ℕ) → Links
join h prev next = set_next (set_prev h next prev) prev next

-- `__list_del_entry`
unfoldable pub unlink_entry : Links → ℕ → Links
unfolding join
unlink_entry h entry = join h (h.prev entry) (h.next entry)

unfoldable pub list_del : Links → ℕ → Links
unfolding join
list_del h entry =
    let g = join h (h.prev entry) (h.next entry) in set_prev (set_next g entry null) entry null

unfoldable pub list_del_init : Links → ℕ → Links
unfolding unlink_entry init_list_head
list_del_init h entry = init_list_head (unlink_entry h entry) entry

-- Each line of the C function reads the memory that the line above it left.
unfoldable pub list_replace : Links → (old new : ℕ) → Links
list_replace h old new =
    let h1 = set_next h new (h.next old) in
    let h2 = set_prev h1 (h1.next new) new in
    let h3 = set_prev h2 new (h2.prev old) in set_next h3 (h3.prev new) new

unfoldable pub list_replace_init : Links → (old new : ℕ) → Links
unfolding list_replace init_list_head
list_replace_init h old new = init_list_head (list_replace h old new) old

unfoldable pub list_move : Links → (list head : ℕ) → Links
unfolding unlink_entry list_add
list_move h list head = list_add (unlink_entry h list) list head

unfoldable pub list_move_tail : Links → (list head : ℕ) → Links
unfolding unlink_entry list_add_tail
list_move_tail h list head = list_add_tail (unlink_entry h list) list head

unfoldable pub list_is_last : Links → (list head : ℕ) → Bool
list_is_last h list head = h.next list == head

unfoldable pub list_empty : Links → ℕ → Bool
list_empty h head = h.next head == head

unfoldable pub list_empty_careful : Links → ℕ → Bool
list_empty_careful h head = let next = h.next head in (next == head) && (next == h.prev head)

unfoldable pub list_rotate_left : Links → ℕ → Links
unfolding list_empty list_move_tail
list_rotate_left h head = if not (list_empty h head) then list_move_tail h (h.next head) head else h

unfoldable pub list_is_singular : Links → ℕ → Bool
unfolding list_empty
list_is_singular h head = not (list_empty h head) && (h.next head == h.prev head)

-- `__list_cut_position`
unfoldable pub cut_at : Links → (list head entry : ℕ) → Links
cut_at h list head entry =
    let new_first = h.next entry in
    let h1 = set_next h list (h.next head) in
    let h2 = set_prev h1 (h1.next list) list in
    let h3 = set_prev h2 list entry in
    let h4 = set_next h3 entry list in
    let h5 = set_next h4 head new_first in set_prev h5 new_first head

unfoldable pub list_cut_position : Links → (list head entry : ℕ) → Links
unfolding list_empty list_is_singular cut_at init_list_head
list_cut_position h list head entry =
    if list_empty h head
    then h
    else if list_is_singular h head && (not (h.next head == entry) && not (head == entry))
    then h
    else if entry == head
    then init_list_head h list
    else cut_at h list head entry

-- `__list_splice`
unfoldable pub splice_between : Links → (list prev next : ℕ) → Links
splice_between h list prev next =
    let first = h.next list in
    let last = h.prev list in
    set_prev (set_next (set_next (set_prev h first prev) prev first) last next) next last

unfoldable pub list_splice : Links → (list head : ℕ) → Links
unfolding list_empty splice_between
list_splice h list head =
    if not (list_empty h list) then splice_between h list head (h.next head) else h

unfoldable pub list_splice_tail : Links → (list head : ℕ) → Links
unfolding list_empty splice_between
list_splice_tail h list head =
    if not (list_empty h list) then splice_between h list (h.prev head) head else h

unfoldable pub list_splice_init : Links → (list head : ℕ) → Links
unfolding list_empty splice_between init_list_head
list_splice_init h list head =
    if not (list_empty h list)
    then init_list_head (splice_between h list head (h.next head)) list
    else h

unfoldable pub list_splice_tail_init : Links → (list head : ℕ) → Links
unfolding list_empty splice_between init_list_head
list_splice_tail_init h list head =
    if not (list_empty h list)
    then init_list_head (splice_between h list (h.prev head) head) list
    else h

-- `list_for_each(pos, head)` from `pos` on: the addresses that the body sees. `none` is a walk that
-- the fuel does not finish.
unfoldable pub walk : ℕ → Links → (pos head : ℕ) → Option (List ℕ)
walk zero h pos head = none
walk (suc fuel) h pos head =
    let rest = walk fuel h (h.next pos) head in
    if pos == head then some [] else Option.map (λ xs. pos ∷ xs) rest

unfoldable pub list_for_each : ℕ → Links → ℕ → Option (List ℕ)
unfolding walk
list_for_each fuel h head = walk fuel h (h.next head) head

-- `list_for_each_prev(pos, head)`
unfoldable pub walk_prev : ℕ → Links → (pos head : ℕ) → Option (List ℕ)
walk_prev zero h pos head = none
walk_prev (suc fuel) h pos head =
    let rest = walk_prev fuel h (h.prev pos) head in
    if pos == head then some [] else Option.map (λ xs. pos ∷ xs) rest

unfoldable pub list_for_each_prev : ℕ → Links → ℕ → Option (List ℕ)
unfolding walk_prev
list_for_each_prev fuel h head = walk_prev fuel h (h.prev head) head
