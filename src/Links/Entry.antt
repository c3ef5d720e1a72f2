-- ===== src/Links/Entry.antt =====
-- The macros of include/list.h on the structures that hold the list nodes. `offset` is that of the
-- `list_head` in its structure, and a structure is its address, which wraps at 2 ^ 32. A loop runs its
-- body on the memory, and gives the structures that the body saw and the memory at the end; `none` is
-- a loop that the fuel does not finish.
use hlos.Base.{
  ℕ, zero, suc, ◌+◌, ◌-◌, ◌%◌, ◌^◌, not, List, [], ◌∷◌, Option, none, some, ◌==◌, ◌>>=◌,
  if◌then◌else◌,
}
use hlos.Links.{Links, null, list_empty}

-- `container_of(ptr, type, member)`
unfoldable pub list_entry : (ptr offset : ℕ) → ℕ
list_entry ptr offset = (ptr + 2 ^ 32 - offset) % 2 ^ 32

-- `&pos->member`
unfoldable pub member_of : (pos offset : ℕ) → ℕ
member_of pos offset = (pos + offset) % 2 ^ 32

unfoldable pub list_first_entry : Links → (ptr offset : ℕ) → ℕ
unfolding list_entry
list_first_entry h ptr offset = list_entry (h.next ptr) offset

unfoldable pub list_first_entry_or_null : Links → (ptr offset : ℕ) → ℕ
unfolding list_empty list_first_entry
list_first_entry_or_null h ptr offset =
    if not (list_empty h ptr) then list_first_entry h ptr offset else null

unfoldable pub list_prepare_entry : (pos head offset : ℕ) → ℕ
unfolding list_entry
list_prepare_entry pos head offset = if not (pos == 0) then pos else list_entry head offset

abbrev pub Visits : Type 0
Visits = List ℕ × Links

abbrev pub saw : ℕ → Visits → Option Visits
saw pos v = some (pos ∷ v.0, v.1)

-- A loop at `pos`, where `node_of` names the node of a structure, and `step` the next structure.
module _ (step : Links → ℕ → ℕ) (node_of : ℕ → ℕ) (body : Links → ℕ → Links) (head : ℕ) where
  unfoldable pub each : ℕ → Links → ℕ → Option Visits
  each zero h pos = none
  each (suc fuel) h pos =
      let h' = body h pos in
      let rest = each fuel h' (step h' pos) >>= saw pos in
      if node_of pos == head then some ([], h) else rest

  -- The same with `n` read before the body.
  unfoldable pub each_safe : ℕ → Links → (pos n : ℕ) → Option Visits
  each_safe zero h pos n = none
  each_safe (suc fuel) h pos n =
      let h' = body h pos in
      let rest = each_safe fuel h' n (step h' n) >>= saw pos in
      if node_of pos == head then some ([], h) else rest

module _ (fuel : ℕ) (body : Links → ℕ → Links) (h : Links) (head : ℕ) where
  unfoldable pub list_for_each_safe : Option Visits
  list_for_each_safe =
      each_safe (λ g pos. g.next pos) (λ pos. pos) body head fuel h (h.next head)
        (h.next (h.next head))

  unfoldable pub list_for_each_prev_safe : Option Visits
  list_for_each_prev_safe =
      each_safe (λ g pos. g.prev pos) (λ pos. pos) body head fuel h (h.prev head)
        (h.prev (h.prev head))

-- `list_entry(pos->member.next, typeof(*pos), member)`, and the same with `prev`; as
-- `list_safe_reset_next` the first one sets `n` again.
unfoldable pub next_entry : (offset : ℕ) → Links → ℕ → ℕ
unfolding list_entry member_of
next_entry offset h pos = list_entry (h.next (member_of pos offset)) offset

unfoldable pub prev_entry : (offset : ℕ) → Links → ℕ → ℕ
unfolding list_entry member_of
prev_entry offset h pos = list_entry (h.prev (member_of pos offset)) offset

unfoldable pub list_safe_reset_next : (offset : ℕ) → Links → ℕ → ℕ
unfolding next_entry
list_safe_reset_next offset h pos = next_entry offset h pos

module _ (fuel offset : ℕ) (body : Links → ℕ → Links) (h : Links) (head : ℕ) where
  abbrev forward : ℕ → Option Visits
  forward pos = each (next_entry offset) (λ p. member_of p offset) body head fuel h pos

  abbrev backward : ℕ → Option Visits
  backward pos = each (prev_entry offset) (λ p. member_of p offset) body head fuel h pos

  abbrev forward_safe : ℕ → Option Visits
  forward_safe pos =
      each_safe (next_entry offset) (λ p. member_of p offset) body head fuel h pos
        (next_entry offset h pos)

  abbrev backward_safe : ℕ → Option Visits
  backward_safe pos =
      each_safe (prev_entry offset) (λ p. member_of p offset) body head fuel h pos
        (prev_entry offset h pos)

  unfoldable pub list_for_each_entry : Option Visits
  list_for_each_entry = forward (list_entry (h.next head) offset)

  unfoldable pub list_for_each_entry_reverse : Option Visits
  list_for_each_entry_reverse = backward (list_entry (h.prev head) offset)

  unfoldable pub list_for_each_entry_continue : ℕ → Option Visits
  list_for_each_entry_continue pos = forward (next_entry offset h pos)

  unfoldable pub list_for_each_entry_continue_reverse : ℕ → Option Visits
  list_for_each_entry_continue_reverse pos = backward (prev_entry offset h pos)

  unfoldable pub list_for_each_entry_from : ℕ → Option Visits
  list_for_each_entry_from pos = forward pos

  unfoldable pub list_for_each_entry_safe : Option Visits
  list_for_each_entry_safe = forward_safe (list_entry (h.next head) offset)

  unfoldable pub list_for_each_entry_safe_continue : ℕ → Option Visits
  list_for_each_entry_safe_continue pos = forward_safe (next_entry offset h pos)

  unfoldable pub list_for_each_entry_safe_from : ℕ → Option Visits
  list_for_each_entry_safe_from pos = forward_safe pos

  unfoldable pub list_for_each_entry_safe_reverse : Option Visits
  list_for_each_entry_safe_reverse = backward_safe (list_entry (h.prev head) offset)
