-- ===== src/Hlist/Tests.antt =====
-- Runs on a small list.
use hlos.Base.{ℕ, ◌≡◌, refl, [], ◌∷◌, some, arith, ◌==◌}
use hlos.Links.Entry.{list_entry, member_of}
use hlos.Hlist.{
  Nodes, hlist_del, hlist_add_head, hlist_add_before, hlist_add_after, hlist_move_list,
  hlist_for_each,
}
use hlos.Hlist.Chain.{IsHlist}
use hlos.Hlist.Entry.{
  hlist_entry, hlist_entry_safe, next_hlist_entry, hlist_each, hlist_for_each_safe,
  hlist_for_each_entry, hlist_for_each_entry_continue, hlist_for_each_entry_from,
  hlist_for_each_entry_safe,
}
use hlos.Hlist.Visit.{
  hlist_del_if, IsHlistSwept, hlist_for_each_safe-IsHlistSwept,
  hlist_for_each_entry_safe-IsHlistSwept,
}
use hlos.Hlist.Insert.{hlist_add_head-IsHlist, hlist_add_before-IsHlist, hlist_add_after-IsHlist}
use hlos.Hlist.Remove.{hlist_del-IsHlist, hlist_move_list-IsHlist, hlist_for_each-IsHlist}

abbrev empty : Nodes
empty = record { cell = λ a. 0; pprev = λ a. 0 }

empty-IsHlist : (head : ℕ) → IsHlist empty head []
empty-IsHlist head = record { nexts = refl; distinct = (refl, tt) }

-- The list at 1 holds 3 and 2.
abbrev two : Nodes
two = hlist_add_head (hlist_add_head empty 2 1) 3 1

two-IsHlist : IsHlist two 1 (3 ∷ 2 ∷ [])
two-IsHlist =
    hlist_add_head-IsHlist (hlist_add_head empty 2 1) 3 1 (2 ∷ [])
      (hlist_add_head-IsHlist empty 2 1 [] (empty-IsHlist 1) refl (omega arith)) refl (omega arith)

hlist_add_head-IsHlist_run : IsHlist (hlist_add_head two 4 1) 1 (4 ∷ 3 ∷ 2 ∷ [])
hlist_add_head-IsHlist_run =
    hlist_add_head-IsHlist two 4 1 (3 ∷ 2 ∷ []) two-IsHlist refl (omega arith)

hlist_add_before-IsHlist_run : IsHlist (hlist_add_before two 4 2) 1 (3 ∷ 4 ∷ 2 ∷ [])
hlist_add_before-IsHlist_run =
    hlist_add_before-IsHlist two 4 1 (3 ∷ []) 2 [] two-IsHlist refl (omega arith)

hlist_add_after-IsHlist_run : IsHlist (hlist_add_after two 3 4) 1 (3 ∷ 4 ∷ 2 ∷ [])
hlist_add_after-IsHlist_run =
    hlist_add_after-IsHlist two 3 4 1 (3 ∷ []) (2 ∷ []) refl two-IsHlist refl (omega arith)

hlist_del-IsHlist_example : IsHlist (hlist_del two 3) 1 (2 ∷ [])
hlist_del-IsHlist_example = hlist_del-IsHlist two 1 [] 3 (2 ∷ []) two-IsHlist

hlist_move_list-IsHlist_run :
    IsHlist (hlist_move_list two 1 9) 9 (3 ∷ 2 ∷ []) × IsHlist (hlist_move_list two 1 9) 1 []
hlist_move_list-IsHlist_run = hlist_move_list-IsHlist two 1 9 (3 ∷ 2 ∷ []) two-IsHlist refl

hlist_for_each-IsHlist_run : hlist_for_each 3 two 1 ≡ some (3 ∷ 2 ∷ [])
hlist_for_each-IsHlist_run = hlist_for_each-IsHlist two 3 1 (3 ∷ 2 ∷ []) two-IsHlist (omega arith)

hlist_for_each_safe-IsHlistSwept_run :
    IsHlistSwept
      (λ p. p)
      (λ p. p == 3)
      1
      []
      (3 ∷ 2 ∷ [])
      (hlist_for_each_safe 5 (hlist_del_if (λ p. p) (λ p. p == 3)) two 1)
hlist_for_each_safe-IsHlistSwept_run =
    hlist_for_each_safe-IsHlistSwept (λ p. p == 3) 5 two 1 (3 ∷ 2 ∷ []) two-IsHlist (omega arith)

hlist_for_each_entry_safe-IsHlistSwept_example :
    IsHlistSwept
      (λ x. hlist_entry_safe x 1)
      (λ p. p == 3)
      1
      []
      (3 ∷ 2 ∷ [])
      (hlist_for_each_entry_safe 5 1 (hlist_del_if (λ p. member_of p 1) (λ p. p == 3)) two 1)
hlist_for_each_entry_safe-IsHlistSwept_example =
    hlist_for_each_entry_safe-IsHlistSwept 1 (λ p. p == 3) 5 two 1 (3 ∷ 2 ∷ []) two-IsHlist
      ((omega arith, omega arith), ((omega arith, omega arith), tt)) (omega arith)

-- The structures stand one below their nodes.
entry-visits :
    (hlist_for_each_entry 5 1 (λ h p. h) two 1 ≡ some (2 ∷ 1 ∷ [], two))
    × (hlist_for_each_entry_from 5 1 (λ h p. h) two 1 ≡ some (1 ∷ [], two))
    × (hlist_for_each_entry_continue 5 1 (λ h p. h) two 2 ≡ some (1 ∷ [], two))
unfolding hlist_for_each_entry hlist_for_each_entry_from hlist_for_each_entry_continue hlist_each
    next_hlist_entry hlist_entry_safe hlist_entry list_entry member_of hlist_add_head
entry-visits = (refl, refl, refl)
