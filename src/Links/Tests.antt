-- ===== src/Links/Tests.antt =====
-- Runs of the list operations on two small lists.
use hlos.Base.{ℕ, ◌≡◌, refl, [], ◌∷◌, map, some, arith, ◌==◌}
use hlos.Links.{
  Links, null, list_add, list_add_tail, list_del, list_del_init, list_move, list_move_tail,
  list_rotate_left, list_splice, list_splice_tail, list_splice_init, list_splice_tail_init,
  list_for_each, list_for_each_prev, list_cut_position, list_empty,
}
use hlos.Links.Chain.{IsRing}
use hlos.Links.Insert.{list_add-IsRing, list_add_tail-IsRing, list_add-other}
use hlos.Links.Remove.{
  list_del-IsRing, list_del_init-IsRing, list_move-IsRing, list_rotate_left-IsRing, list_del-other,
}
use hlos.Links.Splice.{list_splice-IsRing, list_splice_tail-IsRing, list_splice_init-IsRing}
use hlos.Links.Entry.{
  list_entry, member_of, each, prev_entry, list_for_each_safe, list_for_each_entry,
  list_for_each_entry_safe, list_for_each_entry_from, list_for_each_entry_continue,
  list_for_each_entry_reverse, list_first_entry_or_null,
}
use hlos.Links.Visit.{
  del_if, unchanged, IsSwept, list_for_each_safe-IsSwept, list_for_each_entry_safe-IsSwept,
  list_for_each_entry-IsRing,
}
use hlos.Links.Walk.{list_for_each-IsRing, list_for_each_prev-IsRing}

-- Every address is the head of an empty list.
abbrev empty : Links
empty = record { prev = λ a. a; next = λ a. a }

empty-IsRing : (head : ℕ) → IsRing empty head []
empty-IsRing head = record { chain = (refl, refl); distinct = (refl, tt) }

-- The list at 1 holds 3 and 2.
abbrev one : Links
one = list_add empty 2 1

abbrev two : Links
two = list_add one 3 1

one-IsRing : IsRing one 1 (2 ∷ [])
one-IsRing = list_add-IsRing empty 2 1 [] (empty-IsRing 1) refl

two-IsRing : IsRing two 1 (3 ∷ 2 ∷ [])
two-IsRing = list_add-IsRing one 3 1 (2 ∷ []) one-IsRing refl

two-visits : list_for_each 3 two 1 ≡ some (3 ∷ 2 ∷ [])
unfolding list_for_each list_add
two-visits = refl

cut-visits : list_for_each 3 (list_cut_position two 5 1 3) 5 ≡ some (3 ∷ [])
unfolding list_for_each list_cut_position list_add
cut-visits = refl

-- The list at 5 holds 6 beside that.
abbrev both : Links
both = list_add two 6 5

both-left : IsRing both 1 (3 ∷ 2 ∷ [])
both-left = list_add-other two 6 5 [] 1 (3 ∷ 2 ∷ []) five two-IsRing (refl, tt) refl
  where
    five : IsRing two 5 []
    five =
        list_add-other one 3 1 (2 ∷ []) 5 [] one-IsRing
          (list_add-other empty 2 1 [] 5 [] (empty-IsRing 1) (empty-IsRing 5) (refl, tt) refl)
          (refl, (refl, tt)) refl

both-right : IsRing both 5 (6 ∷ [])
unfolding list_add
both-right = record { chain = (refl, refl, (refl, refl)); distinct = (refl, (refl, tt)) }

list_add-IsRing_run : IsRing (list_add two 4 1) 1 (4 ∷ 3 ∷ 2 ∷ [])
list_add-IsRing_run = list_add-IsRing two 4 1 (3 ∷ 2 ∷ []) two-IsRing refl

list_add_tail-IsRing_run : IsRing (list_add_tail two 4 1) 1 (3 ∷ 2 ∷ 4 ∷ [])
list_add_tail-IsRing_run = list_add_tail-IsRing two 4 1 (3 ∷ 2 ∷ []) two-IsRing refl

list_add-other_run : IsRing (list_add both 4 5) 1 (3 ∷ 2 ∷ [])
list_add-other_run =
    list_add-other both 4 5 (6 ∷ []) 1 (3 ∷ 2 ∷ []) both-right both-left (refl, (refl, tt)) refl

list_del-IsRing_example :
    IsRing (list_del two 3) 1 (2 ∷ [])
    × ((list_del two 3).next 3 ≡ null)
    × ((list_del two 3).prev 3 ≡ null)
list_del-IsRing_example = list_del-IsRing two 1 [] 3 (2 ∷ []) two-IsRing

list_del-other_run : IsRing (list_del both 3) 5 (6 ∷ [])
list_del-other_run =
    list_del-other both 1 [] 3 (2 ∷ []) 5 (6 ∷ []) both-left both-right (refl, (refl, (refl, tt)))

list_del_init-IsRing_run :
    IsRing (list_del_init two 2) 1 (3 ∷ []) × IsRing (list_del_init two 2) 2 []
list_del_init-IsRing_run = list_del_init-IsRing two 1 (3 ∷ []) 2 [] two-IsRing

list_move-IsRing_run :
    IsRing (list_move two 2 1) 1 (2 ∷ 3 ∷ []) × IsRing (list_move_tail two 2 1) 1 (3 ∷ 2 ∷ [])
list_move-IsRing_run = list_move-IsRing two 1 (3 ∷ []) 2 [] two-IsRing

list_rotate_left-IsRing_run : IsRing (list_rotate_left two 1) 1 (2 ∷ 3 ∷ [])
list_rotate_left-IsRing_run = list_rotate_left-IsRing two 1 (3 ∷ 2 ∷ []) two-IsRing

list_splice-IsRing_run : IsRing (list_splice both 5 1) 1 (6 ∷ 3 ∷ 2 ∷ [])
list_splice-IsRing_run =
    list_splice-IsRing both 5 1 (6 ∷ []) (3 ∷ 2 ∷ []) both-right both-left (refl, (refl, tt))

list_splice_tail-IsRing_run : IsRing (list_splice_tail both 5 1) 1 (3 ∷ 2 ∷ 6 ∷ [])
list_splice_tail-IsRing_run =
    list_splice_tail-IsRing both 5 1 (6 ∷ []) (3 ∷ 2 ∷ []) both-right both-left (refl, (refl, tt))

list_splice_init-IsRing_example :
    IsRing (list_splice_init both 5 1) 1 (6 ∷ 3 ∷ 2 ∷ [])
    × IsRing (list_splice_init both 5 1) 5 []
    × IsRing (list_splice_tail_init both 5 1) 1 (3 ∷ 2 ∷ 6 ∷ [])
    × IsRing (list_splice_tail_init both 5 1) 5 []
list_splice_init-IsRing_example =
    list_splice_init-IsRing both 5 1 (6 ∷ []) (3 ∷ 2 ∷ []) both-right both-left (refl, (refl, tt))

list_for_each-IsRing_run : list_for_each 3 two 1 ≡ some (3 ∷ 2 ∷ [])
list_for_each-IsRing_run = list_for_each-IsRing two 1 3 (3 ∷ 2 ∷ []) two-IsRing (omega arith)

list_for_each_prev-IsRing_run : list_for_each_prev 3 two 1 ≡ some (2 ∷ 3 ∷ [])
list_for_each_prev-IsRing_run =
    list_for_each_prev-IsRing two 1 3 (3 ∷ 2 ∷ []) two-IsRing (omega arith)

list_for_each_safe-IsSwept_run :
    IsSwept
      (λ p. p)
      (λ p. p == 3)
      1
      []
      (3 ∷ 2 ∷ [])
      (list_for_each_safe 5 (del_if (λ p. p) (λ p. p == 3)) two 1)
list_for_each_safe-IsSwept_run =
    list_for_each_safe-IsSwept (λ p. p == 3) 5 two 1 (3 ∷ 2 ∷ []) two-IsRing (omega arith)

list_for_each_entry_safe-IsSwept_example :
    IsSwept
      (λ x. list_entry x 1)
      (λ p. p == 3)
      1
      []
      (3 ∷ 2 ∷ [])
      (list_for_each_entry_safe 5 1 (del_if (λ p. member_of p 1) (λ p. p == 3)) two 1)
list_for_each_entry_safe-IsSwept_example =
    list_for_each_entry_safe-IsSwept 1 (omega arith) (λ p. p == 3) 5 two 1 (3 ∷ 2 ∷ []) two-IsRing
      (omega arith) (omega arith, (omega arith, tt)) (omega arith)

list_for_each_entry-IsRing_run :
    (list_for_each_entry 5 1 unchanged two 1 ≡ some (map (λ x. list_entry x 1) (3 ∷ 2 ∷ []), two))
    × (list_for_each_entry_from 5 1 unchanged two 1 (list_entry 2 1)
        ≡ some (map (λ x. list_entry x 1) (2 ∷ []), two))
    × (list_for_each_entry_continue 5 1 unchanged two 1 (list_entry 2 1) ≡ some ([], two))
list_for_each_entry-IsRing_run =
    list_for_each_entry-IsRing 1 (omega arith) 5 two 1 (3 ∷ []) 2 [] two-IsRing (omega arith)
      (omega arith, (omega arith, tt)) (omega arith)

-- The structures stand one below their nodes, and the order is turned round.
reverse-visits : list_for_each_entry_reverse 5 1 unchanged two 1 ≡ some (1 ∷ 2 ∷ [], two)
unfolding list_for_each_entry_reverse prev_entry each list_add list_entry member_of
reverse-visits = refl

first_or_null : (list_first_entry_or_null two 1 1 ≡ 2) × (list_first_entry_or_null two 9 1 ≡ null)
unfolding list_first_entry_or_null list_add list_empty list_entry
first_or_null = (refl, refl)
