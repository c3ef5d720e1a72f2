-- ===== src/Atomic/Tests.antt =====
-- The counters at the ends of their range.
use hlos.Base.{◌≡◌, refl, true, false}
use hlos.Atomic.{
  atomic_add, atomic_sub, atomic_sub_and_test, atomic_inc, atomic_inc_and_test, atomic_dec,
  atomic_dec_and_test,
}

add_wraps : atomic_add 0xffff_ffff 3 ≡ 2
add_wraps = refl

sub_wraps : atomic_sub 2 3 ≡ 0xffff_ffff
sub_wraps = refl

sub_tests : atomic_sub_and_test 3 3 ≡ (0, true)
sub_tests = refl

inc_of_dec : atomic_inc (atomic_dec 0) ≡ 0
inc_of_dec = refl

inc_tests : atomic_inc_and_test 0xffff_ffff ≡ (0, true)
inc_tests = refl

dec_tests : atomic_dec_and_test 2 ≡ (1, false)
dec_tests = refl
