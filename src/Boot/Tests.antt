-- ===== src/Boot/Tests.antt =====
-- Tables at 0x1000, 0x2000 and 0x3000.
use hlos.Base.{arith}
use hlos.Boot.{mmap_tmp_page}
use hlos.Boot.Mapping.{IsTmpMapped, mmap_tmp_page-identity, mmap_tmp_page-high}

mmap_tmp_page-identity_run :
    IsTmpMapped 0x1000 0x2000 (mmap_tmp_page 0x1000 0x2000 0x3000 (λ a. 0)) 0x100abc 0x100abc
mmap_tmp_page-identity_run =
    mmap_tmp_page-identity 0x1000 0x2000 0x3000 (λ a. 0) (omega arith) (omega arith) 0x100abc
      (omega arith)

mmap_tmp_page-high_example :
    IsTmpMapped 0x1000 0x5000 (mmap_tmp_page 0x1000 0x2000 0x3000 (λ a. 0)) 0xc0812345 0x812345
mmap_tmp_page-high_example =
    mmap_tmp_page-high 0x1000 0x2000 0x3000 (λ a. 0) (omega arith) (omega arith) 0x812345
      (omega arith) (omega arith)
