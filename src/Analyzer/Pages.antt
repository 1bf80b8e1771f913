-- ===== src/Analyzer/Pages.antt =====
-- The rounding of gen_config, plugin/sa.hpp.
use shiyanhui_libcsp.Base.{ℕ, ◌+◌, ◌%◌, ◌^◌, ◌≤◌, ◌<◌, ◌≡◌, arith, Bool-cases, inl, inr, ◌==◌}
use shiyanhui_libcsp.Analyzer.{whole_pages}

-- The size that gen_config writes for a size that is no page short of 2^64 is the least whole
-- number of pages that is large enough.
pub whole_pages-least :
    (size : ℕ)
    → size + 2 ^ 12 ≤ 2 ^ 64
    → (whole_pages size % 2 ^ 12 ≡ 0)
      × (size ≤ whole_pages size)
      × (whole_pages size < size + 2 ^ 12)
unfolding whole_pages
whole_pages-least size fits = elim (Bool-cases (size % 2 ^ 12 == 0)) [
  | inl whole ↦ rw whole (ground arith, ground arith, ground arith)
  | inr more ↦ rw more (ground arith, ground arith, ground arith)
]
