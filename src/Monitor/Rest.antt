-- ===== src/Monitor/Rest.antt =====
-- The pauses of csp_monitor, src/monitor.c, and its check of the starving cores.
use shiyanhui_libcsp.Base.{
  ℕ, zero, suc, ◌-◌, ◌^◌, ◌≡◌, refl, inl, inr, false, Bool-cases, ◌==◌, ltb, if◌then◌else◌, List,
  [], ◌∷◌, arith, min, pow-suc, times,
}
use shiyanhui_libcsp.Monitor.{max_sleep_microsecs, next_duration, check_cores}

-- `duration` after `k` rounds that find nothing.
abbrev pauses : ℕ → ℕ
pauses zero = 1
pauses (suc k) = next_duration false (pauses k)

-- The pause doubles with every idle round, up to its limit.
pauses-min : (k : ℕ) → pauses k ≡ min (2 ^ k) max_sleep_microsecs
unfolding next_duration
pauses-min zero = refl
pauses-min (suc k) = rw (pauses-min k) (ground (arith, pow-suc 2 k))

-- The cores that have waited for more than a second, and only those, go to deep sleep; every other
-- one stays among the starving cores.
check_cores-split :
    (now : ℕ) (start : ℕ → ℕ) (cs : List ℕ) (c : ℕ)
    → let long = ltb (10 ^ 9) (now - start c) in
      (times c (check_cores now start cs).0 ≡ (if long then times c cs else 0))
      × (times c (check_cores now start cs).1 ≡ (if long then 0 else times c cs))
unfolding check_cores
check_cores-split now start [] c = ground arith
check_cores-split now start (d ∷ cs) c =
    let (deep, stays) = check_cores-split now start cs c in
    elim (Bool-cases (d == c)) [
      | inl same ↦ let at : d ≡ c = ground arith in rw at (ground (arith, deep, stays))
      | inr other ↦ ground (arith, deep, stays, other)
    ]
