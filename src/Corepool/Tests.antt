-- ===== src/Corepool/Tests.antt =====
-- Runs of the pools, and the theorems at two processors with two cores each.
use shiyanhui_libcsp.Base.{
  times, ℕ, ◌+◌, ◌≡◌, refl, true, Option, none, some, ◌==◌, if◌then◌else◌, [], ◌∷◌, arith,
}
use shiyanhui_libcsp.Runq.{Ptr, null}
use shiyanhui_libcsp.Rbq.Ptr.{multi}
use shiyanhui_libcsp.Rbq.{new}
use shiyanhui_libcsp.Corepool.{
  New, no_pool, freed, pool_new, cores_per_cpu, pools_init, Cores, starts, pool_pop, get, take_over,
  block_prologue, run,
}
use shiyanhui_libcsp.Corepool.Stack.{stacked}
use shiyanhui_libcsp.Corepool.Init.{pools_init-freed}
use shiyanhui_libcsp.Corepool.Block.{stop, go, blocks, begins, Kept, Steps-Kept}

-- The second core of the second processor cannot be made.
abbrev scarce : ℕ → ℕ → Option Ptr
scarce i j = if i + j == 2 then none else some (i + j + 1)

pools_init-freed_example :
    let pool_of : ℕ → ℕ → New = λ n i. pool_new true true (scarce i) (λ j. 0) n in
    let (ok, pools) = pools_init pool_of 3 2 (λ i. no_pool) in (ok ≡ true) × (pools.pools 1 ≡ freed)
unfolding cores_per_cpu
pools_init-freed_example =
    pools_init-freed (λ i. true) scarce (λ j. 0) (λ i. no_pool) 3 2 1 1 (omega arith) (omega arith)
      refl

-- Core 6 runs, core 5 waits in the pool of the one processor.
abbrev cores : Cores
cores = record {
  pools = λ i. record { cap = 2; top = 1; cores = λ j. 5 };
  grunqs = λ i. new multi multi 2 (λ j. 0);
  pid = λ c. 0;
  inited = λ c. true;
  running = λ c. null;
}

abbrev owned : Ptr → ℕ
owned c = times c (5 ∷ []) + times c (6 ∷ [])

cores-Kept : Kept 0 owned cores (6 ∷ [])
unfolding stacked
cores-Kept = record { home = λ c h. refl; places = λ c. refl; room = refl }

handed_over : (block_prologue true 6 cores).0 ≡ starts 5
unfolding block_prologue get pool_pop take_over
handed_over = refl

Steps-Kept_example : Kept 0 owned (run 5 (take_over true (some 5) (get 0 cores).1).1) (5 ∷ 6 ∷ [])
unfolding block_prologue get pool_pop take_over
Steps-Kept_example =
    Steps-Kept 0 owned cores (run 5 (take_over true (some 5) (get 0 cores).1).1) (6 ∷ [])
      (5 ∷ 6 ∷ [])
      (go (blocks true 6 cores (6 ∷ []) refl refl)
        (go (begins 5 (block_prologue true 6 cores).1 (5 ∷ 6 ∷ [])) (stop _ _)))
      cores-Kept
