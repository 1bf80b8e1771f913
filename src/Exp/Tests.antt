-- ===== src/Exp/Tests.antt =====
-- Runs of csp_exp, and its theorem at an input.
use shiyanhui_libcsp.Base.{◌≡◌, refl, some}
use shiyanhui_libcsp.Exp.{csp_exp}

csp_exp_values :
    (csp_exp 0 ≡ some 0) × (csp_exp 1 ≡ some 0) × (csp_exp 13 ≡ some 4) × (csp_exp 64 ≡ some 6)
unfolding csp_exp
csp_exp_values = (refl, refl, refl, refl)
