-- ===== src/Cond/Tests.antt =====
-- Runs of a wait and a signal, and the theorems at one interleaving.
use shiyanhui_libcsp.Base.{◌≡◌, refl, ◌∷◌, [], List}
use shiyanhui_libcsp.Cond.{Move, wait, signal, run, begin, init, returned, sent, signal_deep_sleep}
use shiyanhui_libcsp.Cond.Signal.{run-returned}

-- The signaller spins first, and stores between two accesses of the waiting thread.
abbrev mixed : List Move
mixed =
    signal ∷ wait ∷ signal ∷ wait ∷ signal ∷ wait ∷ signal ∷ wait ∷ wait ∷ wait ∷ wait ∷ wait ∷ []

mixed_returns : (run signal_deep_sleep mixed (begin 9)).waiter ≡ returned signal_deep_sleep
unfolding run begin
mixed_returns = refl

run-returned_example :
    (signal_deep_sleep ≡ 2)
    × ((run 2 mixed (begin 9)).signaller ≡ sent)
    × ((run 2 mixed (begin 9)).cond ≡ init)
unfolding run begin
run-returned_example = run-returned 2 9 2 mixed (λ e. cc) refl
