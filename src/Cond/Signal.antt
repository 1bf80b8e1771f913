-- ===== src/Cond/Signal.antt =====
-- csp_cond_wait and csp_cond_signal of src/cond.h under every interleaving.
use shiyanhui_libcsp.Base.{
  ℕ, ◌≡◌, ◌≢◌, refl, true, false, List, [], ◌∷◌, ◌++◌, arith, ◌==◌, Bool-cases, inl, inr, ap, sym,
  ◌∙◌, subst,
}
use shiyanhui_libcsp.Cond.{
  signal_none, Cond, init, before_wait, Waiter, testing, marking, got, clearing, timing, returned,
  Signaller, checking, storing, sent, State, wait_at, signal_at, Move, wait, signal, step, run,
  begin,
}

-- The waiting thread before it has read a signal.
abbrev Unread : Waiter → Type 0
Unread testing = Unit {0}
Unread marking = Unit {0}
Unread (got n) = ⊥
Unread (clearing n) = ⊥
Unread (timing n) = ⊥
Unread (returned n) = ⊥

-- Behind the store of the signal `v`: it is there until it is read, and then cleared.
abbrev Sent : ℕ → Waiter → Cond → Type 0
Sent v testing c = c.stat ≡ v
Sent v marking c = c.stat ≡ v
Sent v (got n) c = n ≡ v
Sent v (clearing n) c = (n ≡ v) × (c.stat ≡ signal_none)
Sent v (timing n) c = (n ≡ v) × (c.stat ≡ signal_none) × (c.waiting ≡ false)
Sent v (returned n) c = (n ≡ v) × (c ≡ init)

abbrev Fits : ℕ → Signaller → Waiter → Cond → Type 0
Fits v checking w c = (c.stat ≡ signal_none) × Unread w
Fits v storing w c = (c.stat ≡ signal_none) × Unread w
Fits v sent w c = Sent v w c

wait_at-Fits :
    (v : ℕ) (g : Signaller) (w : Waiter) (c : Cond)
    → v ≢ signal_none
    → Fits v g w c
    → Fits v g (wait_at w c).0 (wait_at w c).1
unfolding wait_at init
wait_at-Fits v checking testing c n (e, u) =
    let t : (c.stat == 0) ≡ true = ground arith in rw t (e, tt)
wait_at-Fits v storing testing c n (e, u) =
    let t : (c.stat == 0) ≡ true = ground arith in rw t (e, tt)
wait_at-Fits v sent testing c n e = let t : (c.stat == 0) ≡ false = ground arith in rw t e
wait_at-Fits v checking marking c n (e, u) = (e, tt)
wait_at-Fits v storing marking c n (e, u) = (e, tt)
wait_at-Fits v sent marking c n e = e
wait_at-Fits v checking (got m) c n (e, u) = absurd u
wait_at-Fits v storing (got m) c n (e, u) = absurd u
wait_at-Fits v sent (got m) c n e = (e, refl)
wait_at-Fits v checking (clearing m) c n (e, u) = absurd u
wait_at-Fits v storing (clearing m) c n (e, u) = absurd u
wait_at-Fits v sent (clearing m) c n (e, z) = (e, z, refl)
wait_at-Fits v checking (timing m) c n (e, u) = absurd u
wait_at-Fits v storing (timing m) c n (e, u) = absurd u
wait_at-Fits v sent (timing m) c n (e, z, f) = (e, rw (z, f))
wait_at-Fits v checking (returned m) c n (e, u) = absurd u
wait_at-Fits v storing (returned m) c n (e, u) = absurd u
wait_at-Fits v sent (returned m) c n e = e

signal_at-Fits :
    (v : ℕ) (g : Signaller) (w : Waiter) (c : Cond)
    → Fits v g w c
    → Fits v (signal_at v g c).0 w (signal_at v g c).1
unfolding signal_at
signal_at-Fits v checking w c f = elim (Bool-cases c.waiting) [
  | inl seen ↦ rw seen f
  | inr spins ↦ rw spins f
]
signal_at-Fits v storing testing c (e, u) = refl
signal_at-Fits v storing marking c (e, u) = refl
signal_at-Fits v storing (got m) c (e, u) = absurd u
signal_at-Fits v storing (clearing m) c (e, u) = absurd u
signal_at-Fits v storing (timing m) c (e, u) = absurd u
signal_at-Fits v storing (returned m) c (e, u) = absurd u
signal_at-Fits v sent w c f = f

abbrev FitsState : ℕ → State → Type 0
FitsState v s = Fits v s.signaller s.waiter s.cond

run-Fits :
    (v : ℕ) (ms : List Move) (s : State)
    → v ≢ signal_none
    → FitsState v s
    → FitsState v (run v ms s)
unfolding run step
run-Fits v [] s n f = f
run-Fits v (wait ∷ ms) s n f =
    run-Fits v ms (step v wait s) n (wait_at-Fits v s.signaller s.waiter s.cond n f)
run-Fits v (signal ∷ ms) s n f =
    run-Fits v ms (step v signal s) n (signal_at-Fits v s.signaller s.waiter s.cond f)

begin-Fits : (v now : ℕ) → FitsState v (begin now)
unfolding begin before_wait init
begin-Fits v now = (refl, tt)

run-append : (v : ℕ) (ms ns : List Move) (s : State) → run v (ms ++ ns) s ≡ run v ns (run v ms s)
unfolding run
run-append v [] ns s = refl
run-append v (m ∷ ms) ns s = run-append v ms ns (step v m s)

returned-Fits :
    (v n : ℕ) (g : Signaller) (c : Cond)
    → Fits v g (returned n) c
    → (n ≡ v) × (g ≡ sent) × (c ≡ init)
returned-Fits v n checking c (e, u) = absurd u
returned-Fits v n storing c (e, u) = absurd u
returned-Fits v n sent c (e, i) = (e, refl, i)

-- Under every interleaving of `csp_cond_wait` with `csp_cond_signal` of a signal that is not NONE, if
-- the wait has returned, it has returned that signal, the signaller is through, and the condition is
-- as `csp_cond_init` leaves it.
pub run-returned :
    (v now n : ℕ) (ms : List Move)
    → v ≢ signal_none
    → (run v ms (begin now)).waiter ≡ returned n
    → (n ≡ v) × ((run v ms (begin now)).signaller ≡ sent) × ((run v ms (begin now)).cond ≡ init)
run-returned v now n ms nz e =
    let s = run v ms (begin now) in
    let f = run-Fits v ms (begin now) nz (begin-Fits v now) in
    returned-Fits v n s.signaller s.cond (subst (λ w. Fits v s.signaller w s.cond) e f)

-- Two moves that show the wait, two that signal, five that read and reset.
abbrev show : List Move
show = wait ∷ wait ∷ signal ∷ signal ∷ []

abbrev finish : List Move
finish = wait ∷ wait ∷ wait ∷ wait ∷ wait ∷ []

show-sent :
    (v : ℕ) (g : Signaller) (w : Waiter) (c : Cond)
    → Fits v g w c
    → (run v show (record { cond = c; waiter = w; signaller = g })).signaller ≡ sent
unfolding run step wait_at signal_at
show-sent v checking testing c (e, u) = let t : (c.stat == 0) ≡ true = ground arith in rw t
show-sent v checking marking c (e, u) = refl
show-sent v storing testing c (e, u) = refl
show-sent v storing marking c (e, u) = refl
show-sent v checking (got m) c (e, u) = absurd u
show-sent v checking (clearing m) c (e, u) = absurd u
show-sent v checking (timing m) c (e, u) = absurd u
show-sent v checking (returned m) c (e, u) = absurd u
show-sent v storing (got m) c (e, u) = absurd u
show-sent v storing (clearing m) c (e, u) = absurd u
show-sent v storing (timing m) c (e, u) = absurd u
show-sent v storing (returned m) c (e, u) = absurd u
show-sent v sent w c f = refl

finish-returned :
    (v : ℕ) (w : Waiter) (c : Cond)
    → v ≢ signal_none
    → Sent v w c
    → (run v finish (record { cond = c; waiter = w; signaller = sent })).waiter ≡ returned v
unfolding run step wait_at
finish-returned v testing c n e = let t : (c.stat == 0) ≡ false = ground arith in rw (t, e)
finish-returned v marking c n e = let t : (c.stat == 0) ≡ false = ground arith in rw (t, e)
finish-returned v (got m) c n e = ap returned e
finish-returned v (clearing m) c n (e, z) = ap returned e
finish-returned v (timing m) c n (e, z, k) = ap returned e
finish-returned v (returned m) c n (e, z) = ap returned e

-- From every interleaving of the wait with a signal that is not NONE, the same nine moves let the wait
-- return that signal: the two threads never lock each other out.
run-finish :
    (v now : ℕ) (ms : List Move)
    → v ≢ signal_none
    → (run v (ms ++ (show ++ finish)) (begin now)).waiter ≡ returned v
run-finish v now ms n =
    let s = run v ms (begin now) in
    let f = run-Fits v ms (begin now) n (begin-Fits v now) in
    let done = show-sent v s.signaller s.waiter s.cond f in
    let s' = run v show s in
    let f' = run-Fits v show s n f in
    let last =
      finish-returned v s'.waiter s'.cond n (subst (λ g. Fits v g s'.waiter s'.cond) done f') in
    let whole : run v (ms ++ (show ++ finish)) (begin now) ≡ run v finish s' =
      run-append v ms (show ++ finish) (begin now) ∙ run-append v show finish s in
    ap (λ (t : State). t.waiter) whole
    ∙ subst (λ g. (run v finish (record s' { signaller = g })).waiter ≡ returned v) (sym done) last
