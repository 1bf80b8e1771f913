-- ===== src/Analyzer/Written.antt =====
-- What `load` of plugin/sa.hpp reads from the text of the files that `save` has written.
use shiyanhui_libcsp.Base.{
  ℕ, zero, suc, ◌+◌, ◌-◌, ◌*◌, ◌^◌, ◌%◌, ◌/◌, ◌<◌, ◌≡◌, refl, ap, ◌∙◌, Bool, true, false, ◌&&◌,
  ◌||◌, not, Bool-cases, inl, inr, none, some, List, [], ◌∷◌, ◌++◌, ◌==◌, ltb, leb, if◌then◌else◌,
  arith, append-nil, Distinct, has,
}
use shiyanhui_libcsp.Namer.{Text, print, is_digit, read_on, digit_zero}
use shiyanhui_libcsp.Namer.Decimal.{all_digits, print-all_digits, read_on-print}
use shiyanhui_libcsp.Analyzer.{Name, is_set, Usage, Analyzer}
use shiyanhui_libcsp.Analyzer.Files.{
  save_stack_usage, save_call_graph, load_call_graph, load_stack_usage,
}
use shiyanhui_libcsp.Analyzer.Calls.{has_call}
use shiyanhui_libcsp.Analyzer.Saved.{plain, names, after, load-save}
use shiyanhui_libcsp.Analyzer.Lines.{
  blank, minus_sign, plus_sign, is_space, write_number, skip, take_word, drop_word, drop_digits,
  next_word, magnitude, next_number, split_words, usage_text, usage_texts, callees_text, call_texts,
  read_line, read_lines, all_named, read_calls,
}

abbrev pub solid : Text → Bool
solid [] = true
solid (c ∷ cs) = not (is_space c) && solid cs

-- Letters of a name: at least one, and no white space.
abbrev pub IsWord : Text → Type 0
IsWord [] = ⊥
IsWord (c ∷ cs) = solid (c ∷ cs) ≡ true

-- What may stand behind a word or a number.
abbrev Ends : Text → Type 0
Ends [] = Unit {0}
Ends (c ∷ cs) = is_space c ≡ true

space-no_digit : (c : ℕ) → is_space c ≡ true → is_digit c ≡ false
space-no_digit c h = ground arith

take_word-append : (w rest : Text) → solid w ≡ true → Ends rest → take_word (w ++ rest) ≡ w
unfolding take_word
take_word-append [] [] s e = refl
take_word-append [] (c ∷ cs) s e = rw e refl
take_word-append (c ∷ w) rest s e =
    let here : is_space c ≡ false = ground arith in
    let later : solid w ≡ true = ground arith in
    rw here (ap (λ t. c ∷ t) (take_word-append w rest later e))

drop_word-append : (w rest : Text) → solid w ≡ true → Ends rest → drop_word (w ++ rest) ≡ rest
unfolding drop_word
drop_word-append [] [] s e = refl
drop_word-append [] (c ∷ cs) s e = rw e refl
drop_word-append (c ∷ w) rest s e =
    let here : is_space c ≡ false = ground arith in
    let later : solid w ≡ true = ground arith in rw here (drop_word-append w rest later e)

skip-start : (c : ℕ) (cs : Text) → is_space c ≡ false → skip (c ∷ cs) ≡ c ∷ cs
unfolding skip
skip-start c cs e = rw e refl

skip-blank : (cs : Text) → skip (blank ∷ cs) ≡ skip cs
unfolding skip
skip-blank cs = refl

next_word-append : (w rest : Text) → IsWord w → Ends rest → next_word (w ++ rest) ≡ some (w, rest)
unfolding next_word
next_word-append [] rest s e = absurd s
next_word-append (c ∷ w) rest s e =
    let here : is_space c ≡ false = ground arith in
    let taken = take_word-append (c ∷ w) rest s e in
    let left = drop_word-append (c ∷ w) rest s e in
    rw (next_word, skip-start c (w ++ rest) here, taken, left) refl

read_on-append :
    (value : ℕ) (xs rest : Text)
    → all_digits xs ≡ true
    → Ends rest
    → read_on value (xs ++ rest) ≡ read_on value xs
unfolding read_on
read_on-append value [] [] d e = refl
read_on-append value [] (c ∷ cs) d e = rw (space-no_digit c e) refl
read_on-append value (x ∷ xs) rest d e =
    let first : is_digit x ≡ true = ground arith in
    let later : all_digits xs ≡ true = ground arith in
    rw first (read_on-append (value * 10 + (x - digit_zero)) xs rest later e)

drop_digits-append :
    (xs rest : Text) → all_digits xs ≡ true → Ends rest → drop_digits (xs ++ rest) ≡ rest
unfolding drop_digits
drop_digits-append [] [] d e = refl
drop_digits-append [] (c ∷ cs) d e = rw (space-no_digit c e) refl
drop_digits-append (x ∷ xs) rest d e =
    let first : is_digit x ≡ true = ground arith in
    let later : all_digits xs ≡ true = ground arith in rw first (drop_digits-append xs rest later e)

snoc-cons : (xs : Text) (x : ℕ) → (c : ℕ) × (cs : Text) × (xs ++ x ∷ [] ≡ c ∷ cs)
snoc-cons [] x = (x, [], refl)
snoc-cons (y ∷ ys) x = (y, ys ++ x ∷ [], refl)

print-cons : (fuel n : ℕ) → n < fuel → (c : ℕ) × (cs : Text) × (print fuel n ≡ c ∷ cs)
unfolding print
print-cons zero n h = absurd (omega arith)
print-cons (suc fuel) n h = elim (Bool-cases (ltb n 10)) [
  | inl small ↦ rw small (48 + n, [], refl)
  | inr large ↦ rw large (snoc-cons (print fuel (n / 10)) (48 + n % 10))
]

-- A number in decimal that fits is read again, up to the end of its digits.
magnitude-print :
    (negative : Bool) (n : ℕ) (rest : Text)
    → (if negative then leb n (2 ^ 63) else ltb n (2 ^ 63)) ≡ true
    → Ends rest
    → magnitude negative (print (n + 1) n ++ rest)
      ≡ some (if negative then (2 ^ 64 - n) % 2 ^ 64 else n, rest)
unfolding magnitude
magnitude-print negative n rest fits e =
    let (c, cs, p) = print-cons (n + 1) n (omega arith) in
    let digits : all_digits (c ∷ cs) ≡ true = rw p at (print-all_digits (n + 1) n) in
    let first : is_digit c ≡ true = ground arith in
    let value : read_on 0 (c ∷ (cs ++ rest)) ≡ n =
      read_on-append 0 (c ∷ cs) rest digits e ∙ rw p at (read_on-print (n + 1) n (omega arith)) in
    let left : drop_digits (c ∷ (cs ++ rest)) ≡ rest = drop_digits-append (c ∷ cs) rest digits e in
    rw (p, value, left, first, fits) refl

digit-start :
    (c : ℕ)
    → is_digit c ≡ true
    → (is_space c ≡ false) × ((c == minus_sign) ≡ false) × ((c == plus_sign) ≡ false)
digit-start c h = (ground arith, ground arith, ground arith)

-- A number that is written behind a blank is read again.
next_number-write :
    (n : ℕ) (rest : Text)
    → n < 2 ^ 64
    → Ends rest
    → next_number (blank ∷ (write_number n ++ rest)) ≡ some (n, rest)
unfolding next_number write_number
next_number-write n rest small e = elim (Bool-cases (is_set n)) [
  | inl positive ↦
      let (c, cs, p) = print-cons (n + 1) n (omega arith) in
      let digits : all_digits (c ∷ cs) ≡ true = rw p at (print-all_digits (n + 1) n) in
      let (solid_c, no_minus, no_plus) = digit-start c (ground arith) in
      let read = magnitude-print false n rest positive e in
      let start : skip (blank ∷ (c ∷ (cs ++ rest))) ≡ c ∷ (cs ++ rest) =
        skip-blank (c ∷ (cs ++ rest)) ∙ skip-start c (cs ++ rest) solid_c in
      rw (positive, p) (rw (next_number, start, no_minus, no_plus) (rw p at read))
  | inr negative ↦
      let m = 2 ^ 64 - n in
      let fits : leb m (2 ^ 63) ≡ true = ground arith in
      let back : (2 ^ 64 - m) % 2 ^ 64 ≡ n = omega arith in
      rw negative (magnitude-print true m rest fits e ∙ ap (λ v. some (v, rest)) back)
]

split_words-space : (c : ℕ) (cs : Text) → is_space c ≡ true → split_words (c ∷ cs) ≡ split_words cs
unfolding split_words
split_words-space c [] e = rw e refl
split_words-space c (d ∷ cs) e = rw e refl

split_words-append :
    (w rest : Text) → IsWord w → Ends rest → split_words (w ++ rest) ≡ w ∷ split_words rest
unfolding split_words
split_words-append [] rest s e = absurd s
split_words-append (c ∷ []) [] s e = let here : is_space c ≡ false = ground arith in rw here refl
split_words-append (c ∷ []) (x ∷ rest) s e =
    let here : is_space c ≡ false = ground arith in rw (here, e) refl
split_words-append (c ∷ d ∷ w) rest s e =
    let here : is_space c ≡ false = ground arith in
    let next : is_space d ≡ false = ground arith in
    let later : solid (d ∷ w) ≡ true = ground arith in
    rw (here, next, split_words-append (d ∷ w) rest later e) refl

-- The usages are bit patterns of an int64_t.
abbrev pub Bits : List (Name × Bool × Usage) → Type 0
Bits [] = Unit {0}
Bits ((f, dynamic, su) ∷ us) = (su.frame_size < 2 ^ 64) × Bits us

module _ (text : Name → Text) (named : Text → Name) (is_word : (f : Name) → IsWord (text f))
    (same : (f : Name) → named (text f) ≡ f) where
  -- The line of one usage is read as its fields.
  read_line-usage :
      (f : Name) (su : Usage)
      → su.frame_size < 2 ^ 64
      → read_line named (usage_text text f su) ≡ record {
        fn = some f;
        frame = some su.frame_size;
        reserved =
            if is_set su.proc_reserved && ltb 0 su.proc_reserved
            then some su.proc_reserved
            else none;
      }
  unfolding usage_text read_line
  read_line-usage f su small =
      elim (Bool-cases (is_set su.proc_reserved && ltb 0 su.proc_reserved)) [
        | inl more ↦
            let last : su.proc_reserved < 2 ^ 64 = ground arith in
            let third =
              rw (append-nil (write_number su.proc_reserved)) at
                (next_number-write su.proc_reserved [] last tt) in
            let behind = blank ∷ write_number su.proc_reserved in
            let second = next_number-write su.frame_size behind small refl in
            let first =
              next_word-append (text f) (blank ∷ (write_number su.frame_size ++ behind)) (is_word f)
                refl in
            rw (more, read_line, first, second, third, same f) refl
        | inr no_more ↦
            let second = next_number-write su.frame_size [] small tt in
            let first =
              next_word-append (text f) (blank ∷ (write_number su.frame_size ++ [])) (is_word f)
                refl in
            rw (no_more, read_line, first, second, same f) refl
      ]

  read_lines-usages :
      (us : List (Name × Bool × Usage))
      → Bits us
      → read_lines named (usage_texts text us) ≡ save_stack_usage us
  unfolding read_lines usage_texts save_stack_usage
  read_lines-usages [] b = refl
  read_lines-usages ((f, dynamic, su) ∷ us) (small, b) =
      elim (Bool-cases (dynamic && not (is_set su.frame_size))) [
        | inl left_out ↦ rw left_out (read_lines-usages us b)
        | inr written ↦ rw (written, read_line-usage f su small, read_lines-usages us b) refl
      ]

  callees_text-Ends : (fs : List Name) → Ends (callees_text text fs)
  unfolding callees_text
  callees_text-Ends [] = tt
  callees_text-Ends (f ∷ fs) = refl

  split_words-callees : (fs : List Name) → all_named named (split_words (callees_text text fs)) ≡ fs
  unfolding callees_text split_words
  split_words-callees [] = refl
  split_words-callees (f ∷ fs) =
      let behind = callees_text text fs in
      let split =
        split_words-space blank (text f ++ behind) refl
        ∙ split_words-append (text f) behind (is_word f) (callees_text-Ends fs) in
      ap (all_named named) split
      ∙ ap (λ g. g ∷ all_named named (split_words behind)) (same f)
      ∙ ap (λ gs. f ∷ gs) (split_words-callees fs)

  read_calls-calls :
      (cg : List (Name × List Name)) → read_calls named (call_texts text cg) ≡ save_call_graph cg
  unfolding read_calls call_texts save_call_graph
  read_calls-calls [] = refl
  read_calls-calls ((caller, []) ∷ cg) = read_calls-calls cg
  read_calls-calls ((caller, callee ∷ fs) ∷ cg) =
      let behind = callees_text text (callee ∷ fs) in
      let line : all_named named (split_words (text caller ++ behind)) ≡ caller ∷ callee ∷ fs =
        ap (all_named named) (
          split_words-append (text caller) behind (is_word caller)
            (callees_text-Ends (callee ∷ fs)))
        ∙ ap (λ g. g ∷ all_named named (split_words behind)) (same caller)
        ∙ ap (λ gs. caller ∷ gs) (split_words-callees (callee ∷ fs)) in
      ap (λ l. l ∷ read_calls named (call_texts text cg)) line
      ∙ ap (λ ls. (caller ∷ callee ∷ fs) ∷ ls) (read_calls-calls cg)

  -- Where each name has its own letters, at least one and no white space, loading the text that
  -- `save` has written, of usages with different names and of any call graph, sets for each name with
  -- a frame size its frame size and, for a generated wrapper, what it reserves, leaves the other
  -- usages as they were, and adds exactly the calls of the graph.
  pub load-written :
      (us : List (Name × Bool × Usage)) (cg : List (Name × List Name)) (a : Analyzer)
      → Distinct (names us)
      → Bits us
      → let r =
          load_call_graph
            (read_calls named (call_texts text cg))
            (load_stack_usage text plain (read_lines named (usage_texts text us)) a) in
        ((f : Name) → r.stack_usages f ≡ after text us a f)
        × ((f c : Name) → has c (r.call_graph f) ≡ (has_call f c cg || has c (a.call_graph f)))
  load-written us cg a d b =
      rw (read_calls-calls cg, read_lines-usages us b) (load-save text us cg a d)
