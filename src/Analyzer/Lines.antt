-- ===== src/Analyzer/Lines.antt =====
-- The text of the files of plugin/sa.hpp, one line each: what the stream operators write and read.
-- `text` gives the letters of a name and `named` the name of some letters.
use shiyanhui_libcsp.Base.{
  ℕ, ◌+◌, ◌-◌, ◌^◌, ◌%◌, Bool, true, false, ◌&&◌, ◌||◌, not, Option, none, some, List, [], ◌∷◌,
  ◌++◌, ◌==◌, ltb, leb, if◌then◌else◌,
}
use shiyanhui_libcsp.Namer.{Text, print, is_digit, read_on}
use shiyanhui_libcsp.Analyzer.{Name, is_set, Usage}
use shiyanhui_libcsp.Analyzer.Files.{UsageLine}

-- The codes of a blank, `+` and `-`, and the white space of isspace.
abbrev pub blank : ℕ
blank = 32

abbrev pub plus_sign : ℕ
plus_sign = 43

abbrev pub minus_sign : ℕ
minus_sign = 45

abbrev pub is_space : ℕ → Bool
is_space c = (c == blank) || (leb 9 c && leb c 13)

-- `file << n` of an int64_t.
unfoldable pub write_number : ℕ → Text
unfolding print
write_number n =
    if is_set n then print (n + 1) n else minus_sign ∷ print (2 ^ 64 - n + 1) (2 ^ 64 - n)

-- White space that an extraction skips; the word at the start of a text, and what is behind it.
unfoldable pub skip : Text → Text
skip [] = []
skip (c ∷ cs) = let rest = skip cs in if is_space c then rest else c ∷ cs

unfoldable pub take_word : Text → Text
take_word [] = []
take_word (c ∷ cs) = let rest = take_word cs in if is_space c then [] else c ∷ rest

unfoldable pub drop_word : Text → Text
drop_word [] = []
drop_word (c ∷ cs) = let rest = drop_word cs in if is_space c then c ∷ cs else rest

unfoldable pub drop_digits : Text → Text
drop_digits [] = []
drop_digits (c ∷ cs) = let rest = drop_digits cs in if is_digit c then rest else c ∷ cs

-- `ss >> word`, where it succeeds, with what is left.
unfoldable pub next_word : Text → Option (Text × Text)
unfolding skip take_word drop_word
next_word t = elim (skip t) [ [] ↦ none | c ∷ cs ↦ some (take_word (c ∷ cs), drop_word (c ∷ cs)) ]

-- The digits of an int64_t behind its sign; none or too many fail.
unfoldable pub magnitude : (negative : Bool) → Text → Option (ℕ × Text)
unfolding drop_digits read_on
magnitude negative [] = none
magnitude negative (c ∷ cs) =
    let value = read_on 0 (c ∷ cs) in
    let bits = if negative then (2 ^ 64 - value) % 2 ^ 64 else value in
    let fits = if negative then leb value (2 ^ 63) else ltb value (2 ^ 63) in
    if is_digit c && fits then some (bits, drop_digits (c ∷ cs)) else none

-- `ss >> number`.
unfoldable pub next_number : Text → Option (ℕ × Text)
unfolding skip magnitude
next_number t = elim (skip t) [
  | [] ↦ none
  | c ∷ cs ↦
      if c == minus_sign
      then magnitude true cs
      else if c == plus_sign
      then magnitude false cs
      else magnitude false (c ∷ cs)
]

-- All that `while (ss >> callee)` reads.
unfoldable pub split_words : Text → List Text
split_words [] = []
split_words (c ∷ []) = if is_space c then [] else (c ∷ []) ∷ []
split_words (c ∷ d ∷ cs) =
    let rest = split_words (d ∷ cs) in
    if is_space c
    then rest
    else if is_space d
    then (c ∷ []) ∷ rest
    else elim rest [ [] ↦ (c ∷ []) ∷ [] | w ∷ ws ↦ (c ∷ w) ∷ ws ]

module _ (text : Name → Text) where
  -- The line of `save_stack_usage` for one usage.
  unfoldable pub usage_text : Name → Usage → Text
  unfolding write_number
  usage_text f su =
      text f
      ++ (blank
          ∷ (write_number su.frame_size
              ++ (if is_set su.proc_reserved && ltb 0 su.proc_reserved
                  then blank ∷ write_number su.proc_reserved
                  else [])))

  -- The lines of `save_stack_usage`.
  unfoldable pub usage_texts : List (Name × Bool × Usage) → List Text
  unfolding usage_text
  usage_texts [] = []
  usage_texts ((f, dynamic, su) ∷ us) =
      let rest = usage_texts us in
      if dynamic && not (is_set su.frame_size) then rest else usage_text f su ∷ rest

  -- A line of `save_call_graph`: the caller, and each callee behind a blank.
  unfoldable pub callees_text : List Name → Text
  callees_text [] = []
  callees_text (f ∷ fs) = blank ∷ (text f ++ callees_text fs)

  unfoldable pub call_texts : List (Name × List Name) → List Text
  unfolding callees_text
  call_texts [] = []
  call_texts ((caller, []) ∷ cg) = call_texts cg
  call_texts ((caller, callee ∷ fs) ∷ cg) =
      (text caller ++ callees_text (callee ∷ fs)) ∷ call_texts cg

module _ (named : Text → Name) where
  -- What `load_stack_usage_from_file` extracts from a line.
  unfoldable pub read_line : Text → UsageLine
  unfolding next_word next_number
  read_line line = elim (next_word line) [
    | none ↦ record { fn = none; frame = none; reserved = none }
    | some w ↦ elim (next_number w.1) [
      | none ↦ record { fn = some (named w.0); frame = none; reserved = none }
      | some n ↦ elim (next_number n.1) [
        | none ↦ record { fn = some (named w.0); frame = some n.0; reserved = none }
        | some m ↦ record { fn = some (named w.0); frame = some n.0; reserved = some m.0 }
      ]
    ]
  ]

  unfoldable pub read_lines : List Text → List UsageLine
  unfolding read_line
  read_lines [] = []
  read_lines (line ∷ lines) = read_line line ∷ read_lines lines

  abbrev pub all_named : List Text → List Name
  all_named [] = []
  all_named (w ∷ ws) = named w ∷ all_named ws

  -- The words of the lines of `load_call_graph_from_file`.
  unfoldable pub read_calls : List Text → List (List Name)
  unfolding split_words
  read_calls [] = []
  read_calls (line ∷ lines) = all_named (split_words line) ∷ read_calls lines
