-- ===== src/Cli/Options.antt =====
-- Of the options of a command in plugin/cli.cpp the last value that can be used counts.
use shiyanhui_libcsp.Base.{
  ℕ, ◌≡◌, Bool, true, false, ◌&&◌, ◌||◌, not, Option, none, some, List, [], ◌∷◌, ◌==◌, ◌^◌, ltb,
  if◌then◌else◌,
}
use shiyanhui_libcsp.Namer.{Text, eq_text}
use shiyanhui_libcsp.Cli.{
  CmdType, init, clean, version, analyze, AnalyzerOptions, Got, unknown, option, true_text,
  set_number, set_option,
}

-- The value behind the results `gots` of an option that was `d` before: the last that `read` takes, of
-- the results at the indices in `at`.
abbrev pub latest {ℓ} : {A : Type ℓ} → (read : Text → Option A) → (at : ℕ → Bool) → List Got → A → A
latest read at [] d = d
latest read at (unknown ∷ gots) d = latest read at gots d
latest read at (option i none ∷ gots) d = latest read at gots d
latest read at (option i (some []) ∷ gots) d = latest read at gots d
latest read at (option i (some (c ∷ cs)) ∷ gots) d =
    latest read at gots (if at i then elim (read (c ∷ cs)) [ none ↦ d | some a ↦ a ] else d)

abbrev pub only : ℕ → ℕ → Bool
only idx i = i == idx

-- The results up to the first unknown option, and whether there is none.
abbrev pub before_unknown : List Got → List Got
before_unknown [] = []
before_unknown (unknown ∷ gots) = []
before_unknown (option i v ∷ gots) = option i v ∷ before_unknown gots

abbrev pub all_known : List Got → Bool
all_known [] = true
all_known (unknown ∷ gots) = false
all_known (option i v ∷ gots) = all_known gots

-- Whether analyze goes on: each option is known, and each file is there.
abbrev pub accepted : (exist : Text → Bool) → List Got → Bool
accepted exist [] = true
accepted exist (unknown ∷ gots) = false
accepted exist (option i none ∷ gots) = accepted exist gots
accepted exist (option i (some []) ∷ gots) = accepted exist gots
accepted exist (option i (some (c ∷ cs)) ∷ gots) =
    not ((i == 1 || (i == 3)) && not (exist (c ∷ cs))) && accepted exist gots

-- The results up to there.
abbrev pub before_stop : (exist : Text → Bool) → List Got → List Got
before_stop exist [] = []
before_stop exist (unknown ∷ gots) = []
before_stop exist (option i none ∷ gots) = option i none ∷ before_stop exist gots
before_stop exist (option i (some []) ∷ gots) = option i (some []) ∷ before_stop exist gots
before_stop exist (option i (some (c ∷ cs)) ∷ gots) =
    let rest = before_stop exist gots in
    if (i == 1 || (i == 3)) && not (exist (c ∷ cs)) then [] else option i (some (c ∷ cs)) ∷ rest

module _ (exist : Text → Bool) (read_num : Text → Option ℕ) where
  -- A number that can be used: an int64_t above 0.
  abbrev pub number : Text → Option ℕ
  number v = elim (read_num v) [
    | none ↦ none
    | some n ↦ if ltb 0 n && ltb n (2 ^ 63) then some n else none
  ]

  abbrev pub latest_options : List Got → AnalyzerOptions → AnalyzerOptions
  latest_options gots o = record {
    is_building_libcsp =
        latest (λ v. some (eq_text v true_text)) (only 0) gots o.is_building_libcsp;
    installed = latest some (only 1) gots o.installed;
    dir = latest some (only 2) gots o.dir;
    su_file = latest some (only 3) gots o.su_file;
    stack_size = latest number (only 4) gots o.stack_size;
    cores = latest number (only 5) gots o.cores;
    threads = latest number (only 6) gots o.threads;
    procs_hint = latest number (only 7) gots o.procs_hint;
  }

  -- One option of analyze.
  abbrev Sets : (i : ℕ) → Text → List Got → AnalyzerOptions → Type 0
  Sets i v gots o =
      latest_options (option i (some v) ∷ gots) o
      ≡ latest_options gots (set_option exist read_num analyze i v o)

  -- The equation for an option of analyze with a number, if the number is used and if it is not.
  abbrev SetsNumber : (i : ℕ) → Option ℕ → List Got → AnalyzerOptions → Type 0
  SetsNumber i n gots o =
      let put : ℕ → ℕ → ℕ = λ k d. if i == k then elim n [ none ↦ d | some a ↦ a ] else d in
      record o {
        stack_size = put 4 o.stack_size;
        cores = put 5 o.cores;
        threads = put 6 o.threads;
        procs_hint = put 7 o.procs_hint;
      }
      ≡ elim n [ none ↦ o | some a ↦ set_number i a o ]

-- init and clean have one option, the directory.
abbrev dir_options : List Got → AnalyzerOptions → AnalyzerOptions
dir_options gots o = record o { dir = latest some (λ i. true) gots o.dir }

-- What `parse_options` returns, with the options that it leaves.
abbrev pub expected :
    (Text → Bool)
    → (Text → Option ℕ)
    → CmdType
    → List Got
    → AnalyzerOptions
    → Bool × AnalyzerOptions
expected exist read_num version gots o = (true, o)
expected exist read_num init gots o = (all_known gots, dir_options (before_unknown gots) o)
expected exist read_num clean gots o = (all_known gots, dir_options (before_unknown gots) o)
expected exist read_num analyze gots o =
    (accepted exist gots, latest_options exist read_num (before_stop exist gots) o)
