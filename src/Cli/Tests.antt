-- ===== src/Cli/Tests.antt =====
-- Options of analyze.
use shiyanhui_libcsp.Base.{
  ℕ, ◌^◌, ◌≡◌, refl, Bool, true, false, Option, none, some, List, [], ◌∷◌, not, ◌==◌,
}
use shiyanhui_libcsp.Namer.{Text, eq_text}
use shiyanhui_libcsp.Cli.{
  analyze, AnalyzerOptions, Got, option, parse_options, is_cleaned, ext_of, clean_dir,
  config_file_name, parse_loop, set_option, longopts, is_file, set_text, set_number,
}

abbrev defaults : AnalyzerOptions
defaults = record {
  is_building_libcsp = false;
  installed = [];
  dir = [];
  su_file = [];
  stack_size = 2 ^ 11;
  cores = 0;
  threads = 1024;
  procs_hint = 100000;
}

-- A number is one letter, the name a is no file.
abbrev read_one : Text → Option ℕ
read_one [] = none
read_one (c ∷ cs) = some c

abbrev is_there : Text → Bool
is_there [] = false
is_there (c ∷ cs) = not (c == 97)

abbrev given : List Got
given =
    option 5 (some (4 ∷ []))
    ∷ option 2 (some (47 ∷ []))
    ∷ option 5 (some (8 ∷ []))
    ∷ option 5 (some (0 ∷ []))
    ∷ option 3 (some (97 ∷ []))
    ∷ option 2 none
    ∷ []

-- The eight of the three numbers counts, and the missing file ends the program.
parsed :
    parse_options is_there read_one analyze given defaults
    ≡ (false, record defaults { cores = 8; dir = 47 ∷ [] })
unfolding parse_options parse_loop set_option longopts is_file set_text set_number
parsed = refl

-- config.c and a.cg go, a.c stays.
cleaned :
    clean_dir (λ f. true) (config_file_name ∷ (97 ∷ 46 ∷ 99 ∷ 103 ∷ []) ∷ (97 ∷ 46 ∷ 99 ∷ []) ∷ [])
    ≡ (97 ∷ 46 ∷ 99 ∷ []) ∷ []
unfolding clean_dir is_cleaned ext_of eq_text
cleaned = refl
