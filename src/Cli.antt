-- ===== src/Cli.antt =====
-- plugin/cli.cpp: the options of a command, what it removes, and which command runs. What getopt_long
-- gives is a list; `exist`, which asks the file system, and `read_num`, what a stream reads of an
-- int64_t (its bit pattern), are parameters.
pub mod Options
pub mod Main
mod Tests
use shiyanhui_libcsp.Base.{
  ℕ, zero, suc, Bool, true, false, ◌&&◌, ◌||◌, not, ◌^◌, Option, none, some, List, [], ◌∷◌, ◌++◌,
  ◌==◌, ltb, leb, if◌then◌else◌,
}
use shiyanhui_libcsp.Namer.{Text, eq_text}

-- `cli_cmd_type_t`.
pub data CmdType : Type 0 where
  init : CmdType
  analyze : CmdType
  clean : CmdType
  version : CmdType

-- The names of the options.
pub data OptionName : Type 0 where
  building_libcsp : OptionName
  installed_prefix : OptionName
  working_dir : OptionName
  extra_su_file : OptionName
  default_stack_size : OptionName
  cpu_cores : OptionName
  max_threads : OptionName
  max_procs_hint : OptionName

-- `analyzer_options_t` of plugin/sa.hpp.
pub record AnalyzerOptions : Type 0 where
  pub is_building_libcsp : Bool
  pub installed : Text
  pub dir : Text
  pub su_file : Text
  pub stack_size : ℕ
  pub cores : ℕ
  pub threads : ℕ
  pub procs_hint : ℕ

-- The arrays of options, of init and clean and of analyze.
unfoldable pub longopts : CmdType → List OptionName
longopts init = working_dir ∷ []
longopts clean = working_dir ∷ []
longopts version = []
longopts analyze =
    building_libcsp ∷ installed_prefix ∷ working_dir ∷ extra_su_file ∷ default_stack_size
    ∷ cpu_cores ∷ max_threads ∷ max_procs_hint ∷ []

-- A result of getopt_long: '?', or an option by its index with `optarg`.
pub data Got : Type 0 where
  unknown : Got
  option : (idx : ℕ) → (optarg : Option Text) → Got

abbrev pub name_at : ℕ → List OptionName → Option OptionName
name_at i [] = none
name_at zero (o ∷ os) = some o
name_at (suc i) (o ∷ os) = name_at i os

-- `arg_name == "installed-prefix" || arg_name == "extra-su-file"`.
unfoldable pub is_file : Option OptionName → Bool
is_file none = false
is_file (some building_libcsp) = false
is_file (some installed_prefix) = true
is_file (some working_dir) = false
is_file (some extra_su_file) = true
is_file (some default_stack_size) = false
is_file (some cpu_cores) = false
is_file (some max_threads) = false
is_file (some max_procs_hint) = false

-- "true".
abbrev pub true_text : Text
true_text = 116 ∷ 114 ∷ 117 ∷ 101 ∷ []

-- `!(ss >> num) || num <= 0` fails: a number above 0.
abbrev pub above_zero : Option ℕ → Option ℕ
above_zero none = none
above_zero (some n) = if ltb 0 n && ltb n (2 ^ 63) then some n else none

-- `switch (idx)` for the first four options of analyze, and for the others.
unfoldable pub set_text : (idx : ℕ) → Text → AnalyzerOptions → AnalyzerOptions
set_text idx v o =
    if idx == 0
    then record o { is_building_libcsp = eq_text v true_text }
    else if idx == 1
    then record o { installed = v }
    else if idx == 2
    then record o { dir = v }
    else if idx == 3
    then record o { su_file = v }
    else o

unfoldable pub set_number : (idx num : ℕ) → AnalyzerOptions → AnalyzerOptions
set_number idx num o =
    if idx == 4
    then record o { stack_size = num }
    else if idx == 5
    then record o { cores = num }
    else if idx == 6
    then record o { threads = num }
    else if idx == 7
    then record o { procs_hint = num }
    else o

module _ (exist : Text → Bool) (read_num : Text → Option ℕ) where
  -- `switch (cmd_type)` for one option with a value.
  unfoldable pub set_option : CmdType → (idx : ℕ) → Text → AnalyzerOptions → AnalyzerOptions
  unfolding set_text set_number
  set_option init idx v o = record o { dir = v }
  set_option clean idx v o = record o { dir = v }
  set_option version idx v o = o
  set_option analyze idx v o =
      if ltb idx 4
      then set_text idx v o
      else elim (above_zero (read_num v)) [ none ↦ o | some num ↦ set_number idx num o ]

  -- The loop of `parse_options`.
  unfoldable pub parse_loop : CmdType → List Got → AnalyzerOptions → Bool × AnalyzerOptions
  unfolding set_option longopts is_file
  parse_loop cmd [] o = (true, o)
  parse_loop cmd (unknown ∷ gots) o = (false, o)
  parse_loop cmd (option idx none ∷ gots) o = parse_loop cmd gots o
  parse_loop cmd (option idx (some []) ∷ gots) o = parse_loop cmd gots o
  parse_loop cmd (option idx (some (c ∷ cs)) ∷ gots) o =
      let rest = parse_loop cmd gots (set_option cmd idx (c ∷ cs) o) in
      if is_file (name_at idx (longopts cmd)) && not (exist (c ∷ cs)) then (false, o) else rest

  -- `parse_options`; with version it does not look at the arguments.
  unfoldable pub parse_options : CmdType → List Got → AnalyzerOptions → Bool × AnalyzerOptions
  unfolding parse_loop
  parse_options version gots o = (true, o)
  parse_options init gots o = parse_loop init gots o
  parse_options clean gots o = parse_loop clean gots o
  parse_options analyze gots o = parse_loop analyze gots o

-- `file_name.substr(file_name.rfind('.'))`, with 46 for the dot; empty without a dot.
unfoldable pub ext_of : Text → Text
ext_of [] = []
ext_of (c ∷ cs) = elim (ext_of cs) [ [] ↦ if c == 46 then c ∷ cs else [] | d ∷ ds ↦ d ∷ ds ]

-- config.c, .session, .cg and .sf.
abbrev pub config_file_name : Text
config_file_name = 99 ∷ 111 ∷ 110 ∷ 102 ∷ 105 ∷ 103 ∷ 46 ∷ 99 ∷ []

abbrev pub session_name : Text
session_name = 46 ∷ 115 ∷ 101 ∷ 115 ∷ 115 ∷ 105 ∷ 111 ∷ 110 ∷ []

abbrev pub call_graph_ext : Text
call_graph_ext = 46 ∷ 99 ∷ 103 ∷ []

abbrev pub stack_frame_ext : Text
stack_frame_ext = 46 ∷ 115 ∷ 102 ∷ []

-- Whether `clean` removes a file.
unfoldable pub is_cleaned : Text → Bool
unfolding ext_of
is_cleaned file_name =
    eq_text file_name config_file_name
    || eq_text file_name session_name
    || eq_text (ext_of file_name) call_graph_ext
    || eq_text (ext_of file_name) stack_frame_ext

-- The loop of `clean` over a directory: the files that are left. `removes` is whether remove
-- succeeds; where it fails a message is written and the loop goes on.
unfoldable pub clean_dir : (removes : Text → Bool) → (files : List Text) → List Text
unfolding is_cleaned
clean_dir removes [] = []
clean_dir removes (file_name ∷ files) =
    let rest = clean_dir removes files in
    if is_cleaned file_name && removes file_name then rest else file_name ∷ rest
