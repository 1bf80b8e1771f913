-- ===== src/Cli/Main.antt =====
-- main of plugin/cli.cpp, and the paths of plugin/fs.hpp.
use shiyanhui_libcsp.Base.{
  ℕ, ◌^◌, Bool, true, false, Option, none, some, List, [], ◌∷◌, ◌++◌, ◌==◌, if◌then◌else◌, last_of,
}
use shiyanhui_libcsp.Namer.{Text, eq_text}
use shiyanhui_libcsp.Cli.{
  CmdType, init, analyze, clean, version, AnalyzerOptions, Got, parse_options,
}

abbrev pub slash : ℕ
slash = 47

-- "/tmp/libcsp/".
abbrev pub default_working_dir : Text
default_working_dir = 47 ∷ 116 ∷ 109 ∷ 112 ∷ 47 ∷ 108 ∷ 105 ∷ 98 ∷ 99 ∷ 115 ∷ 112 ∷ 47 ∷ []

-- `set_working_dir`: the directory with a slash at its end.
unfoldable pub set_working_dir : Text → Text
set_working_dir [] = default_working_dir
set_working_dir (c ∷ cs) = if last_of c cs == slash then c ∷ cs else (c ∷ cs) ++ slash ∷ []

-- `full_path`.
unfoldable pub full_path : (working_dir subpath : Text) → Text
full_path working_dir [] = working_dir
full_path working_dir (c ∷ cs) = working_dir ++ (if c == slash then cs else c ∷ cs)

-- `cli_cmd_types`.
unfoldable pub cmd_type : Text → Option CmdType
cmd_type cmd =
    if eq_text cmd (105 ∷ 110 ∷ 105 ∷ 116 ∷ [])
    then some init
    else if eq_text cmd (97 ∷ 110 ∷ 97 ∷ 108 ∷ 121 ∷ 122 ∷ 101 ∷ [])
    then some analyze
    else if eq_text cmd (99 ∷ 108 ∷ 101 ∷ 97 ∷ 110 ∷ [])
    then some clean
    else if eq_text cmd (118 ∷ 101 ∷ 114 ∷ 115 ∷ 105 ∷ 111 ∷ 110 ∷ [])
    then some version
    else none

-- The constructor of `analyzer_options_t`, with the prefix that the build gives.
abbrev pub default_options : (installed_prefix : Text) → AnalyzerOptions
default_options installed_prefix = record {
  is_building_libcsp = false;
  installed = installed_prefix;
  dir = default_working_dir;
  su_file = [];
  stack_size = 2 ^ 11;
  cores = 0;
  threads = 1024;
  procs_hint = 100000;
}

-- What the program does: it writes its usage and fails or not, or it stops at the options, or it runs
-- a command in a directory.
pub data Ran : Type 0 where
  usage : (fails : Bool) → Ran
  stopped : Ran
  runs : CmdType → AnalyzerOptions → (working_dir : Text) → Ran

module _ (exist : Text → Bool) (read_num : Text → Option ℕ) (installed_prefix : Text) where
  -- The part of `main` behind the test for `-h`; `gots` is what getopt_long makes of the arguments.
  unfoldable pub run_command : Option CmdType → List Got → Ran
  run_command none gots = usage true
  run_command (some cmd) gots =
      let (goes_on, options) =
        parse_options exist read_num cmd gots (default_options installed_prefix) in
      if goes_on then runs cmd options (set_working_dir options.dir) else stopped

  -- `main`, for `-h` and `--help` with the letters 45 and 104 and so on.
  unfoldable pub main : (argv : List Text) → List Got → Ran
  unfolding run_command cmd_type
  main [] gots = usage true
  main (program ∷ []) gots = usage true
  main (program ∷ cmd ∷ args) gots =
      if eq_text cmd (45 ∷ 104 ∷ [])
      then usage false
      else if eq_text cmd (45 ∷ 45 ∷ 104 ∷ 101 ∷ 108 ∷ 112 ∷ [])
      then usage false
      else run_command (cmd_type cmd) gots
