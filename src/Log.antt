-- ===== src/Log.antt =====
-- library/Log.cpp: the level of the log, which is read from the environment once, and the four
-- functions that print. The text is what `vfprintf` makes of the arguments; each stream has a mutex,
-- so that a call is one step.
pub mod Lines
mod Tests
use cpp_interface.Prelude.{
  ℕ, Bool, true, false, Option, none, some, List, [], ◌∷◌, ◌++◌, ◌==◌, ◌&&◌, ltb, if◌then◌else◌,
}

-- The constructors are those of the source with the name of the type behind.
pub data LogLevel : Type 0 where
  none_level error_level warning_level info_level debug_level : LogLevel

-- The number that the enumeration gives a level.
abbrev pub rank : LogLevel → ℕ
rank none_level = 0
rank error_level = 1
rank warning_level = 2
rank info_level = 3
rank debug_level = 4

abbrev pub default_level : LogLevel
default_level = warning_level

-- `std::strcmp (a, b) == 0`
abbrev pub same_text : List ℕ → List ℕ → Bool
same_text [] [] = true
same_text [] (y ∷ ys) = false
same_text (x ∷ xs) [] = false
same_text (x ∷ xs) (y ∷ ys) = (x == y) && same_text xs ys

abbrev pub none_text : List ℕ
none_text = 78 ∷ 79 ∷ 78 ∷ 69 ∷ []

abbrev pub error_text : List ℕ
error_text = 69 ∷ 82 ∷ 82 ∷ 79 ∷ 82 ∷ []

abbrev pub warning_text : List ℕ
warning_text = 87 ∷ 65 ∷ 82 ∷ 78 ∷ 73 ∷ 78 ∷ 71 ∷ []

abbrev pub info_text : List ℕ
info_text = 73 ∷ 78 ∷ 70 ∷ 79 ∷ []

abbrev pub debug_text : List ℕ
debug_text = 68 ∷ 69 ∷ 66 ∷ 85 ∷ 71 ∷ []

-- `std::getenv ("RLBOTCPP_LOG_LEVEL")`, `none` if it is not set.
unfoldable pub log_level : Option (List ℕ) → LogLevel
log_level none = default_level
log_level (some []) = default_level
log_level (some (c ∷ cs)) =
    let level = c ∷ cs in
    if same_text level none_text
    then none_level
    else if same_text level error_text
    then error_level
    else if same_text level warning_text
    then warning_level
    else if same_text level info_text
    then info_level
    else if same_text level debug_text
    then debug_level
    else default_level

pub record Output : Type 0 where
  pub stdout : List ℕ
  pub stderr : List ℕ

-- What the functions print before the text.
abbrev pub prefix : LogLevel → List ℕ
prefix none_level = []
prefix error_level = 91 ∷ 69 ∷ 114 ∷ 114 ∷ 111 ∷ 114 ∷ 32 ∷ 32 ∷ 93 ∷ 32 ∷ []
prefix warning_level = 91 ∷ 87 ∷ 97 ∷ 114 ∷ 110 ∷ 105 ∷ 110 ∷ 103 ∷ 93 ∷ 32 ∷ []
prefix info_level = 91 ∷ 73 ∷ 110 ∷ 102 ∷ 111 ∷ 32 ∷ 32 ∷ 32 ∷ 93 ∷ 32 ∷ []
prefix debug_level = 91 ∷ 68 ∷ 101 ∷ 98 ∷ 117 ∷ 103 ∷ 32 ∷ 32 ∷ 93 ∷ 32 ∷ []

unfoldable pub error : LogLevel → List ℕ → Output → Output
error level text o =
    if ltb (rank level) (rank error_level)
    then o
    else record o { stderr = o.stderr ++ (prefix error_level ++ text) }

unfoldable pub warning : LogLevel → List ℕ → Output → Output
warning level text o =
    if ltb (rank level) (rank warning_level)
    then o
    else record o { stderr = o.stderr ++ (prefix warning_level ++ text) }

unfoldable pub info : LogLevel → List ℕ → Output → Output
info level text o =
    if ltb (rank level) (rank info_level)
    then o
    else record o { stdout = o.stdout ++ (prefix info_level ++ text) }

-- As it is built without `NDEBUG`.
unfoldable pub debug : LogLevel → List ℕ → Output → Output
debug level text o =
    if ltb (rank level) (rank debug_level)
    then o
    else record o { stdout = o.stdout ++ (prefix debug_level ++ text) }
