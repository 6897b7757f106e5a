-- ===== src/Logger.antt =====
-- The logger (go-indexer/logger/logger.go): the levels, the global level that is set once, and which messages
-- are printed.
use vault_indexer.Prelude.{
  Text, ℕ, ◌-◌, ◌≡◌, ◌↔◌, refl, subst, sym, Bool, true, false, ◌&&◌, Option, none, some, map, ◌++◌,
  text, eq_text, leb, if◌then◌else◌, arith,
}

pub data LogLevel : Type 0 where
  debug info warn error : LogLevel

-- The number of a level: `iota`.
abbrev rank : LogLevel → ℕ
rank debug = 0
rank info = 1
rank warn = 2
rank error = 3

-- levelNames
abbrev level_name : LogLevel → Text
level_name debug = text "DEBUG"
level_name info = text "INFO"
level_name warn = text "WARN"
level_name error = text "ERROR"

-- `strings.ToUpper`, on ASCII texts.
abbrev upper_byte : ℕ → ℕ
upper_byte c = if leb b'a' c && leb c b'z' then c - 32 else c

abbrev to_upper : Text → Text
to_upper s = map upper_byte s

abbrev level_named : Text → LogLevel
level_named level =
    if eq_text level (text "DEBUG")
    then debug
    else if eq_text level (text "WARN")
    then warn
    else if eq_text level (text "ERROR")
    then error
    else info

unfoldable parse_log_level : Text → LogLevel
parse_log_level level = level_named (to_upper level)

-- `globalLogLevel` and `once`.
pub record Globals : Type 0 where
  pub level : LogLevel
  pub initialized : Bool

abbrev initial_globals : Globals
initial_globals = record { level = info; initialized = false }

unfoldable init_global_log_level : Text → Globals → Globals
init_global_log_level level g =
    if g.initialized then g else record { level = parse_log_level level; initialized = true }

pub record Logger : Type 0 where
  pub prefix : Text
  pub log_level : LogLevel

-- A logger keeps the global level of the time when it was made.
unfoldable new_logger : Text → Globals → Logger
new_logger prefix g = record { prefix = text "[" ++ prefix ++ text "] "; log_level = g.level }

abbrev set_log_level : LogLevel → Logger → Logger
set_log_level level l = record { prefix = l.prefix; log_level = level }

-- What is printed of a message, which stands here for its format with the values put in.
unfoldable log_with_level : LogLevel → Text → Logger → Option Text
log_with_level level message l =
    if leb (rank l.log_level) (rank level)
    then some (l.prefix ++ text "[" ++ level_name level ++ text "] " ++ message)
    else none

-- A level's name, in any case, is parsed as the level.
parse_log_level_name : (l : LogLevel) (s : Text) → to_upper s ≡ level_name l → parse_log_level s ≡ l
unfolding parse_log_level eq_text text
parse_log_level_name debug s h = subst (λ t. level_named t ≡ debug) (sym h) refl
parse_log_level_name info s h = subst (λ t. level_named t ≡ info) (sym h) refl
parse_log_level_name warn s h = subst (λ t. level_named t ≡ warn) (sym h) refl
parse_log_level_name error s h = subst (λ t. level_named t ≡ error) (sym h) refl

-- Loggers that are made before the level is set print what is at least an info.
early_logger :
    (name message level : Text) (l : LogLevel)
    → (log_with_level l message (new_logger name initial_globals) ≡ none) ↔ (l ≡ debug)
unfolding log_with_level new_logger
early_logger name message level debug = (λ h. refl, λ h. refl)
early_logger name message level info = (λ h. ground arith, λ h. ground arith)
early_logger name message level warn = (λ h. ground arith, λ h. ground arith)
early_logger name message level error = (λ h. ground arith, λ h. ground arith)
