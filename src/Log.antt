-- ===== src/Log.antt =====
-- log/log.c: which messages are written, and which end the program.
use mapper_framework_c.Prelude.{ℕ, ltb, if◌then◌else◌}
use mapper_framework_c.Prelude.CString.{Str, codes}

pub data LogLevel : Type 0 where
  debug : LogLevel
  info : LogLevel
  warn : LogLevel
  error : LogLevel
  fatal : LogLevel

-- The number of the constant.
unfoldable pub rank : LogLevel → ℕ
rank debug = 0
rank info = 1
rank warn = 2
rank error = 3
rank fatal = 4

unfoldable pub level_str : LogLevel → Str
level_str debug = codes "DEBUG"
level_str info = codes "INFO"
level_str warn = codes "WARN"
level_str error = codes "ERROR"
level_str fatal = codes "FATAL"

-- `current_level` as it starts.
abbrev pub first_level : LogLevel
first_level = info

pub data Written : Type 0 where
  silent : Written
  line : Str → Written
  last_line : Str → Written

-- What `log_write` does for a level that is not below the current one.
write_line : LogLevel → Str → Written
write_line fatal text = last_line text
write_line _ text = line text

-- What a call does at the current level: it writes nothing, writes a line of that level, or writes
-- it and ends the program.
unfoldable pub log_write : (current level : LogLevel) → Written
unfolding rank level_str write_line
log_write current level =
    if ltb (rank level) (rank current) then silent else write_line level (level_str level)
