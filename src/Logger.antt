-- ===== src/Logger.antt =====
-- statsgod/logger.go: the four loggers. A `log.Logger` is where it writes, its prefix and its flags.
use statsgod.Prelude.{◌+◌, codes, Bytes, ℕ}

-- os.Stdout, os.Stderr or ioutil.Discard.
pub data Handle : Type 0 where
  stdout stderr discard : Handle

pub record LogLogger : Type 0 where
  pub handle : Handle
  pub prefix : Bytes
  pub flags : ℕ

pub record Logger : Type 0 where
  pub trace : LogLogger
  pub info : LogLogger
  pub warning : LogLogger
  pub error : LogLogger

-- log.Ldate|log.Ltime|log.Lshortfile
abbrev log_flags : ℕ
log_flags = 1 + 2 + 16

unfoldable pub create_logger : Handle → Handle → Handle → Handle → Logger
create_logger trace_handle info_handle warning_handle error_handle = record {
  trace = record { handle = trace_handle; prefix = codes "TRACE: "; flags = log_flags };
  info = record { handle = info_handle; prefix = codes "INFO: "; flags = log_flags };
  warning = record { handle = warning_handle; prefix = codes "WARNING: "; flags = log_flags };
  error = record { handle = error_handle; prefix = codes "ERROR: "; flags = log_flags };
}
