-- ===== src/Log.antt =====
-- src/log.c: the log goes to the system, to a file or to the standard error. A file that was opened
-- goes by its number; `fopen` succeeds or not by an argument.
pub mod Rotation
mod Tests
use brubeck.Prelude.{
  ℕ, suc, List, [], ◌∷◌, ◌++◌, Option, none, some, Bool, true, false, if◌then◌else◌, codes, text_eq,
}

-- Where a message is written.
pub data Target : Type 0 where
  to_syslog to_stderr : Target
  to_file : ℕ → Target

-- `gh_log_path`, `gh_log_file` and `gh_syslog_enabled`, with the number of files that were opened so
-- far, those that were closed, and what was written where.
pub record Log : Type 0 where
  pub path : Option (List ℕ)
  pub file : Option ℕ
  pub syslog : Bool
  pub opened : ℕ
  pub closed : List ℕ
  pub written : List (Target × List ℕ)

abbrev pub closes : Option ℕ → List ℕ → List ℕ
closes none closed = closed
closes (some file) closed = closed ++ (file ∷ [])

unfoldable pub log_open : Option (List ℕ) → Bool → Log → Log
log_open none opens l = record l { syslog = false; file = none }
log_open (some path) opens l =
    if text_eq path (codes "syslog")
    then record l { syslog = true }
    else if opens
    then record l {
      path = some path;
      file = some l.opened;
      syslog = false;
      opened = suc l.opened;
      closed = closes l.file l.closed;
    }
    else l

unfoldable pub log_reopen : Bool → Log → Log
unfolding log_open
log_reopen opens l = elim l.path [ none ↦ l | some path ↦ log_open (some path) opens l ]

abbrev pub file_target : Option ℕ → Target
file_target none = to_stderr
file_target (some file) = to_file file

abbrev pub target : Log → Target
target l = if l.syslog then to_syslog else file_target l.file

unfoldable pub log_write : List ℕ → Log → Log
log_write message l = record l { written = l.written ++ ((target l, message) ∷ []) }

-- Before `main` opens it.
abbrev pub start : Log
start = record { path = none; file = none; syslog = false; opened = 0; closed = []; written = [] }
