-- ===== src/Log/Rotation.antt =====
-- The log of src/log.c as the program uses it: opened once, then written to and, at each SIGHUP,
-- opened again.
use mathlib.Core.List.{append-nil, append_assoc}
use brubeck.Prelude.{
  ℕ, zero, suc, ◌≡◌, refl, ap, sym, ◌∙◌, List, [], ◌∷◌, ◌++◌, Option, none, some, Bool, true, false,
  codes, text_eq, if◌then◌else◌,
}
use brubeck.Log.{
  Target, to_syslog, to_stderr, to_file, Log, log_open, log_reopen, target, log_write, start,
}

-- A SIGHUP, at which the file can be opened or not, and a message.
pub data Event : Type 0 where
  reopen : Bool → Event
  write : List ℕ → Event

unfoldable pub log_run : List Event → Log → Log
unfolding log_reopen log_write
log_run [] l = l
log_run (reopen opens ∷ events) l = log_run events (log_reopen opens l)
log_run (write message ∷ events) l = log_run events (log_write message l)

-- The messages, all to one target.
abbrev pub all_to : Target → List Event → List (Target × List ℕ)
all_to t [] = []
all_to t (reopen opens ∷ events) = all_to t events
all_to t (write message ∷ events) = (t, message) ∷ all_to t events

-- The messages, each to the file that was opened last, from that one on.
abbrev pub in_files : ℕ → List Event → List (Target × List ℕ)
in_files file [] = []
in_files file (reopen opens ∷ events) = in_files (if opens then suc file else file) events
in_files file (write message ∷ events) = (to_file file, message) ∷ in_files file events

-- The file that is open at the end, and those before it.
abbrev pub last_file : ℕ → List Event → ℕ
last_file file [] = file
last_file file (reopen opens ∷ events) = last_file (if opens then suc file else file) events
last_file file (write message ∷ events) = last_file file events

abbrev pub below : ℕ → List ℕ
below zero = []
below (suc n) = below n ++ (n ∷ [])

-- The log while a file is open.
abbrev pub in_file : List ℕ → ℕ → List (Target × List ℕ) → Log
in_file path file written = record {
  path = some path;
  file = some file;
  syslog = false;
  opened = suc file;
  closed = below file;
  written = written;
}

append_cons :
    {A : Type 0} (xs : List A) (y : A) (zs : List A) → (xs ++ (y ∷ [])) ++ zs ≡ xs ++ (y ∷ zs)
append_cons xs y zs = append_assoc xs (y ∷ []) zs

run-in_file :
    (path : List ℕ) (file : ℕ) (written : List (Target × List ℕ)) (events : List Event)
    → text_eq path (codes "syslog") ≡ false
    → log_run events (in_file path file written)
      ≡ in_file path (last_file file events) (written ++ in_files file events)
unfolding log_run log_reopen log_open log_write
run-in_file path file written [] plain = ap (in_file path file) (sym (append-nil written))
run-in_file path file written (reopen true ∷ events) plain =
    rw plain (run-in_file path (suc file) written events plain)
run-in_file path file written (reopen false ∷ events) plain =
    rw plain (run-in_file path file written events plain)
run-in_file path file written (write message ∷ events) plain =
    run-in_file path file (written ++ ((to_file file, message) ∷ [])) events plain
    ∙ ap (in_file path (last_file file events))
        (append_cons written (to_file file, message) (in_files file events))

-- Without a path to open again, everything goes to one target.
run-no_path :
    (l : Log) (events : List Event)
    → log_run events (record l { path = none })
      ≡ record l { path = none; written = l.written ++ all_to (target l) events }
unfolding log_run log_reopen log_write
run-no_path l [] =
    ap (λ (w : List (Target × List ℕ)). record l { path = none; written = w })
      (sym (append-nil l.written))
run-no_path l (reopen opens ∷ events) = run-no_path l events
run-no_path l (write message ∷ events) =
    run-no_path (record l { written = l.written ++ ((target l, message) ∷ []) }) events
    ∙ ap (λ (w : List (Target × List ℕ)). record l { path = none; written = w })
        (append_cons l.written (target l, message) (all_to (target l) events))

-- What becomes of the log by the path that it is opened with.
abbrev pub Logs : Option (List ℕ) → Bool → List Event → Log → Type 0
Logs none opens events l = l ≡ record start { written = all_to to_stderr events }
Logs (some path) opens events l =
    if text_eq path (codes "syslog")
    then (l ≡ record start { syslog = true; written = all_to to_syslog events })
    else if opens
    then (l ≡ in_file path (last_file 0 events) (in_files 0 events))
    else (l ≡ record start { written = all_to to_stderr events })

-- Once opened, in whatever order messages and signals come: without a path, or if the file cannot be
-- opened then, every message goes to the standard error and no file is opened later; with the path
-- "syslog" every message goes to the system; else every message goes to the file that was opened last,
-- which a signal replaces if it can be opened again, and every file but the last is closed, each once.
pub log_run-Logs :
    (path : Option (List ℕ)) (opens : Bool) (events : List Event)
    → Logs path opens events (log_run events (log_open path opens start))
unfolding log_open
log_run-Logs none opens events = run-no_path start events
log_run-Logs (some path) opens events = by_path (text_eq path (codes "syslog")) refl opens
  where
    by_path :
        (system : Bool)
        → text_eq path (codes "syslog") ≡ system
        → (opens : Bool)
        → Logs (some path) opens events (log_run events (log_open (some path) opens start))
    by_path true e opens = rw e (run-no_path (record start { syslog = true }) events)
    by_path false e true = rw e (run-in_file path 0 [] events e)
    by_path false e false = rw e (run-no_path start events)
