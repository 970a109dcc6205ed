-- ===== src/Log/Tests.antt =====
-- A log file that is rotated twice, the second time in vain.
use brubeck.Prelude.{◌≡◌, refl, List, [], ◌∷◌, some, true, false, codes}
use brubeck.Log.{to_file, Log, log_open, start}
use brubeck.Log.Rotation.{Event, reopen, write, log_run, Logs, log_run-Logs}

abbrev events : List Event
events = write (codes "a") ∷ reopen true ∷ write (codes "b") ∷ reopen false ∷ write (codes "c") ∷ []

abbrev log : Log
log = log_run events (log_open (some (codes "brubeck.log")) true start)

rotated :
    (log.written ≡ (to_file 0, codes "a") ∷ (to_file 1, codes "b") ∷ (to_file 1, codes "c") ∷ [])
    × (log.closed ≡ 0 ∷ [])
unfolding log_run log_open
rotated = (refl, refl)

log_run-Logs_example : Logs (some (codes "brubeck.log")) true events log
log_run-Logs_example = log_run-Logs (some (codes "brubeck.log")) true events
