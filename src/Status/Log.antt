-- ===== src/Status/Log.antt =====
-- The rolling log.
use hawkular_openshift_agent.Base.{
  Str, codes, ℕ, suc, ◌≤◌, ◌≡◌, refl, sym, ◌∙◌, List, [], ◌∷◌, ◌++◌, map, length, length-append,
  drop, append_assoc, append-nil, arith,
}
use hawkular_openshift_agent.Status.{StatusReport, add_log_message, shift}

-- Messages with their times, in the order in which they were logged.
pub add_log_messages : StatusReport → List (Str × Str) → StatusReport
add_log_messages s [] = s
add_log_messages s ((now, m) ∷ ms) = add_log_messages (add_log_message now s m) ms

abbrev pub line : Str × Str → Str
line (now, m) = now ++ (codes ": " ++ m)

length-shift : (log : List Str) (l : Str) → length (shift log l) ≡ length log
unfolding shift
length-shift [] l = refl
length-shift (x ∷ xs) l = omega (arith, length-append xs (l ∷ []))

length-add : (now m : Str) (s : StatusReport) → length (add_log_message now s m).log ≡ length s.log
unfolding add_log_message
length-add now m s = ground (arith, length-shift s.log (line (now, m)))

-- The log never grows and never shrinks.
pub length-log :
    (s : StatusReport) (ms : List (Str × Str)) → length (add_log_messages s ms).log ≡ length s.log
unfolding add_log_messages
length-log s [] = refl
length-log s ((now, m) ∷ ms) = length-log (add_log_message now s m) ms ∙ length-add now m s

drop-shift :
    (log rest : List Str) (l : Str) (n : ℕ)
    → 1 ≤ length log
    → drop n (shift log l ++ rest) ≡ drop (suc n) (log ++ l ∷ rest)
unfolding shift
drop-shift [] rest l n h = absurd (omega arith)
drop-shift (x ∷ xs) rest l n h = rw (append_assoc xs (l ∷ []) rest)

add-shift :
    (now m : Str) (s : StatusReport)
    → 2 ≤ length s.log
    → (add_log_message now s m).log ≡ shift s.log (line (now, m))
unfolding add_log_message
add-shift now m s h = ground arith

-- A log of two lines or more holds the latest lines, as many as it has room for, oldest first:
-- after any messages it is the old log with the new lines behind it, less as many lines at the
-- front as there are messages.
pub log_rolls :
    (s : StatusReport) (ms : List (Str × Str))
    → 2 ≤ length s.log
    → (add_log_messages s ms).log ≡ drop (length ms) (s.log ++ map line ms)
unfolding add_log_messages
log_rolls s [] h = sym (append-nil s.log)
log_rolls s ((now, m) ∷ ms) h =
    log_rolls (add_log_message now s m) ms (omega (arith, length-add now m s))
    ∙ (rw (add-shift now m s h)
        (drop-shift s.log (map line ms) (line (now, m)) (length ms) (omega arith)))

-- A log of one line never holds a message: it stays as it was.
pub log_of_one :
    (s : StatusReport) (ms : List (Str × Str))
    → length s.log ≡ 1
    → (add_log_messages s ms).log ≡ s.log
unfolding add_log_messages
log_of_one s [] h = refl
log_of_one s ((now, m) ∷ ms) h =
    log_of_one (add_log_message now s m) ms (length-add now m s ∙ h) ∙ ignored now m s h
  where
    ignored :
        (now m : Str) (s : StatusReport) → length s.log ≡ 1 → (add_log_message now s m).log ≡ s.log
    ignored now m s h = unfold add_log_message in ground arith
