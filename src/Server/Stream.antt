-- ===== src/Server/Stream.antt =====
-- The stream of internal/server/server.go: where it resumes, and what each wake-up sends.
use cribbager.Common.{
  Text, ℕ, ◌+◌, ◌≡◌, refl, ap, sym, ◌∙◌, List, [], ◌∷◌, ◌++◌, append-nil, Option, none, some,
  length, drop, length-append, ltb, if◌then◌else◌, arith,
}
use cribbager.Common.{true, false, drop-append}
use cribbager.Common.Int.{ℤ, pos, negsuc}
use cribbager.Game.Defs.{Seat, Event}
use cribbager.Server.Wire.{Delta, project_event, project_events}

-- A resume point clamped to zero.
unfoldable pub since_of : Option ℤ → ℕ
since_of none = 0
since_of (some (pos n)) = n
since_of (some (negsuc n)) = 0

-- `resumeFrom`, with `strconv.Atoi` as a parameter: the header's text, where there is one, else the query's.
unfoldable pub resume_from : (Text → Option ℤ) → Text → Text → ℕ
unfolding since_of
resume_from atoi [] query = since_of (atoi query)
resume_from atoi (a ∷ header) query = since_of (atoi (a ∷ header))

-- The events of one `send`: the deltas after the cursor, and the new cursor.
unfoldable pub send_events : Seat → ℕ → List Event → List Delta × ℕ
send_events viewer last events =
    let at : ℕ = if ltb (length events) last then length events else last in
    if ltb at (length events)
    then (project_events viewer (drop at events) at, length events)
    else ([], at)

-- The sends of a stream, each with the log as it stands then.
unfoldable pub run_stream : Seat → ℕ → List (List Event) → List Delta
run_stream viewer last [] = []
run_stream viewer last (log ∷ logs) =
    let (deltas, next) = send_events viewer last log in deltas ++ run_stream viewer next logs

-- The logs of a game that has `seen` at first and gains events before each send.
abbrev pub logs_from : List Event → List (List Event) → List (List Event)
logs_from seen [] = []
logs_from seen (more ∷ mores) = (seen ++ more) ∷ logs_from (seen ++ more) mores

abbrev pub all_of : List (List Event) → List Event
all_of [] = []
all_of (more ∷ mores) = more ++ all_of mores

pub project_events-append :
    (viewer : Seat) (xs ys : List Event) (base : ℕ)
    → project_events viewer (xs ++ ys) base
      ≡ project_events viewer xs base ++ project_events viewer ys (base + length xs)
unfolding project_events
project_events-append viewer [] ys base = ap (project_events viewer ys) (omega arith)
project_events-append viewer (x ∷ xs) ys base =
    ap (λ ds. project_event viewer x (base + 1) ∷ ds)
      (project_events-append viewer xs ys (base + 1)
        ∙ ap (λ n. project_events viewer xs (base + 1) ++ project_events viewer ys n) (omega arith))

not_below : (n : ℕ) → ltb n n ≡ false
not_below n = ground arith

-- A send to a client that has seen a part of the log.
send_events-append :
    (viewer : Seat) (seen more : List Event)
    → send_events viewer (length seen) (seen ++ more)
      ≡ (project_events viewer more (length seen), length (seen ++ more))
unfolding send_events project_events
send_events-append viewer seen [] =
    let e : length (seen ++ []) ≡ length seen = ap length (append-nil seen) in
    rw (e, not_below (length seen), not_below (length seen)) refl
send_events-append viewer seen (x ∷ more) = rw (ahead, behind, drop-append seen (x ∷ more)) refl
  where
    ahead : ltb (length (seen ++ x ∷ more)) (length seen) ≡ false
    ahead = ground (arith, length-append seen (x ∷ more))

    behind : ltb (length seen) (length (seen ++ x ∷ more)) ≡ true
    behind = ground (arith, length-append seen (x ∷ more))

-- A stream that starts after a prefix of the log, of any game that grows between the sends by any
-- events: the deltas are those of each later event, once, in order, with its own number, however
-- the sends fall.
pub run_stream-once :
    (viewer : Seat) (seen : List Event) (mores : List (List Event))
    → run_stream viewer (length seen) (logs_from seen mores)
      ≡ project_events viewer (all_of mores) (length seen)
unfolding run_stream project_events
run_stream-once viewer seen [] = refl
run_stream-once viewer seen (more ∷ mores) =
    rw
      (
        send_events-append viewer seen more,
        run_stream-once viewer (seen ++ more) mores,
        length-append seen more,
      )
      (sym (project_events-append viewer more (all_of mores) (length seen)))
