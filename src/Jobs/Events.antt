-- ===== src/Jobs/Events.antt =====
-- The event log of src/formshift_server/jobs.py, and the stream of src/formshift_server/app.py
-- that reads it: `since` from a cursor, which then moves behind the last event that was read.
use mathlib.Core.List.{append_assoc, append-nil, foldl}
use formshift_server.Prelude.{
  ℕ, zero, suc, ◌+◌, ◌≤◌, List, [], ◌∷◌, ◌++◌, ◌≡◌, refl, sym, ap, ◌∙◌, length, drop, length-append,
  arith,
}
use formshift_server.Jobs.{Event, EventBody, EventLog, append, since}

-- The events are numbered from `n` on.
abbrev pub IsNumbered : ℕ → List Event → Type 0
IsNumbered n [] = Unit
IsNumbered n (e ∷ es) = (e.index ≡ n) × IsNumbered (suc n) es

IsNumbered-append :
    (n : ℕ) (xs ys : List Event)
    → IsNumbered n xs
    → IsNumbered (n + length xs) ys
    → IsNumbered n (xs ++ ys)
IsNumbered-append n [] ys hx hy = let e : n + 0 ≡ n = omega arith in rw e at hy
IsNumbered-append n (x ∷ xs) ys hx hy =
    let e : n + suc (length xs) ≡ suc n + length xs = omega arith in
    (hx.0, IsNumbered-append (suc n) xs ys hx.1 (rw e at hy))

append-IsNumbered :
    (log : EventLog) (body : EventBody) → IsNumbered 0 log → IsNumbered 0 (append log body)
unfolding append
append-IsNumbered log body h = IsNumbered-append 0 log _ h (omega arith, tt)

abbrev pub append_all : EventLog → List EventBody → EventLog
append_all log bodies = foldl append log bodies

-- `cursor = fresh[-1].index + 1` where something was read.
unfoldable pub next_cursor : ℕ → List Event → ℕ
next_cursor cursor [] = cursor
next_cursor cursor (e ∷ es) = next_cursor (suc e.index) es

-- The stream over a log that grows by one batch of events before each poll: what it yields.
unfoldable pub stream : ℕ → EventLog → List (List EventBody) → List Event
unfolding next_cursor since
stream cursor log [] = []
stream cursor log (batch ∷ batches) =
    let log' = append_all log batch in
    let fresh = since log' cursor in fresh ++ stream (next_cursor cursor fresh) log' batches

-- The log after all batches.
abbrev pub grown : EventLog → List (List EventBody) → EventLog
grown log [] = log
grown log (batch ∷ batches) = grown (append_all log batch) batches

append_all-IsNumbered :
    (log : EventLog) (bodies : List EventBody)
    → IsNumbered 0 log
    → IsNumbered 0 (append_all log bodies)
append_all-IsNumbered log [] h = h
append_all-IsNumbered log (b ∷ bodies) h =
    append_all-IsNumbered (append log b) bodies (append-IsNumbered log b h)

append_all-split :
    (log : EventLog) (bodies : List EventBody)
    → (new : List Event) × (append_all log bodies ≡ log ++ new)
unfolding append
append_all-split log [] = ([], sym (append-nil log))
append_all-split log (b ∷ bodies) =
    let e : Event = record { index = length log; body = b } in
    let (new, split) = append_all-split (append log b) bodies in
    (e ∷ new, split ∙ append_assoc log (e ∷ []) new)

drop-length-append : (xs ys : List Event) → drop (length xs) (xs ++ ys) ≡ ys
drop-length-append [] ys = refl
drop-length-append (x ∷ xs) ys = drop-length-append xs ys

drop-IsNumbered :
    (n k : ℕ) (xs : List Event) → IsNumbered n xs → k ≤ length xs → IsNumbered (n + k) (drop k xs)
drop-IsNumbered n zero xs h fits = let e : n + 0 ≡ n = omega arith in rw e h
drop-IsNumbered n (suc k) [] h fits = absurd (omega arith)
drop-IsNumbered n (suc k) (x ∷ xs) h fits =
    let e : n + suc k ≡ suc n + k = omega arith in
    rw e (drop-IsNumbered (suc n) k xs h.1 (omega arith))

next_cursor_lem : (n : ℕ) (es : List Event) → IsNumbered n es → next_cursor n es ≡ n + length es
unfolding next_cursor
next_cursor_lem n [] h = omega arith
next_cursor_lem n (e ∷ es) h =
    let first : e.index ≡ n = h.0 in rw first (omega (arith, next_cursor_lem (suc n) es h.1))

-- From a cursor at the end of the log the stream yields what is appended later.
stream-rest :
    (log : EventLog) (batches : List (List EventBody))
    → IsNumbered 0 log
    → log ++ stream (length log) log batches ≡ grown log batches
unfolding stream since
stream-rest log [] h = append-nil log
stream-rest log (batch ∷ batches) h =
    let log' = append_all log batch in
    let (new, split) = append_all-split log batch in
    let fresh : drop (length log) log' ≡ new =
      ap (drop (length log)) split ∙ drop-length-append log new in
    let numbered = append_all-IsNumbered log batch h in
    let total : length log' ≡ length log + length new = ap length split ∙ length-append log new in
    let later : IsNumbered (0 + length log) (drop (length log) log') =
      drop-IsNumbered 0 (length log) log' numbered (omega arith) in
    let start : 0 + length log ≡ length log = omega arith in
    let cursor : next_cursor (length log) new ≡ length log' =
      next_cursor_lem (length log) new (rw (start, fresh) at later) ∙ sym total in
    rw (fresh, cursor)
      (sym (append_assoc log new _)
        ∙ ap (λ l. l ++ stream (length log') log' batches) (sym split)
        ∙ stream-rest log' batches numbered)

-- A client that reads the event stream from the start gets every event of the log once, in order,
-- however the appends fall between the polls.
pub stream-eq-log :
    (log : EventLog) (batch : List EventBody) (batches : List (List EventBody))
    → IsNumbered 0 log
    → stream 0 log (batch ∷ batches) ≡ grown log (batch ∷ batches)
unfolding stream since
stream-eq-log log batch batches h =
    let log' = append_all log batch in
    let numbered = append_all-IsNumbered log batch h in
    let cursor : next_cursor 0 log' ≡ length log' = next_cursor_lem 0 log' numbered ∙ omega arith in
    rw cursor (stream-rest log' batches numbered)

-- In a log that grew from the empty one, the index of each event is its position.
pub grown-IsNumbered : (batches : List (List EventBody)) → IsNumbered 0 (grown [] batches)
grown-IsNumbered = go [] tt
  where
    go :
        (log : EventLog)
        → IsNumbered 0 log
        → (batches : List (List EventBody)) → IsNumbered 0 (grown log batches)
    go log h [] = h
    go log h (b ∷ bs) = go (append_all log b) (append_all-IsNumbered log b h) bs
