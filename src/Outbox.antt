-- ===== src/Outbox.antt =====
-- The transactional outbox of internal/outbox: the rows of outbox_tasks, the statements of
-- postgres.go, and the worker of worker.go. A time is a number of seconds, a UUID a number.
pub mod Batch
pub mod Retry
pub mod Left
pub mod Due
pub mod Executed
pub mod Tries
mod Tests
use spacecraft_corporation.Prelude.{
  ℕ, zero, suc, ◌+◌, ◌*◌, ◌-◌, String, Bool, true, false, not, ◌&&◌, ◌||◌, Option, none, some, List,
  [], ◌∷◌, leb, ltb, ◌==◌, if◌then◌else◌, str_eq, text_append, take,
}
use spacecraft_corporation.Prelude.Rows.{select_all, update_where, delete_where}

pub data TaskStatus : Type 0 where
  pending done failed : TaskStatus

abbrev pub is_pending : TaskStatus → Bool
is_pending TaskStatus.pending = true
is_pending _ = false

abbrev is_done : TaskStatus → Bool
is_done TaskStatus.done = true
is_done _ = false

abbrev is_failed : TaskStatus → Bool
is_failed TaskStatus.failed = true
is_failed _ = false

-- A row of `outbox_tasks`.
pub record Row : Type 0 where
  pub id : ℕ
  pub kind : String
  pub version : ℕ
  pub payload : String
  pub chronometric_id : Option ℕ
  pub status : TaskStatus
  pub attempts : ℕ
  pub last_error : String
  pub next_try_at : ℕ
  pub created_at : ℕ
  pub updated_at : ℕ
  pub evacuated_at : Option ℕ

pub record Config : Type 0 where
  pub batch_size : ℕ
  pub max_attempts : ℕ
  pub done_retention : ℕ
  pub failed_retention : ℕ

-- Request, its payload already marshalled.
pub record Request : Type 0 where
  pub kind : String
  pub version : ℕ
  pub payload : String
  pub chronometric_id : Option ℕ
  pub delay : ℕ

unfoldable pub enqueue : (id now : ℕ) → Request → List Row → List Row
enqueue id now req rows =
    record {
      id = id;
      kind = req.kind;
      version = if req.version == 0 then 1 else req.version;
      payload = req.payload;
      chronometric_id = req.chronometric_id;
      status = TaskStatus.pending;
      attempts = 0;
      last_error = "";
      next_try_at = now + req.delay;
      created_at = now;
      updated_at = now;
      evacuated_at = none;
    }
    ∷ rows

-- The second part of the group key: the chronometric id, or else the task's own.
abbrev group_id : Row → ℕ
group_id t = elim t.chronometric_id [ none ↦ t.id | some c ↦ c ]

-- Two tasks have the same group: `Kind|UUID`, and no two pairs print alike.
abbrev pub same_group : Row → Row → Bool
same_group a b = str_eq a.kind b.kind && (group_id a == group_id b)

insert_by_id : Row → List Row → List Row
insert_by_id t [] = t ∷ []
insert_by_id t (x ∷ xs) =
    let rest = insert_by_id t xs in if leb t.id x.id then t ∷ x ∷ xs else x ∷ rest

-- ORDER BY id
unfoldable pub order_by_id : List Row → List Row
unfolding insert_by_id
order_by_id [] = []
order_by_id (x ∷ xs) = insert_by_id x (order_by_id xs)

abbrev pub is_due : ℕ → Row → Bool
is_due now t = is_pending t.status && leb t.next_try_at now

unfoldable pub due : (now limit : ℕ) → List Row → List Row
unfolding order_by_id
due now limit rows = take limit (order_by_id (select_all (is_due now) rows))

abbrev pub has_id : ℕ → Row → Bool
has_id k t = t.id == k

abbrev pub finished : ℕ → Row → Row
finished now t = record t { status = TaskStatus.done; updated_at = now }

unfoldable pub mark_done : (now id : ℕ) → List Row → List Row
mark_done now id = update_where (has_id id) (finished now)

abbrev pub retried : (now attempts : ℕ) → String → ℕ → Row → Row
retried now attempts last_error next_try_at t = record t {
  status = TaskStatus.pending;
  attempts = attempts;
  last_error = last_error;
  next_try_at = next_try_at;
  updated_at = now;
}

unfoldable pub mark_retry : (now id attempts : ℕ) → String → ℕ → List Row → List Row
mark_retry now id attempts last_error next_try_at =
    update_where (has_id id) (retried now attempts last_error next_try_at)

abbrev pub abandoned : (now attempts : ℕ) → String → Row → Row
abandoned now attempts last_error t = record t {
  status = TaskStatus.failed;
  attempts = attempts;
  last_error = last_error;
  evacuated_at = some now;
  updated_at = now;
}

unfoldable pub mark_failed : (now id attempts : ℕ) → String → List Row → List Row
mark_failed now id attempts last_error =
    update_where (has_id id) (abandoned now attempts last_error)

unfoldable pub mark_superseded : (now id : ℕ) → List Row → List Row
mark_superseded now id = update_where (λ t. has_id id t && is_pending t.status) (finished now)

-- evacuated_at < cutoff, where NULL is below nothing.
abbrev before : Option ℕ → ℕ → Bool
before none cutoff = false
before (some e) cutoff = ltb e cutoff

abbrev is_stale : (done_cutoff failed_cutoff : ℕ) → Row → Bool
is_stale done_cutoff failed_cutoff t =
    (is_done t.status && ltb t.updated_at done_cutoff)
    || (is_failed t.status && before t.evacuated_at failed_cutoff)

unfoldable pub cleanup : Config → (now : ℕ) → List Row → List Row
cleanup cfg now = delete_where (is_stale (now - cfg.done_retention) (now - cfg.failed_retention))

abbrev pub backoff_base : ℕ
backoff_base = 10

abbrev pub backoff_max : ℕ
backoff_max = 3600

-- The rounds of the loop that are left, and the delay so far.
unfoldable pub backoff_loop : ℕ → ℕ → ℕ
backoff_loop zero d = if ltb backoff_max d then backoff_max else d
backoff_loop (suc n) d =
    let rest = backoff_loop n (d * 2) in if leb backoff_max (d * 2) then backoff_max else rest

unfoldable pub backoff : ℕ → ℕ
unfolding backoff_loop
backoff attempts = backoff_loop (attempts - 1) backoff_base

-- What a handler does, as far as the worker sees it.
pub data Outcome : Type 0 where
  success : Outcome
  failure : (permanent : Bool) → String → Outcome
  panic : String → Outcome

-- runHandler: the error that it returns, with whether it is permanent. A panic is an error that may
-- be retried.
unfoldable pub run_handler : (Row → Outcome) → Row → Option (Bool × String)
run_handler h t = elim (h t) [
  | success ↦ none
  | failure permanent msg ↦ some (permanent, msg)
  | panic msg ↦ some (false, msg)
]

unfoldable pub settle : Config → (now : ℕ) → Row → Option (Bool × String) → List Row → List Row
unfolding mark_done mark_retry mark_failed backoff
settle cfg now t none rows = mark_done now t.id rows
settle cfg now t (some (permanent, msg)) rows =
    if permanent || leb cfg.max_attempts (t.attempts + 1)
    then mark_failed now t.id (t.attempts + 1) msg rows
    else mark_retry now t.id (t.attempts + 1) msg (now + backoff (t.attempts + 1)) rows

-- A registered handler runs; a task without one is abandoned.
unfoldable pub execute :
    Config → (String → Option (Row → Outcome)) → (now : ℕ) → Row → List Row → List Row
unfolding settle run_handler mark_failed text_append
execute cfg handlers now t rows = elim (handlers t.kind) [
  | none ↦ mark_failed now t.id t.attempts (text_append "no handler for kind " t.kind) rows
  | some h ↦ settle cfg now t (run_handler h t) rows
]

-- newest[d.group()] = d.ID, over the tasks in order: the last one of a group stays.
unfoldable pub newest : List Row → Row → Option ℕ
newest [] t = none
newest (d ∷ ds) t =
    let later = newest ds t in
    elim later [ none ↦ if same_group d t then some d.id else none | some k ↦ some k ]

abbrev pub is_newest : List Row → Row → Bool
is_newest all t = elim (newest all t) [ none ↦ false | some k ↦ k == t.id ]

-- The loop over the due tasks, with the tasks that it executed. `clock` is the time that is read
-- for a task, `stopped` whether the context has ended before it.
unfoldable pub batch_loop :
    Config
    → (String → Option (Row → Outcome))
    → (clock : ℕ → ℕ) (stopped : ℕ → Bool) (all : List Row) → List Row
    → List Row
    → List Row × List Row
unfolding execute mark_superseded
batch_loop cfg handlers clock stopped all [] rows = (rows, [])
batch_loop cfg handlers clock stopped all (d ∷ ds) rows =
    let skipped =
      batch_loop cfg handlers clock stopped all ds (mark_superseded (clock d.id) d.id rows) in
    let ran =
      batch_loop cfg handlers clock stopped all ds (execute cfg handlers (clock d.id) d rows) in
    if stopped d.id
    then (rows, [])
    else if not (is_newest all d)
    then skipped
    else (ran.0, d ∷ ran.1)

unfoldable pub process_batch :
    Config
    → (String → Option (Row → Outcome))
    → (clock : ℕ → ℕ) (stopped : ℕ → Bool) (now : ℕ) → List Row
    → List Row × List Row
unfolding batch_loop due
process_batch cfg handlers clock stopped now rows =
    let tasks = due now cfg.batch_size rows in
    batch_loop cfg handlers clock stopped tasks tasks rows

-- The loop of the worker picks a tick at a time; the features enqueue between them.
pub data Step : Type 0 where
  enqueued : (id now : ℕ) → Request → Step
  polled : (clock : ℕ → ℕ) (stopped : ℕ → Bool) (now : ℕ) → Step
  cleaned : (now : ℕ) → Step

unfoldable pub step : Config → (String → Option (Row → Outcome)) → Step → List Row → List Row
unfolding enqueue process_batch cleanup
step cfg handlers (Step.enqueued id now req) rows = enqueue id now req rows
step cfg handlers (Step.polled clock stopped now) rows =
    (process_batch cfg handlers clock stopped now rows).0
step cfg handlers (Step.cleaned now) rows = cleanup cfg now rows

unfoldable pub run : Config → (String → Option (Row → Outcome)) → List Step → List Row → List Row
unfolding step
run cfg handlers [] rows = rows
run cfg handlers (s ∷ ss) rows = run cfg handlers ss (step cfg handlers s rows)
