-- ===== src/Contracts/Sweep.antt =====
-- One tick of the sweeper: DueContracts and NotifyDue of postgres.go, and the two passes of `sweep`
-- in sweeper.go.
pub mod Expire
use spacecraft_corporation.Prelude.{
  ℕ, ◌+◌, Bool, true, false, not, ◌&&◌, Option, none, some, List, [], ◌∷◌, leb, ltb, if◌then◌else◌,
  take,
}
use spacecraft_corporation.Prelude.Rows.{select_all}
use spacecraft_corporation.Prelude.Tx.{commit}
use spacecraft_corporation.Contracts.Model.{is_open, Contract, Db}
use spacecraft_corporation.Contracts.Items.{is_some}
use spacecraft_corporation.Contracts.Lifecycle.{
  is_due, has_participant, mark_expired, mark_notified,
}

-- The scans select rows that have a deadline.
deadline_of : Contract → ℕ
deadline_of c = elim c.deadline [ none ↦ 0 | some d ↦ d ]

insert_by_deadline : Contract → List Contract → List Contract
unfolding deadline_of
insert_by_deadline c [] = c ∷ []
insert_by_deadline c (x ∷ xs) =
    let rest = insert_by_deadline c xs in
    if leb (deadline_of c) (deadline_of x) then c ∷ x ∷ xs else x ∷ rest

-- ORDER BY deadline
unfoldable pub order_by_deadline : List Contract → List Contract
unfolding insert_by_deadline
order_by_deadline [] = []
order_by_deadline (c ∷ cs) = insert_by_deadline c (order_by_deadline cs)

abbrev pub ids_of : List Contract → List ℕ
ids_of [] = []
ids_of (c ∷ cs) = c.id ∷ ids_of cs

unfoldable pub due_contracts : (now limit : ℕ) → Db → List ℕ
unfolding order_by_deadline
due_contracts now limit db =
    take limit (ids_of (order_by_deadline (select_all (is_due now) db.contracts)))

abbrev is_within : Option ℕ → (now until : ℕ) → Bool
is_within none now until = false
is_within (some d) now until = ltb now d && leb d until

abbrev is_soon : (now until : ℕ) → Db → Contract → Bool
is_soon now until db c =
    is_open c.status
    && not (is_some c.expiry_notified_at)
    && is_within c.deadline now until
    && has_participant c.id db

unfoldable pub notify_due : (now within limit : ℕ) → Db → List ℕ
unfolding order_by_deadline
notify_due now within limit db =
    take limit
      (ids_of (order_by_deadline (select_all (is_soon now (now + within) db) db.contracts)))

-- `clock` is the time that is read for a contract; an error of one contract is logged and the pass
-- goes on.
unfoldable pub expire_all : (clock : ℕ → ℕ) → List ℕ → Db → Db
expire_all clock [] db = db
expire_all clock (id ∷ ids) db = expire_all clock ids (commit (mark_expired id (clock id)) db).1

unfoldable pub notify_all : (clock : ℕ → ℕ) → List ℕ → Db → Db
notify_all clock [] db = db
notify_all clock (id ∷ ids) db = notify_all clock ids (commit (mark_notified id (clock id)) db).1

abbrev pub sweep_batch : ℕ
sweep_batch = 100

unfoldable pub sweep : (expire_clock notify_clock : ℕ → ℕ) (now within : ℕ) → Db → Db
unfolding expire_all notify_all due_contracts notify_due
sweep expire_clock notify_clock now within db =
    let swept = expire_all expire_clock (due_contracts now sweep_batch db) db in
    notify_all notify_clock (notify_due now within sweep_batch swept) swept
