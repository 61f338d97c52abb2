-- ===== src/Contracts/PayoutTable.antt =====
-- The payout rows of a completed contract: SavePayouts, MarkPayoutPosted, RequestPayoutRepost and
-- MarkPayoutsPaid of postgres_payouts.go.
use spacecraft_corporation.Prelude.{
  ℕ, String, Bool, true, not, ◌&&◌, ◌||◌, some, List, [], ◌∷◌, ltb, ◌==◌, if◌then◌else◌, str_eq,
}
use spacecraft_corporation.Prelude.Rows.{update_where, exists}
use spacecraft_corporation.Prelude.Tx.{Tx, ok, check, write, pure, ◌>>◌}
use spacecraft_corporation.Contracts.Model.{is_completed, Error, Contract, PayoutRow, Db}
use spacecraft_corporation.Contracts.Guards.{null_if_empty, set_contract, enqueue_payout}
use spacecraft_corporation.Contracts.Create.{is_amount}
use spacecraft_corporation.Contracts.Items.{is_some}
use spacecraft_corporation.Contracts.Members.{is_rewarded}

-- One computed payout, with the id that uuidv7 gives its row.
pub record Payout : Type 0 where
  pub row_id : ℕ
  pub user_id : String
  pub user_name : String
  pub amount : ℕ
  pub share_percent : ℕ

abbrev pub payout_row : ℕ → ℕ → Payout → PayoutRow
payout_row cid now p = record {
  id = p.row_id;
  contracts_id = cid;
  user_id = p.user_id;
  user_name = p.user_name;
  amount = p.amount;
  share_percent = p.share_percent;
  created_at = now;
}

abbrev pub payout_of : ℕ → String → PayoutRow → Bool
payout_of cid user p = (p.contracts_id == cid) && str_eq p.user_id user

-- INSERT … ON CONFLICT (contracts_id, user_id) DO NOTHING: rows that are there win.
unfoldable pub insert_payout : ℕ → ℕ → Payout → Db → Db
insert_payout cid now p db =
    if exists (payout_of cid p.user_id) db.payouts
    then db
    else record db { payouts = payout_row cid now p ∷ db.payouts }

-- The column types and checks, which also hold a row that is not inserted; and for one that is, the
-- primary key and the reference to the contract.
unfoldable pub payout_row_ok : ℕ → Payout → Db → Bool
payout_row_ok cid p db =
    is_amount p.amount
    && ltb p.share_percent 100000001
    && (exists (payout_of cid p.user_id) db.payouts
        || (not (exists (λ (q : PayoutRow). q.id == p.row_id) db.payouts)
            && exists (λ (c : Contract). c.id == cid) db.contracts))

unfoldable pub insert_payouts : (cid now : ℕ) → List Payout → Tx Error Db Unit
insert_payouts cid now [] = pure tt
insert_payouts cid now (p ∷ ps) = do
  check (payout_row_ok cid p) Error.constraint
  write (insert_payout cid now p)
  insert_payouts cid now ps

-- The precision is stamped once: WHERE payout_decimals IS NULL.
abbrev pub stamp_decimals : ℕ → Contract → Contract
stamp_decimals decimals c =
    if is_some c.payout_decimals then c else record c { payout_decimals = some decimals }

-- The SMALLINT argument, and CHECK (payout_decimals <= 2) where there is a row to stamp.
unfoldable pub decimals_ok : (cid decimals : ℕ) → Db → Bool
decimals_ok cid decimals db =
    ltb decimals 32768
    && (ltb decimals 3
        || not (
            exists (λ (c : Contract). (c.id == cid) && not (is_some c.payout_decimals))
              db.contracts))

unfoldable pub save_payouts : (cid : ℕ) (ps : List Payout) (decimals now : ℕ) → Tx Error Db Unit
save_payouts cid ps decimals now = do
  insert_payouts cid now ps
  check (decimals_ok cid decimals) Error.constraint
  write (set_contract cid (stamp_decimals decimals))
  pure tt

unfoldable pub mark_payout_posted :
    (cid : ℕ) (channel message : String) (now : ℕ) → Tx Error Db Unit
mark_payout_posted cid channel message now = do
  write (
      set_contract cid (λ c. record c {
        payout_posted_at = some now;
        report_channel_id = null_if_empty channel;
        report_message_id = null_if_empty message;
        updated_at = now;
      }))
  pure tt

abbrev pub is_payable : ℕ → ℕ → Contract → Bool
is_payable server cid c =
    (c.id == cid) && (c.servers_id == server) && is_completed c.status && is_rewarded c

-- The new request is enqueued with its repost flag.
unfoldable pub request_payout_repost : (server cid : ℕ) → Tx Error Db Unit
request_payout_repost server cid = do
  check (λ db. exists (is_payable server cid) db.contracts) Error.not_found
  write (enqueue_payout cid true)
  pure tt

-- The WHERE clause is the guard: the contract is completed and not yet marked.
abbrev pub may_pay : ℕ → ℕ → Contract → Bool
may_pay server cid c =
    (c.id == cid)
    && (c.servers_id == server)
    && is_completed c.status
    && not (is_some c.payouts_paid_at)

abbrev pub paid_by : String → ℕ → Contract → Contract
paid_by actor now c = record c {
  payouts_paid_at = some now;
  payouts_paid_by = some actor;
  updated_at = now;
  updated_by = actor;
}

-- RowsAffected() == 1
unfoldable pub mark_payouts_paid : (server cid : ℕ) (actor : String) (now : ℕ) → Tx Error Db Bool
mark_payouts_paid server cid actor now db = ok (
  exists (may_pay server cid) db.contracts,
  record db { contracts = update_where (may_pay server cid) (paid_by actor now) db.contracts },
)
