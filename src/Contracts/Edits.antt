-- ===== src/Contracts/Edits.antt =====
-- The console's edits of an open contract: UpdateDetails, SetDeadline, UpdateRewards and
-- SetDeliveryLocation of postgres.go.
use spacecraft_corporation.Prelude.{ℕ, String, ◌&&◌, Option, none, if◌then◌else◌, str_eq}
use spacecraft_corporation.Prelude.Tx.{Tx, reads, guard, write, pure, ◌>>=◌, ◌>>◌}
use spacecraft_corporation.Contracts.Model.{Error, Contract, Db}
use spacecraft_corporation.Contracts.Guards.{
  null_if_empty, lock_open_contract_by_id, set_contract, enqueue_refresh,
}
use spacecraft_corporation.Contracts.Items.{is_some, same_bool}
use spacecraft_corporation.Contracts.Create.{is_factor, rewards_ok}

-- An edit of an open contract, addressed by its id: the shape of UpdateDetails and SetDeadline.
unfoldable pub edit_open : (server cid now : ℕ) (f : Contract → Contract) → Tx Error Db Unit
edit_open server cid now f = do
  c ← reads (lock_open_contract_by_id server cid now)
  write (set_contract c.id f)
  write (enqueue_refresh c.id)
  pure tt

abbrev pub with_details : String → String → String → ℕ → Contract → Contract
with_details title description actor now c = record c {
  title = title;
  description = description;
  updated_at = now;
  updated_by = actor;
  last_refreshed_at = now;
}

unfoldable pub update_details :
    (server cid : ℕ) (title description actor : String) (now : ℕ) → Tx Error Db Unit
unfolding edit_open
update_details server cid title description actor now =
    edit_open server cid now (with_details title description actor now)

-- A new deadline arms the closing-soon notice again.
abbrev pub with_deadline : Option ℕ → String → ℕ → Contract → Contract
with_deadline deadline actor now c = record c {
  deadline = deadline;
  expiry_notified_at = none;
  updated_at = now;
  updated_by = actor;
  last_refreshed_at = now;
}

unfoldable pub set_deadline :
    (server cid : ℕ) (deadline : Option ℕ) (actor : String) (now : ℕ) → Tx Error Db Unit
unfolding edit_open
set_deadline server cid deadline actor now =
    edit_open server cid now (with_deadline deadline actor now)

abbrev pub with_rewards : Option ℕ → ℕ → Option ℕ → Option ℕ → String → ℕ → Contract → Contract
with_rewards credits factor reputation licence_points actor now c = record c {
  reward_credits = credits;
  reward_reputation = reputation;
  reward_licence_points = licence_points;
  participant_reward_factor = factor;
  updated_at = now;
  updated_by = actor;
  last_refreshed_at = now;
}

unfoldable pub update_rewards :
    (server cid : ℕ) (credits : Option ℕ) (factor : ℕ) (reputation licence_points : Option ℕ)
    → (actor : String) (now : ℕ) → Tx Error Db Unit
update_rewards server cid credits factor reputation licence_points actor now = do
  c ← reads (lock_open_contract_by_id server cid now)
  guard (is_factor factor && rewards_ok credits reputation licence_points) Error.constraint
  write (set_contract c.id (with_rewards credits factor reputation licence_points actor now))
  write (enqueue_refresh c.id)
  pure tt

abbrev pub with_location : String → String → String → ℕ → Contract → Contract
with_location gdid gd_version actor now c = record c {
  location_gdid = null_if_empty gdid;
  location_gd_version = null_if_empty gd_version;
  updated_at = now;
  updated_by = actor;
  last_refreshed_at = now;
}

unfoldable pub set_delivery_location :
    (server cid : ℕ) (gdid gd_version actor : String) (now : ℕ) → Tx Error Db Unit
set_delivery_location server cid gdid gd_version actor now = do
  c ← reads (lock_open_contract_by_id server cid now)
  let version = if str_eq gdid "" then "" else gd_version
  guard (same_bool (is_some (null_if_empty gdid)) (is_some (null_if_empty version)))
      Error.constraint
  write (set_contract c.id (with_location gdid version actor now))
  write (enqueue_refresh c.id)
  pure tt
