-- ===== src/Bases/History.antt =====
-- Every method of the repository that changes the tables as one call, and a history of calls.
use spacecraft_corporation.Prelude.{ℕ, String, List, [], ◌∷◌}
use spacecraft_corporation.Prelude.Tx.{commit}
use spacecraft_corporation.Bases
use spacecraft_corporation.Bases.{Db, Ownership, RegisterInput, Table}

pub data Call : Type 0 where
  register : RegisterInput → (limit id now : ℕ) → Call
  delete_one : Ownership → (base now : ℕ) → Call
  delete_all : Ownership → (now : ℕ) → Call
  add : Table → Ownership → (base : ℕ) (value : String) (limit id now : ℕ) → Call
  remove : Table → Ownership → (id : ℕ) → Call

-- The tables after one call, whatever it returned.
unfoldable pub apply : Call → Db → Db
apply (Call.register inp limit id now) db = (commit (Bases.register inp limit id now) db).1
apply (Call.delete_one o base now) db = (commit (Bases.delete_one o base now) db).1
apply (Call.delete_all o now) db = (commit (Bases.delete_all o now) db).1
apply (Call.add t o base value limit id now) db =
    (commit (Bases.add_equipment t o base value limit id now) db).1
apply (Call.remove t o id) db = (commit (Bases.remove_equipment t o id) db).1

unfoldable pub run : List Call → Db → Db
unfolding apply
run [] db = db
run (c ∷ cs) db = run cs (apply c db)
