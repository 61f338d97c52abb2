-- ===== src/Supply/Announced.antt =====
-- What ties each supply request to the outbox, and what its columns say of one another.
use spacecraft_corporation.Prelude.{
  ℕ, ◌≡◌, refl, Bool, true, false, not, ◌&&◌, List, ◌∷◌, arith, ◌==◌, All,
}
use spacecraft_corporation.Prelude.Rows.{
  IsKeyed, exists, update_where, update-IsKeyed, All-update_if, All-map,
}
use spacecraft_corporation.Supply.Model.{is_open, TaskKind, Request, Task, Db}
use spacecraft_corporation.Supply.Guards.{task_for}
use spacecraft_corporation.Supply.Edits.{
  is_some, created, create_task_for, closed_as, without_thread,
}
use spacecraft_corporation.Supply.History.{Call, run}
use spacecraft_corporation.Supply.Invariant.{
  request_id, is_request, IsEdit, IsInvariant, columns_ok,
}
use spacecraft_corporation.Supply.Invariant.History.{every_call-AllowedCall, run-keeps}

abbrev pub is_create : TaskKind → Bool
is_create TaskKind.create_task = true
is_create _ = false

abbrev pub is_close : TaskKind → Bool
is_close TaskKind.close_task = true
is_close _ = false

-- The outbox was given a request to create, or to close, the post of request `k`.
abbrev pub create_requested : ℕ → List Task → Bool
create_requested k = exists (λ (t : Task). is_create t.kind && (t.request_id == k))

abbrev pub close_requested : ℕ → List Task → Bool
close_requested k = exists (λ (t : Task). is_close t.kind && (t.request_id == k))

-- The post of a request that has ended was told to close, and its time of closing is set exactly
-- when it has ended. A request without a thread has one requested. The location is a pair, the
-- reference message has all of its three parts or none, and the planet fits its column.
pub record IsAnnounced (ts : List Task) (r : Request) : Type 0 where
  pub closing : is_open r.status ≡ false → close_requested r.id ts ≡ true
  pub stamped : is_some r.closed_at ≡ not (is_open r.status)
  pub posting : is_some r.thread_id ≡ false → create_requested r.id ts ≡ true
  pub columns : columns_ok r ≡ true

pub record Announced (rs : List Request) (ts : List Task) : Type 0 where
  pub keyed : IsKeyed request_id rs
  pub all : All (IsAnnounced ts) rs

enqueued-IsAnnounced :
    (ts : List Task) (t : Task) (r : Request) → IsAnnounced ts r → IsAnnounced (t ∷ ts) r
enqueued-IsAnnounced ts t r h = record {
  closing = λ e. ground (arith, h.closing e);
  stamped = h.stamped;
  posting = λ e. ground (arith, h.posting e);
  columns = h.columns;
}

edited-IsAnnounced :
    (ts : List Task) (f : Request → Request) (r : Request)
    → IsEdit f
    → IsAnnounced ts r
    → IsAnnounced ts (f r)
edited-IsAnnounced ts f r e h =
    let id = e.same_id r in
    let st = e.same_status r in
    let end = e.same_end r in
    record {
      closing = λ over. rw id (h.closing (rw st at over));
      stamped = rw (st, end) h.stamped;
      posting = λ lost. rw id (h.posting (ground (arith, e.threaded r)));
      columns = e.columns r h.columns;
    }

enqueued-Announced :
    (rs : List Request) (ts : List Task) (t : Task) → Announced rs ts → Announced rs (t ∷ ts)
enqueued-Announced rs ts t h = record {
  keyed = h.keyed;
  all = All-map (IsAnnounced ts) (IsAnnounced (t ∷ ts)) rs (λ x. enqueued-IsAnnounced ts t x) h.all;
}

update-Announced :
    (rs : List Request) (ts : List Task) (rid : ℕ) (f : Request → Request)
    → ((x : Request) → (f x).id ≡ x.id)
    → ((x : Request) → is_request rid x ≡ true → IsAnnounced ts x → IsAnnounced ts (f x))
    → Announced rs ts
    → Announced (update_where (is_request rid) f rs) ts
update-Announced rs ts rid f same kept h = record {
  keyed = update-IsKeyed request_id (is_request rid) f rs same h.keyed;
  all = All-update_if (IsAnnounced ts) (is_request rid) f rs kept h.all;
}

Announced-IsInvariant : IsInvariant (λ inp. Unit) Announced
unfolding created
Announced-IsInvariant = record {
  keyed = λ rs ts h. h.keyed;
  enqueued = enqueued-Announced;
  edited = λ rs ts rid f e h.
      update-Announced rs ts rid f e.same_id (λ x _. edited-IsAnnounced ts f x e) h;
  reposted = λ rs ts rid now h.
      update-Announced rs _ rid (without_thread now) (λ x. refl)
        (λ x e a. record {
          closing = λ over. a.closing over;
          stamped = a.stamped;
          posting = λ lost. ground arith;
          columns = a.columns;
        })
        (enqueued-Announced rs ts (task_for TaskKind.create_task rid) h);
  ended = λ rs ts rid st now o over h.
      update-Announced rs _ rid (closed_as st now) (λ x. refl)
        (λ x e a. record {
          closing = λ _. ground arith;
          stamped = rw over refl;
          posting = λ lost. a.posting lost;
          columns = a.columns;
        })
        (enqueued-Announced rs ts (task_for TaskKind.close_task rid) h);
  inserted = λ rs ts inp id now a room fresh h. record {
    keyed = (fresh, h.keyed);
    all = (
      record {
        closing = λ over. ground arith;
        stamped = refl;
        posting = λ lost. ground arith;
        columns = refl;
      },
      (enqueued-Announced rs ts (create_task_for inp id) h).all,
    );
  };
}

-- Whatever calls come in whatever order: the post of every request that has ended was told to
-- close, a request without a thread has one requested, the time of closing is set exactly when a
-- request has ended, a location has both of its columns or none, a reference message has all three
-- or none, and a planet fits its column; if this held of the tables at the start.
pub run-Announced :
    (cs : List Call) (db : Db)
    → Announced db.requests db.tasks
    → Announced (run cs db).requests (run cs db).tasks
run-Announced cs db h = run-keeps Announced-IsInvariant cs db (every_call-AllowedCall cs) h
