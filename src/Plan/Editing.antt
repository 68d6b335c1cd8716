-- ===== src/Plan/Editing.antt =====
-- Any sequence of requests on the steps, each answered before the next.
use sf_bulk_loader.Prelude.{◌≡◌, refl, List, [], ◌∷◌}
use sf_bulk_loader.Job.{Uuid}
use sf_bulk_loader.Plan.{Database, Response, ok, http, integrity_error}
use sf_bulk_loader.Plan.Requests.{
  LoadStepCreate, LoadStepUpdate, add_step, update_step, delete_step, reorder,
}
use sf_bulk_loader.Plan.Wired.{IsWired}
use sf_bulk_loader.Plan.Growth.{Unreferenced, add_step-IsWired, delete_step-IsWired}
use sf_bulk_loader.Plan.Orders.{reorder-IsWired}
use sf_bulk_loader.Plan.Patches.{update_step-IsWired}

pub data Request : Type 0 where
  create : Uuid → Uuid → LoadStepCreate → Request
  update : Uuid → Uuid → LoadStepUpdate → Request
  delete : Uuid → Uuid → Request
  order : Uuid → List Uuid → Request

unfoldable pub handle : Request → Database → Response Database
handle (create new_id plan_id d) db = add_step new_id plan_id d db
handle (update plan_id step_id u) db = update_step plan_id step_id u db
handle (delete plan_id step_id) db = delete_step plan_id step_id db
handle (order plan_id step_ids) db = reorder plan_id step_ids db

-- A request that is refused changes nothing: the session is rolled back.
unfoldable pub stored : Response Database → Database → Database
stored (ok db') db = db'
stored (http code) db = db
stored integrity_error db = db

unfoldable pub handle_all : List Request → Database → Database
unfolding handle stored
handle_all [] db = db
handle_all (r ∷ rest) db = handle_all rest (stored (handle r db) db)

-- An update of a step whose output no step reads, or another request.
abbrev pub IsSafe : Request → Database → Type 0
IsSafe (update plan_id step_id u) db = Unreferenced step_id db.steps
IsSafe _ db = Unit

-- Each request is safe when it arrives.
abbrev pub AreSafe : List Request → Database → Type 0
AreSafe [] db = Unit
AreSafe (r ∷ rest) db = IsSafe r db × AreSafe rest (stored (handle r db) db)

handle-IsWired :
    (r : Request) (db db' : Database)
    → IsWired db
    → IsSafe r db
    → handle r db ≡ ok db'
    → IsWired db'
unfolding handle
handle-IsWired (create new_id plan_id d) db db' w s e = add_step-IsWired new_id plan_id d db db' w e
handle-IsWired (update plan_id id u) db db' w s e = update_step-IsWired plan_id id u db db' w s e
handle-IsWired (delete plan_id id) db db' w s e = delete_step-IsWired plan_id id db db' w e
handle-IsWired (order plan_id ids) db db' w s e = reorder-IsWired plan_id ids db db' w e

stored-IsWired :
    (r : Request) (db : Database) (o : Response Database)
    → IsWired db
    → IsSafe r db
    → handle r db ≡ o
    → IsWired (stored o db)
unfolding stored
stored-IsWired r db (ok db') w s e = handle-IsWired r db db' w s e
stored-IsWired r db (http code) w s e = w
stored-IsWired r db integrity_error w s e = w

-- Whatever requests create, delete, reorder and update steps, accepted or not, a table that was well
-- formed stays so: every row passes the schema's validators, and reads at most from a query step of
-- its plan with a smaller sequence number. The condition is that an update is only asked for a step
-- whose output no step reads.
pub requests-IsWired :
    (rs : List Request) (db : Database) → IsWired db → AreSafe rs db → IsWired (handle_all rs db)
unfolding handle_all
requests-IsWired [] db w safe = w
requests-IsWired (r ∷ rest) db w safe =
    requests-IsWired rest (stored (handle r db) db)
      (stored-IsWired r db (handle r db) w safe.0 refl) safe.1
