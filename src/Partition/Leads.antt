-- ===== src/Partition/Leads.antt =====
-- The life cycle of a job row, and rules for what the parts of `process_partition` do to it.
use sf_bulk_loader.Prelude.{◌≡◌, refl, Bool, true, false, Option, none, some, List, [], ◌∷◌}
use sf_bulk_loader.Job.{JobStatus, is_intermediate}
use sf_bulk_loader.Partition.{Session, Flow, next, done, raised, out_of_fuel, M, ◌>>=◌, continue}

-- The edges of the life cycle of a job row, between two commits. A row may be committed again with
-- the same status while it is uploading or in progress.
abbrev pub may_follow : JobStatus → JobStatus → Bool
may_follow JobStatus.pending JobStatus.uploading = true
may_follow JobStatus.pending JobStatus.aborted = true
may_follow JobStatus.uploading JobStatus.uploading = true
may_follow JobStatus.uploading JobStatus.upload_complete = true
may_follow JobStatus.uploading JobStatus.failed = true
may_follow JobStatus.upload_complete JobStatus.in_progress = true
may_follow JobStatus.in_progress JobStatus.in_progress = true
may_follow JobStatus.in_progress JobStatus.job_complete = true
may_follow JobStatus.in_progress JobStatus.failed = true
may_follow JobStatus.in_progress JobStatus.aborted = true
may_follow _ _ = false

-- The status in the database: the row is inserted as pending.
abbrev pub last_status : List JobStatus → JobStatus
last_status [] = JobStatus.pending
last_status (st ∷ _) = st

abbrev pub IsPath : List JobStatus → Type 0
IsPath [] = Unit
IsPath (st ∷ before) = (may_follow (last_status before) st ≡ true) × IsPath before

-- The session has committed all changes of the status, along the life cycle, and reported nothing.
pub record At (st : JobStatus) (s : Session) : Type 0 where
  pub here : s.job.status ≡ st
  pub stored : last_status s.committed ≡ st
  pub path : IsPath s.committed
  pub silent : s.report ≡ none

-- What the breaker is to be told of a job that ended with a status.
abbrev pub report_of : JobStatus → Option Bool
report_of JobStatus.job_complete = some true
report_of JobStatus.failed = some false
report_of _ = none

-- The body has returned: the row's last status is in the database, it is not intermediate, and the
-- breaker was told what belongs to it.
pub record Finished (s : Session) : Type 0 where
  pub path : IsPath s.committed
  pub stored : last_status s.committed ≡ s.job.status
  pub settled : is_intermediate s.job.status ≡ false
  pub reported : s.report ≡ report_of s.job.status

-- The body has raised: the row in the database is left for the sweep, and the breaker was told nothing.
pub record Crashed (s : Session) : Type 0 where
  pub path : IsPath s.committed
  pub open_row : is_intermediate (last_status s.committed) ≡ true
  pub silent : s.report ≡ none

abbrev pub Ends : {A : Type 0} → Flow A × Session → Type 0
Ends (next a, s) = ⊥
Ends (done x y, s) = Finished s
Ends (raised, s) = Crashed s
Ends (out_of_fuel, s) = Unit

-- A part of the body that goes on at a status, or ends the body well.
abbrev pub Goes : {A : Type 0} → JobStatus → Flow A × Session → Type 0
Goes st (next a, s) = At st s
Goes st (done x y, s) = Finished s
Goes st (raised, s) = Crashed s
Goes st (out_of_fuel, s) = Unit

-- From a session at `st` the part goes on at `st'`, or ends well.
pub record Leads {A : Type 0} (st st' : JobStatus) (m : M A) : Type 0 where
  pub at : (s : Session) → At st s → Goes st' (m s)

pub Goes-continue :
    {A B : Type 0} (st st' : JobStatus) (r : Flow A) (s : Session) (f : A → M B)
    → Goes st (r, s)
    → ((a : A) → Leads st st' (f a))
    → Goes st' (continue r f s)
Goes-continue st st' (next a) s f h k = (k a).at s h
Goes-continue st st' (done x y) s f h k = h
Goes-continue st st' raised s f h k = h
Goes-continue st st' out_of_fuel s f h k = h

pub Leads-bind :
    {A B : Type 0} {st mid st' : JobStatus} {m : M A} {f : A → M B}
    → Leads st mid m
    → ((a : A) → Leads mid st' (f a))
    → Leads st st' (m >>= f)
unfolding ◌>>=◌
Leads-bind {mid = mid} {st' = st'} {m = m} {f = f} h k = record {
  at = λ s a. Goes-continue mid st' (m s).0 (m s).1 f (h.at s a) k;
}

-- The same, where the rest may use what is known of the value.
pub Goes-continue_value :
    {A B : Type 0} (V : A → Type 0) (st st' : JobStatus) (r : Flow A) (s : Session) (f : A → M B)
    → Goes st (r, s)
    → ((a : A) → r ≡ next a → V a)
    → ((a : A) → V a → Leads st st' (f a))
    → Goes st' (continue r f s)
Goes-continue_value V st st' (next a) s f h v k = (k a (v a refl)).at s h
Goes-continue_value V st st' (done x y) s f h v k = h
Goes-continue_value V st st' raised s f h v k = h
Goes-continue_value V st st' out_of_fuel s f h v k = h

pub Leads-bind_value :
    {A B : Type 0} {st mid st' : JobStatus} {m : M A} {f : A → M B} (V : A → Type 0)
    → Leads st mid m
    → ((s : Session) (a : A) → (m s).0 ≡ next a → V a)
    → ((a : A) → V a → Leads mid st' (f a))
    → Leads st st' (m >>= f)
unfolding ◌>>=◌
Leads-bind_value {mid = mid} {st' = st'} {m = m} {f = f} V h v k = record {
  at = λ s a. Goes-continue_value V mid st' (m s).0 (m s).1 f (h.at s a) (v s) k;
}
