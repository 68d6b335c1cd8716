-- ===== src/Partition/Lifecycle.antt =====
-- The committed statuses of a job follow its life cycle, and end in a state that the result tells.
use sf_bulk_loader.Prelude.{
  ℕ, zero, suc, ◌+◌, ◌*◌, min, ◌≡◌, ◌≢◌, refl, Bool, true, false, Option, none, some, arith,
  if◌then◌else◌,
}
use sf_bulk_loader.Job.{
  Uuid, JobStatus, JobRecord, SfState, is_terminal_state, is_intermediate, Call, reply,
  bulk_api_error, other_error,
}
use sf_bulk_loader.Partition.{
  PollReply, World, Settings, Session, Flow, next, done, raised, out_of_fuel, M, ◌>>=◌, continue,
  fail_job, attempt, check_before_submit, mark_uploading, record_sf_job, mark_in_progress,
  save_progress, give_up, past_cap, break_loop, poll_round, poll_loop, fetch_file,
  download_and_persist_results, finish, submit, process_partition, Download, Write, save_success,
  save_errors, save_unprocessed, give, open_session,
}
use sf_bulk_loader.Partition.Leads.{At, Goes, Ends, Leads, Leads-bind, Leads-bind_value}

check-Leads : (w : World) → Leads JobStatus.pending JobStatus.pending (check_before_submit w)
unfolding check_before_submit is_intermediate
check-Leads w = record { at = λ s a. ground arith }

attempt-Leads :
    {A : Type 0} (c : Call A) → Leads JobStatus.uploading JobStatus.uploading (attempt c)
unfolding attempt is_intermediate
attempt-Leads (reply x) = record { at = λ s a. a }
attempt-Leads bulk_api_error = record { at = λ s a. ground arith }
attempt-Leads other_error = record { at = λ s a. ground arith }

mark_uploading-Leads : Leads JobStatus.pending JobStatus.uploading mark_uploading
unfolding mark_uploading
mark_uploading-Leads = record { at = λ s a. ground arith }

record_sf_job-Leads : (id : Uuid) → Leads JobStatus.uploading JobStatus.uploading (record_sf_job id)
unfolding record_sf_job
record_sf_job-Leads id = record { at = λ s a. ground arith }

mark_in_progress-Leads : Leads JobStatus.uploading JobStatus.in_progress mark_in_progress
unfolding mark_in_progress
mark_in_progress-Leads = record { at = λ s a. ground arith }

submit-Leads : (w : World) → Leads JobStatus.pending JobStatus.in_progress (submit w)
unfolding submit
submit-Leads w = Leads-bind mark_uploading-Leads λ _. Leads-bind (attempt-Leads w.create_job) λ id.
    Leads-bind (record_sf_job-Leads id) λ _.
      Leads-bind (attempt-Leads w.upload_csv)
        λ _. Leads-bind (attempt-Leads w.close_job) λ _. mark_in_progress-Leads

-- The parts of the poll loop keep the status.
save_progress-At :
    (last : Option ℕ) (r : PollReply) (s : Session)
    → At JobStatus.in_progress s
    → At JobStatus.in_progress (save_progress last r s)
unfolding save_progress
save_progress-At last r s a = ground arith

fail_job-Goes :
    (A : Type 0) (s : Session)
    → At JobStatus.in_progress s
    → Goes {A = A} JobStatus.in_progress (fail_job s)
unfolding fail_job is_intermediate
fail_job-Goes A s a = ground arith

raised-Goes :
    (s : Session)
    → At JobStatus.in_progress s
    → Goes {A = SfState} JobStatus.in_progress (raised, s)
unfolding is_intermediate
raised-Goes s a = ground arith

give_up-Goes :
    (c : Call (Unit {0})) (s : Session)
    → At JobStatus.in_progress s
    → Goes JobStatus.in_progress (give_up c s)
unfolding give_up
give_up-Goes (reply x) s a = fail_job-Goes SfState s a
give_up-Goes bulk_api_error s a = fail_job-Goes SfState s a
give_up-Goes other_error s a = raised-Goes s a

break_loop-Goes :
    (r : PollReply) (s : Session)
    → At JobStatus.in_progress s
    → Goes JobStatus.in_progress (break_loop r s)
unfolding break_loop
break_loop-Goes r s a = ground arith

Goes-if :
    {A : Type 0} (b : Bool) (st : JobStatus) (x y : Flow A × Session)
    → Goes st x
    → Goes st y
    → Goes st (if b then x else y)
Goes-if true st x y h k = h
Goes-if false st x y h k = k

poll_round-Goes :
    (c : Settings) (w : World) (i : ℕ) (last : Option ℕ) (p : Call PollReply)
    (again : ℕ → M SfState) (s : Session)
    → At JobStatus.in_progress s
    → ((n : ℕ) (s' : Session)
        → At JobStatus.in_progress s'
        → Goes JobStatus.in_progress (again n s'))
    → Goes JobStatus.in_progress (poll_round c w i last p again s)
unfolding poll_round
poll_round-Goes c w i last bulk_api_error again s a h = fail_job-Goes SfState s a
poll_round-Goes c w i last other_error again s a h = raised-Goes s a
poll_round-Goes c w i last (reply r) again s a h =
    let a' = save_progress-At last r s a in
    Goes-if (is_terminal_state r.state) JobStatus.in_progress _ _ (break_loop-Goes r _ a') (
      Goes-if (past_cap c.sf_job_max_poll_seconds (w.elapsed i)) JobStatus.in_progress _ _
        (give_up-Goes w.abort_job _ a') (h r.processed _ a'))

poll_loop-Goes :
    (fuel : ℕ) (c : Settings) (w : World) (i interval : ℕ) (last : Option ℕ) (s : Session)
    → At JobStatus.in_progress s
    → Goes JobStatus.in_progress (poll_loop fuel c w i interval last s)
unfolding poll_loop
poll_loop-Goes zero c w i interval last s a = tt
poll_loop-Goes (suc fuel) c w i interval last s a =
    poll_round-Goes c w i last (w.poll_job_once i) _ s a λ n s' a'.
      poll_loop-Goes fuel c w (i + 1) (min (interval * 2) c.sf_poll_interval_max) (some n) s' a'

fetch_file-Leads :
    (d : Download) (w : Write) (save : Write → JobRecord → JobRecord)
    → ((x : Write) (j : JobRecord) → (save x j).status ≡ j.status)
    → Leads JobStatus.in_progress JobStatus.in_progress (fetch_file d w save)
unfolding fetch_file is_intermediate
fetch_file-Leads bulk_api_error w save keeps = record { at = λ s a. a }
fetch_file-Leads other_error w save keeps = record { at = λ s a. ground arith }
fetch_file-Leads (reply none) w save keeps = record { at = λ s a. a }
fetch_file-Leads (reply (some n)) w save keeps = record {
  at = λ s a. ground (arith, keeps w s.job);
}

give-Leads : {A : Type 0} (a : A) → Leads JobStatus.in_progress JobStatus.in_progress (give a)
give-Leads a = record { at = λ s h. h }

download-Leads :
    (w : World) → Leads JobStatus.in_progress JobStatus.in_progress (download_and_persist_results w)
unfolding download_and_persist_results
download-Leads w =
    Leads-bind (fetch_file-Leads w.get_success_results w.write_success save_success (λ x j. refl))
      λ good.
        Leads-bind (fetch_file-Leads w.get_failed_results w.write_errors save_errors (λ x j. refl))
          λ bad.
            Leads-bind
              (fetch_file-Leads w.get_unprocessed_results w.write_unprocessed save_unprocessed
                (λ x j. refl))
              λ _. give-Leads (good + bad, bad)

-- The loop is left by a terminal state alone.
poll_round-terminal :
    (c : Settings) (w : World) (i : ℕ) (last : Option ℕ) (p : Call PollReply)
    (again : ℕ → M SfState) (s : Session) (st : SfState)
    → ((n : ℕ) (s' : Session) → (again n s').0 ≡ next st → is_terminal_state st ≡ true)
    → (poll_round c w i last p again s).0 ≡ next st
    → is_terminal_state st ≡ true
unfolding poll_round
poll_round-terminal c w i last bulk_api_error again s st h e = cc
poll_round-terminal c w i last other_error again s st h e = cc
poll_round-terminal c w i last (reply r) again s st h e =
    ground (arith, h r.processed (save_progress last r s))

poll_loop-terminal :
    (fuel : ℕ) (c : Settings) (w : World) (i interval : ℕ) (last : Option ℕ) (s : Session)
    (st : SfState)
    → (poll_loop fuel c w i interval last s).0 ≡ next st
    → is_terminal_state st ≡ true
unfolding poll_loop
poll_loop-terminal zero c w i interval last s st e = cc
poll_loop-terminal (suc fuel) c w i interval last s st e =
    poll_round-terminal c w i last (w.poll_job_once i) _ s st
      (λ n s' e'.
        poll_loop-terminal fuel c w (i + 1) (min (interval * 2) c.sf_poll_interval_max) (some n) s'
          st e')
      e

finish-Leads :
    (state : SfState) (counts : ℕ × ℕ)
    → is_terminal_state state ≡ true
    → Leads JobStatus.in_progress JobStatus.in_progress (finish state counts)
unfolding finish is_intermediate is_terminal_state
finish-Leads state counts t = record { at = λ s a. ground arith }

process_partition-Leads :
    (fuel : ℕ) (c : Settings) (w : World)
    → Leads JobStatus.pending JobStatus.in_progress (process_partition fuel c w)
unfolding process_partition
process_partition-Leads fuel c w = Leads-bind (check-Leads w) λ _. Leads-bind (submit-Leads w) λ _.
    Leads-bind_value (λ state. is_terminal_state state ≡ true)
      (record { at = λ s a. poll_loop-Goes fuel c w 0 c.sf_poll_interval_initial none s a })
      (λ s st. poll_loop-terminal fuel c w 0 c.sf_poll_interval_initial none s st)
      λ state t. Leads-bind (download-Leads w) λ counts. finish-Leads state counts t

-- The body returns, raises or runs out of fuel: it never goes on after `finish`.
never-bind :
    {A : Type 0} (m : M A) (f : A → M (Unit {0}))
    → ((a : A) (s : Session) (x : Unit {0}) → (f a s).0 ≢ next x)
    → (s : Session) (x : Unit {0}) → ((m >>= f) s).0 ≢ next x
unfolding ◌>>=◌
never-bind {A = A} m f h s x = never (m s).0 (m s).1
  where
    never : (r : Flow A) (s : Session) → (continue r f s).0 ≢ next x
    never (next a) s e = h a s x e
    never (done y z) s e = cc
    never raised s e = cc
    never out_of_fuel s e = cc

finish-ends :
    (state : SfState) (counts : ℕ × ℕ) (s : Session) (x : Unit {0})
    → (finish state counts s).0 ≢ next x
unfolding finish
finish-ends state counts s x e = cc

process_partition-ends :
    (fuel : ℕ) (c : Settings) (w : World) (s : Session) (x : Unit {0})
    → (process_partition fuel c w s).0 ≢ next x
unfolding process_partition
process_partition-ends fuel c w = never-bind _ _ λ _.
    never-bind _ _ λ _. never-bind _ _ λ state. never-bind _ _ λ counts. finish-ends state counts

Ends-of_Goes :
    (st : JobStatus) (r : Flow (Unit {0}) × Session)
    → Goes st r
    → ((x : Unit {0}) → r.0 ≢ next x)
    → Ends r
Ends-of_Goes st (next a, s) h n = n a refl
Ends-of_Goes st (done x y, s) h n = h
Ends-of_Goes st (raised, s) h n = h
Ends-of_Goes st (out_of_fuel, s) h n = h

-- For a pending job and any answers of Salesforce, the storage and the clock: the statuses that the
-- body commits follow the life cycle of a job. If it returns, the last of them is the row's status,
-- which is job_complete, failed or aborted, and the breaker was told of a success for job_complete,
-- of a failure for failed, and nothing for aborted. If it raises, the row in the database is left in
-- an intermediate status, which the step's sweep looks for, and the breaker was told nothing.
pub process_partition-Ends :
    (fuel : ℕ) (c : Settings) (w : World) (job : JobRecord)
    → job.status ≡ JobStatus.pending
    → Ends (process_partition fuel c w (open_session job))
unfolding open_session
process_partition-Ends fuel c w job p =
    let s = open_session job in
    Ends-of_Goes JobStatus.in_progress _
      ((process_partition-Leads fuel c w).at s
        (record { here = p; stored = refl; path = tt; silent = refl }))
      (process_partition-ends fuel c w s)
