-- ===== src/Partition/Counts.antt =====
-- The counts that a partition returns, stored on its row.
use sf_bulk_loader.Prelude.{
  ℕ, zero, suc, ◌+◌, ◌*◌, min, ◌≡◌, refl, Option, none, some, arith, Bool, true, false, ◌⊎◌, inr,
  if◌then◌else◌,
}
use sf_bulk_loader.Job.{
  JobStatus, JobRecord, SfState, is_terminal_state, Call, reply, bulk_api_error, other_error,
}
use sf_bulk_loader.Partition.{
  World, Settings, Session, PollReply, Flow, next, done, raised, out_of_fuel, M, ◌>>=◌, continue,
  fail_job, attempt, check_before_submit, mark_uploading, record_sf_job, mark_in_progress,
  save_progress, give_up, past_cap, break_loop, poll_round, poll_loop, fetch_file,
  download_and_persist_results, finish, submit, process_partition, Write, Download,
}

-- The data rows of a result file, if it could be downloaded.
abbrev pub rows_downloaded : Download → ℕ
rows_downloaded (reply (some n)) = n
rows_downloaded _ = 0

-- An early exit: nothing is counted, and the row is failed or aborted.
pub record Nothing (x y : ℕ) (s : Session) : Type 0 where
  pub none_good : x ≡ 0
  pub none_bad : y ≡ 0
  pub unsuccessful : (s.job.status ≡ JobStatus.failed) ⊎ (s.job.status ≡ JobStatus.aborted)

-- The counts are the rows of the two result files, and the row holds their sum and the errors.
pub record Counted (w : World) (x y : ℕ) (s : Session) : Type 0 where
  pub good : x ≡ rows_downloaded w.get_success_results
  pub bad : y ≡ rows_downloaded w.get_failed_results
  pub processed : s.job.records_processed ≡ some (x + y)
  pub failed : s.job.records_failed ≡ some y

abbrev Result : World → {A : Type 0} → Flow A × Session → Type 0
Result w (done x y, s) = Nothing x y s ⊎ Counted w x y s
Result w (next a, s) = Unit
Result w (raised, s) = Unit
Result w (out_of_fuel, s) = Unit

record Gives {A : Type 0} (w : World) (m : M A) : Type 0 where
  at : (s : Session) → Result w (m s)

Gives-bind_value :
    {A B : Type 0} {w : World} {m : M A} {f : A → M B} (V : A → Type 0)
    → Gives w m
    → ((s : Session) (a : A) → (m s).0 ≡ next a → V a)
    → ((a : A) → V a → Gives w (f a))
    → Gives w (m >>= f)
unfolding ◌>>=◌
Gives-bind_value {A = A} {w = w} {m = m} {f = f} V h v k = record {
  at = λ s. go (m s).0 (m s).1 (h.at s) (v s);
}
  where
    go :
        (r : Flow A) (s : Session)
        → Result w (r, s)
        → ((a : A) → r ≡ next a → V a)
        → Result w (continue r f s)
    go (next a) s g u = (k a (u a refl)).at s
    go (done x y) s g u = g
    go raised s g u = g
    go out_of_fuel s g u = g

Gives-bind :
    {A B : Type 0} {w : World} {m : M A} {f : A → M B}
    → Gives w m
    → ((a : A) → Gives w (f a))
    → Gives w (m >>= f)
Gives-bind h k = Gives-bind_value (λ _. Unit {0}) h (λ s a e. tt) (λ a _. k a)

check-Gives : (w : World) → Gives w (check_before_submit w)
unfolding check_before_submit
check-Gives w = record { at = λ s. ground arith }

fail_job-Result : (A : Type 0) (w : World) (s : Session) → Result w (fail_job {A = A} s)
unfolding fail_job
fail_job-Result A w s = ground arith

attempt-Gives : {A : Type 0} (w : World) (c : Call A) → Gives w (attempt c)
unfolding attempt
attempt-Gives w (reply x) = record { at = λ s. tt }
attempt-Gives {A = A} w bulk_api_error = record { at = λ s. fail_job-Result A w s }
attempt-Gives w other_error = record { at = λ s. tt }

submit-Gives : (w : World) → Gives w (submit w)
unfolding submit mark_uploading record_sf_job mark_in_progress
submit-Gives w =
    Gives-bind (record { at = λ s. tt })
      λ _. Gives-bind (attempt-Gives w w.create_job) λ id.
        Gives-bind (record { at = λ s. tt })
          λ _.
            Gives-bind (attempt-Gives w w.upload_csv)
              λ _. Gives-bind (attempt-Gives w w.close_job) λ _. record { at = λ s. tt }

give_up-Result : (w : World) (c : Call (Unit {0})) (s : Session) → Result w (give_up c s)
unfolding give_up
give_up-Result w (reply x) s = fail_job-Result SfState w s
give_up-Result w bulk_api_error s = fail_job-Result SfState w s
give_up-Result w other_error s = tt

break_loop-Result : (w : World) (r : PollReply) (s : Session) → Result w (break_loop r s)
unfolding break_loop
break_loop-Result w r s = tt

Result-if :
    {A : Type 0} (w : World) (b : Bool) (x y : Flow A × Session)
    → Result w x
    → Result w y
    → Result w (if b then x else y)
Result-if w true x y h k = h
Result-if w false x y h k = k

poll_round-Result :
    (c : Settings) (w : World) (i : ℕ) (last : Option ℕ) (p : Call PollReply)
    (again : ℕ → M SfState) (s : Session)
    → ((n : ℕ) (s' : Session) → Result w (again n s'))
    → Result w (poll_round c w i last p again s)
unfolding poll_round
poll_round-Result c w i last bulk_api_error again s h = fail_job-Result SfState w s
poll_round-Result c w i last other_error again s h = tt
poll_round-Result c w i last (reply r) again s h =
    let s' = save_progress last r s in
    Result-if w (is_terminal_state r.state) _ _ (break_loop-Result w r s') (
      Result-if w (past_cap c.sf_job_max_poll_seconds (w.elapsed i)) _ _
        (give_up-Result w w.abort_job s') (h r.processed s'))

poll_loop-Result :
    (fuel : ℕ) (c : Settings) (w : World) (i interval : ℕ) (last : Option ℕ) (s : Session)
    → Result w (poll_loop fuel c w i interval last s)
unfolding poll_loop
poll_loop-Result zero c w i interval last s = tt
poll_loop-Result (suc fuel) c w i interval last s =
    poll_round-Result c w i last (w.poll_job_once i) _ s λ n s'.
      poll_loop-Result fuel c w (i + 1) (min (interval * 2) c.sf_poll_interval_max) (some n) s'

fetch_file-Gives :
    (w : World) (d : Download) (x : Write) (save : Write → JobRecord → JobRecord)
    → Gives w (fetch_file d x save)
unfolding fetch_file
fetch_file-Gives w bulk_api_error x save = record { at = λ s. tt }
fetch_file-Gives w other_error x save = record { at = λ s. tt }
fetch_file-Gives w (reply none) x save = record { at = λ s. tt }
fetch_file-Gives w (reply (some n)) x save = record { at = λ s. ground arith }

fetch_file-rows :
    (d : Download) (x : Write) (save : Write → JobRecord → JobRecord) (s : Session) (n : ℕ)
    → (fetch_file d x save s).0 ≡ next n
    → n ≡ rows_downloaded d
unfolding fetch_file
fetch_file-rows bulk_api_error x save s n e = ground arith
fetch_file-rows other_error x save s n e = cc
fetch_file-rows (reply none) x save s n e = ground arith
fetch_file-rows (reply (some m)) x save s n e = ground arith

download-Gives : (w : World) → Gives w (download_and_persist_results w)
unfolding download_and_persist_results
download-Gives w = Gives-bind (fetch_file-Gives w w.get_success_results w.write_success _) λ good.
    Gives-bind (fetch_file-Gives w w.get_failed_results w.write_errors _) λ bad.
      Gives-bind (fetch_file-Gives w w.get_unprocessed_results w.write_unprocessed _)
        λ _. record { at = λ s. tt }

-- Inversion of a part that goes on.
next-bind :
    {A B : Type 0} (m : M A) (f : A → M B) (s : Session) (b : B)
    → ((m >>= f) s).0 ≡ next b
    → (a : A) × (s' : Session) × ((m s).0 ≡ next a) × ((f a s').0 ≡ next b)
unfolding ◌>>=◌
next-bind {A = A} {B = B} m f s b e = go (m s).0 (m s).1 e
  where
    go :
        (r : Flow A) (s' : Session)
        → (continue r f s').0 ≡ next b
        → (a : A) × (s'' : Session) × (r ≡ next a) × ((f a s'').0 ≡ next b)
    go (next a) s' e = (a, s', refl, e)
    go (done x y) s' e = cc
    go raised s' e = cc
    go out_of_fuel s' e = cc

-- What the download goes on with.
abbrev Rows : World → ℕ × ℕ → Type 0
Rows w (processed, failed) =
    (failed ≡ rows_downloaded w.get_failed_results)
    × (processed ≡ rows_downloaded w.get_success_results + rows_downloaded w.get_failed_results)

download-Rows :
    (w : World) (s : Session) (counts : ℕ × ℕ)
    → (download_and_persist_results w s).0 ≡ next counts
    → Rows w counts
unfolding download_and_persist_results
download-Rows w s counts e =
    let (good, s1, e1, r1) =
      next-bind (fetch_file w.get_success_results w.write_success _) _ s counts e in
    let (bad, s2, e2, r2) =
      next-bind (fetch_file w.get_failed_results w.write_errors _) _ s1 counts r1 in
    let (u, s3, e3, r3) =
      next-bind (fetch_file w.get_unprocessed_results w.write_unprocessed _) _ s2 counts r2 in
    ground (
      arith,
      fetch_file-rows w.get_success_results w.write_success _ s good e1,
      fetch_file-rows w.get_failed_results w.write_errors _ s1 bad e2,
      r3,
    )

finish-Gives :
    (w : World) (state : SfState) (counts : ℕ × ℕ) → Rows w counts → Gives w (finish state counts)
unfolding finish
finish-Gives w state (processed, failed) h = record { at = λ s. inr (ground arith) }

process_partition-Gives :
    (fuel : ℕ) (c : Settings) (w : World) → Gives w (process_partition fuel c w)
unfolding process_partition
process_partition-Gives fuel c w = Gives-bind (check-Gives w) λ _. Gives-bind (submit-Gives w) λ _.
    Gives-bind (record { at = λ s. poll_loop-Result fuel c w 0 c.sf_poll_interval_initial none s })
      λ state. Gives-bind_value (Rows w) (download-Gives w) (download-Rows w) (finish-Gives w state)

-- Whatever happens, a partition that returns `(x, y)` either left early with `(0, 0)` and a row that
-- is failed or aborted, or `x` and `y` are the data rows of the success file and of the error file
-- that could be downloaded, and the row holds `x + y` processed and `y` failed records.
pub process_partition-Counted :
    (fuel : ℕ) (c : Settings) (w : World) (s : Session) (x y : ℕ)
    → (process_partition fuel c w s).0 ≡ done x y
    → Nothing x y (process_partition fuel c w s).1 ⊎ Counted w x y (process_partition fuel c w s).1
process_partition-Counted fuel c w s x y e = rw e at ((process_partition-Gives fuel c w).at s)
