-- ===== src/Partition/Polling.antt =====
-- The poll loop ends by itself when the hard cap `sf_job_max_poll_seconds` is on.
use sf_bulk_loader.Prelude.{
  ℕ, zero, suc, ◌+◌, ◌*◌, min, ◌≡◌, ◌≢◌, ◌≤◌, ◌<◌, refl, Option, none, some, arith, Bool, true,
  false, if◌then◌else◌, add-one,
}
use sf_bulk_loader.Job.{SfState, is_terminal_state, Call, reply, bulk_api_error, other_error}
use sf_bulk_loader.Partition.{
  World, Settings, Session, PollReply, Flow, next, done, raised, out_of_fuel, M, ◌>>=◌, continue,
  fail_job, attempt, check_before_submit, mark_uploading, record_sf_job, mark_in_progress,
  save_progress, give_up, past_cap, break_loop, poll_round, poll_loop, fetch_file,
  download_and_persist_results, finish, submit, process_partition, Write, Download,
}
use sf_bulk_loader.Job.{JobRecord}

-- `interval` in round `i`.
abbrev pub interval_at : Settings → ℕ → ℕ
interval_at c zero = c.sf_poll_interval_initial
interval_at c (suc i) = min (interval_at c i * 2) c.sf_poll_interval_max

-- `asyncio.sleep(interval)` takes at least `interval` seconds, and no setting is 0.
pub record Ticks (c : Settings) (w : World) : Type 0 where
  pub initial : 0 < c.sf_poll_interval_initial
  pub maximum : 0 < c.sf_poll_interval_max
  pub capped : 0 < c.sf_job_max_poll_seconds
  pub sleeps : (i : ℕ) → w.elapsed i + interval_at c i ≤ w.elapsed (i + 1)

interval_next :
    (c : Settings) (i : ℕ)
    → interval_at c (i + 1) ≡ min (interval_at c i * 2) c.sf_poll_interval_max
interval_next c i = rw add-one

interval-pos : (c : Settings) (w : World) (i : ℕ) → Ticks c w → 0 < interval_at c i
interval-pos c w zero t = t.initial
interval-pos c w (suc i) t = omega (arith, interval-pos c w i t, t.maximum)

fail_job-fuel : (A : Type 0) (s : Session) → (fail_job {A = A} s).0 ≢ out_of_fuel
unfolding fail_job
fail_job-fuel A s e = cc

give_up-fuel : (c : Call (Unit {0})) (s : Session) → (give_up c s).0 ≢ out_of_fuel
unfolding give_up
give_up-fuel (reply x) s e = fail_job-fuel SfState s e
give_up-fuel bulk_api_error s e = fail_job-fuel SfState s e
give_up-fuel other_error s e = cc

break_loop-fuel : (r : PollReply) (s : Session) → (break_loop r s).0 ≢ out_of_fuel
unfolding break_loop
break_loop-fuel r s e = cc

if-fuel :
    {A : Type 0} (b : Bool) (x y : Flow A × Session)
    → x.0 ≢ out_of_fuel
    → (b ≡ false → y.0 ≢ out_of_fuel)
    → (if b then x else y).0 ≢ out_of_fuel
if-fuel true x y h k = h
if-fuel false x y h k = k refl

below-cap : (cap e : ℕ) → 0 < cap → past_cap cap e ≡ false → e < cap
unfolding past_cap
below-cap cap e h p = ground arith

-- A round uses up its fuel only in the next round, which it enters only below the cap.
poll_round-fuel :
    (c : Settings) (w : World) (i : ℕ) (last : Option ℕ) (p : Call PollReply)
    (again : ℕ → M SfState) (s : Session)
    → 0 < c.sf_job_max_poll_seconds
    → (w.elapsed i < c.sf_job_max_poll_seconds
        → (n : ℕ) (s' : Session) → (again n s').0 ≢ out_of_fuel)
    → (poll_round c w i last p again s).0 ≢ out_of_fuel
unfolding poll_round
poll_round-fuel c w i last bulk_api_error again s k h e = fail_job-fuel SfState s e
poll_round-fuel c w i last other_error again s k h e = cc
poll_round-fuel c w i last (reply r) again s k h e =
    let s' = save_progress last r s in
    if-fuel (is_terminal_state r.state) _ _ (break_loop-fuel r s')
      (λ _.
        if-fuel (past_cap c.sf_job_max_poll_seconds (w.elapsed i)) _ _ (give_up-fuel w.abort_job s')
          (λ below. h (below-cap _ _ k below) r.processed s'))
      e

poll_loop-fuel :
    (fuel : ℕ) (c : Settings) (w : World) (i : ℕ) (last : Option ℕ) (s : Session)
    → Ticks c w
    → 0 < fuel
    → c.sf_job_max_poll_seconds < fuel + w.elapsed i
    → (poll_loop fuel c w i (interval_at c i) last s).0 ≢ out_of_fuel
unfolding poll_loop
poll_loop-fuel zero c w i last s t h k = elim h [ ]
poll_loop-fuel (suc fuel) c w i last s t h k =
    poll_round-fuel c w i last (w.poll_job_once i) _ s t.capped λ below n s'.
      rw (← interval_next c i) (
        poll_loop-fuel fuel c w (i + 1) (some n) s' t
          (omega (arith, t.sleeps i, interval-pos c w i t))
          (omega (arith, t.sleeps i, interval-pos c w i t)))

poll_loop-ends :
    (c : Settings) (w : World) (s : Session)
    → Ticks c w
    → (poll_loop (c.sf_job_max_poll_seconds + 1) c w 0 c.sf_poll_interval_initial none s).0
      ≢ out_of_fuel
poll_loop-ends c w s t = poll_loop-fuel _ c w 0 none s t (omega arith) (omega arith)

fuel-bind :
    {A B : Type 0} (m : M A) (f : A → M B)
    → ((s : Session) → (m s).0 ≢ out_of_fuel)
    → ((a : A) (s : Session) → (f a s).0 ≢ out_of_fuel)
    → (s : Session) → ((m >>= f) s).0 ≢ out_of_fuel
unfolding ◌>>=◌
fuel-bind {A = A} {B = B} m f h k s = go (m s).0 (m s).1 (h s)
  where
    go : (r : Flow A) (s : Session) → r ≢ out_of_fuel → (continue r f s).0 ≢ out_of_fuel
    go (next a) s n e = k a s e
    go (done x y) s n e = cc
    go raised s n e = cc
    go out_of_fuel s n e = n refl

check-fuel : (w : World) (s : Session) → (check_before_submit w s).0 ≢ out_of_fuel
unfolding check_before_submit
check-fuel w s = ground arith

attempt-fuel : {A : Type 0} (c : Call A) (s : Session) → (attempt c s).0 ≢ out_of_fuel
unfolding attempt
attempt-fuel (reply x) s e = cc
attempt-fuel {A = A} bulk_api_error s e = fail_job-fuel A s e
attempt-fuel other_error s e = cc

submit-fuel : (w : World) (s : Session) → (submit w s).0 ≢ out_of_fuel
unfolding submit mark_uploading record_sf_job mark_in_progress
submit-fuel w =
    fuel-bind mark_uploading _ (λ s e. cc)
      λ _. fuel-bind (attempt w.create_job) _ (attempt-fuel w.create_job) λ id.
        fuel-bind (record_sf_job id) _ (λ s e. cc)
          λ _.
            fuel-bind (attempt w.upload_csv) _ (attempt-fuel w.upload_csv)
              λ _. fuel-bind (attempt w.close_job) _ (attempt-fuel w.close_job) λ _ s e. cc

fetch_file-fuel :
    (d : Download) (w : Write) (save : Write → JobRecord → JobRecord) (s : Session)
    → (fetch_file d w save s).0 ≢ out_of_fuel
unfolding fetch_file
fetch_file-fuel bulk_api_error w save s e = cc
fetch_file-fuel other_error w save s e = cc
fetch_file-fuel (reply none) w save s e = cc
fetch_file-fuel (reply (some n)) w save s e = ground arith

download-fuel : (w : World) (s : Session) → (download_and_persist_results w s).0 ≢ out_of_fuel
unfolding download_and_persist_results
download-fuel w = fuel-bind _ _ (fetch_file-fuel w.get_success_results w.write_success _) λ good.
    fuel-bind _ _ (fetch_file-fuel w.get_failed_results w.write_errors _) λ bad.
      fuel-bind _ _ (fetch_file-fuel w.get_unprocessed_results w.write_unprocessed _) λ _ s e. cc

-- With the hard cap on, positive intervals, and sleeps that last as long as they should, the body
-- returns or raises: one round more than the cap has seconds is fuel enough.
pub process_partition-terminates :
    (c : Settings) (w : World) (s : Session)
    → Ticks c w
    → (process_partition (c.sf_job_max_poll_seconds + 1) c w s).0 ≢ out_of_fuel
unfolding process_partition finish
process_partition-terminates c w s t =
    fuel-bind (check_before_submit w) _ (check-fuel w)
      (λ _. fuel-bind (submit w) _ (submit-fuel w) λ _.
        fuel-bind (poll_loop _ c w 0 c.sf_poll_interval_initial none) _
          (λ s'. poll_loop-ends c w s' t)
          λ state. fuel-bind (download_and_persist_results w) _ (download-fuel w) λ counts s' e. cc)
      s
