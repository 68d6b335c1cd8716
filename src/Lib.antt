-- ===== src/Lib.antt =====
-- Verification library of the Salesforce bulk loader's backend (backend/app).
--
-- A load plan is a sequence of steps against one Salesforce org. A run executes the steps one by one;
-- a step splits its CSV input into partitions, and each partition is one Bulk API 2.0 job.
--
-- Prelude     shared names, Boolean tests on numbers, lists measured by numbers.
-- RateLimit   services/rate_limit.py: `check_and_record` over the store of deques.
-- Breaker     services/run_context.py: the circuit breaker of a run.
-- Job         models/job.py and models/load_run.py: the rows and statuses that the executors share.
-- Partition   services/partition_executor.py and `download_and_persist_results` of
--             services/result_persistence.py: the body of one partition's task as a chain of parts in
--             a monad of session state and early exits. The answers of Salesforce, the storage and
--             the clock are a record, `World`, of which nothing is assumed but where a theorem says
--             so. The poll loop runs on fuel; one round more than the hard cap has seconds is enough,
--             since every sleep lasts at least a second.
-- Run         services/run_coordinator.py: `_execute_run`, its body, handlers and backstop, as a
--             function of what the steps and phases answer and of when the API's abort request is
--             committed; `abort_run` of services/load_run_service.py with the rows of the jobs.
-- the steps of plans (module Plan): models/load_step.py, schemas/load_step.py,
--             services/load_step_service.py and the requests of api/load_steps.py that change
--             steps: the table of steps as a list of rows, each request as a function to a response
--             and the table after it; and `duplicate_plan` of services/load_plan_service.py.
-- Csv         services/csv_processor.py: the split of a file into partitions and the partitions of a
--             retry, over rows as csv.reader yields them. The fuel of `range` is the number of rows,
--             which is enough for a positive step.
-- Step        services/step_executor.py: a DML step as the partitions of Csv run by the tasks of
--             Partition, and a query step; services/step_reference_resolver.py: the lookup of the
--             output of a query step.
-- Settings    services/settings/service.py: the rows of the settings and the cache over them.
-- BulkQuery   services/bulk_query_executor.py: the polls and the pages of a query job. The fuel of the
--             pages is their number, that of the polls one more than the hard cap has seconds, where
--             every sleep lasts at least a second.
-- Client      services/salesforce_bulk.py: `_request` with its retries.
-- Login       services/auth_lockout.py and the login request of api/auth.py for one account.
-- the accounts of the backend (module Accounts): models/user.py and the rows of tokens; the sessions
--             and passwords of services/auth.py; the requests of api/admin_users.py, the accepted
--             invitations of api/invitations.py and the resets of api/auth_reset.py, each as a
--             function to a response and the tables after it; a reset and a deactivation also as two
--             steps that other requests come between. What the JWT library decodes is an argument,
--             of which its treatment of `exp` is assumed.
-- TwoFactor   services/totp.py and `login_2fa` of api/auth_login_2fa.py, on the account of Login.
-- Storage     services/input_storage.py: paths below a root, glob patterns, and the pages of a preview.
-- Email       services/email/delivery_log.py and services/email/service.py: one delivery row and its
--             attempts; the fuel of the attempts is the row's `max_attempts`.
-- Retry       services/load_run_service.py: `prepare_retry_step`; services/run_coordinator.py:
--             `execute_retry_run`, with the row and the events of Run and the tasks of Step, and an
--             abort of the API between any two of its phases.
-- Notify      services/notifications/__init__.py: the guard of `fire_terminal_notifications`;
--             services/notifications/dispatcher.py: the selection of the subscriptions, the fan-out
--             and the rows of the deliveries.
-- Scenarios   tests by evaluation and the theorems at concrete inputs.
--
-- Identifiers, storage references and times are numbers. Logging, metrics and tracing are left out;
-- so are failures of the database, but for the rows of a retry's jobs and of a notification and for the
-- constraints of the steps of plans. Floats are exact: percentages are hundredths of a percent. The
-- semaphore over the tasks of a step is left out, as each task has rows of its own; that of a retry
-- enters by whether it lets any task run. Requests on accounts, logins and settings are answered one
-- after the other, but in the modules Races, Overlaps and Doubles.
mod Prelude
pub mod RateLimit
pub mod Breaker
pub mod Job
pub mod Partition
pub mod Run
pub mod Plan
pub mod Csv
pub mod Step
pub mod Client
pub mod Login
pub mod Email
pub mod Retry
pub mod Notify
pub mod Accounts
pub mod TwoFactor
pub mod Storage
pub mod BulkQuery
pub mod Settings
mod Scenarios
