-- ===== src/Lib.antt =====
-- Runlet: verification of the core of its backend.
--
-- Runlet crawls web systems, keeps what it finds as the current state of each system, compiles pages
-- into checks, and runs published checks on schedules. The parts modelled here interact so:
--   * a crawl collects navigation targets in a registry with budgets, and writes a draft snapshot;
--   * the switch compares the draft with the active snapshot and makes it the active one if it
--     differs;
--   * reconciliation holds the active pages and checks against the new snapshot and decides which of
--     them retire; drift fingerprints say how far a page moved;
--   * the compiler builds the standard checks of a page and their plans, and the executor of the runner
--     runs the steps of a plan;
--   * the jobs of retired checks are paused; the scheduler triggers the others by their cron
--     expressions, and each trigger records a run and queues a job for the workers.
--
-- The files and the code that they model (paths below backend/src/app/domains where no other is
-- given):
--   * Assets/Reconcile: asset_compiler/reconciliation.py. Gate: evaluate_retirement_quality_gate;
--     Truth: build_current_snapshot_truth; Dependencies: build_blocking_dependency_json and
--     _normalize_dependency_json; Decisions: reconcile_retirement_decisions and its tests.
--   * Assets/Semantic: asset_compiler/current_state_diff.py.
--   * Assets/Switch: asset_compiler/current_state_switch.py over the tables of
--     backend/src/app/infrastructure/db/models/crawl.py and crawl_history.py. The tables are lists
--     of rows in a record, and the switch is a function of them, of the time and of the id of a new
--     history row; a write puts the changed row in the place of the old one.
--   * Assets/Fingerprints: asset_compiler/fingerprints.py. Build and Hashes: build_page_fingerprint,
--     with SHA-256 as a parameter; Compare: compare_fingerprints.
--   * Scheduling/Clock and Scheduling/Cron: the cron functions of runner_service/scheduler.py.
--   * Scheduling/Jobs: PublishedJobService of the same file, PublishedJobTrigger of
--     backend/src/app/jobs/published_job_trigger.py and SqlQueueDispatcher of
--     backend/src/app/infrastructure/queue/dispatcher.py, over the tables of infrastructure/db/models.
--   * Scheduling/Uuids: uuid.UUID(text), the inverse of str(UUID).
--   * Scheduling/Policies, Registry and Runtime: control_plane/scheduler_registry.py and
--     backend/src/app/runtime/scheduler_runtime.py over the tables of runtime_policies.py.
--     Scheduler is what they use of APScheduler, as an interface with its documented laws, and
--     InMemory an instance of it; Planned says what the tables ask of the scheduler.
--   * Crawler/Navigation: crawler_service/navigation_targets.py. The targets are mutable objects that
--     the registry and its callers share: a store maps references to them.
--   * Worker: WorkerRunner of backend/src/app/workers/runner.py over the rows of queued jobs. The
--     handlers are an argument; run_until_idle is the loop of run_forever up to the first round that
--     finds no job, with a number of rounds as fuel: a handler may add jobs, as that of crawls adds
--     one to compile, and the weight of the accepted jobs is enough, if what a job adds weighs less.
--   * RunCheck: RunCheckJobHandler of backend/src/app/jobs/run_check_job.py and run_check_retry.py.
--     Admission reads the payload and refuses or skips a job, Attempts is the loop of the retries,
--     Marks what is written to a job and its run, Handler the whole. The runner and the control plane
--     service are an argument (Services), over a state that holds the clock too.
--   * Assets/Aliases: asset_compiler/navigation_aliases.py. The walk from a menu node to its root takes
--     as many steps as there are nodes, and one, as fuel, which is enough.
--   * Assets/Plans: asset_compiler/template_registry.py, module_plan_builder.py and check_templates.py.
--   * PolicyJobs: CrawlJobHandler of backend/src/app/jobs/crawl_job.py and AuthRefreshJobHandler of
--     auth_refresh_job.py, each with its service as an argument; Rows and Marks are what both do.
--     datetime.fromisoformat is a parameter.
--   * Executor: ModuleExecutor of runner_service/module_executor.py and data_assertion_modules.py. Params
--     reads the parameters of a step, Steps and Locators say what a module makes of a call of the
--     runtime, which is an argument, and Execute runs the steps.
--   * Prelude: Python's texts (lists of code points), dicts (association lists in insertion order),
--     dynamic values, json.dumps and sorting, and the lemmas on them.
--
-- Numbers: UUIDs and times are natural numbers; a score is a number of ten-thousandths and a weight
-- of drift a number of hundredths; a float in a payload is kept as its text. Python's integers have no bound, and
-- neither have those here. Writing a number in decimal takes fuel, the number plus one, which is
-- more than its digits.
--
-- A mark of RunCheck reads the clock once, where the code reads it for each column; the handlers of
-- PolicyJobs have a reading for each. The times at which rows of published jobs are written are
-- arguments. That the column job_key is unique is the database's, and left out.
--
-- What APScheduler accepts as a crontab and what the script renderer does to the tables are parameters
-- of the creation of jobs. A call that raises gives no tables: what it wrote before is left out.
--
-- A session is one sequence of calls, each of which sees the tables as the one before left them:
-- rows are locked for the time of a call where the code asks for it, and transactions, flushes and
-- commits are not modelled. What is a library's is not modelled either: SQLAlchemy, Playwright,
-- APScheduler and FastAPI. The remaining services (the asset compiler's own service, that of the
-- runner, the control plane, authentication and the crawler's extractors) are not modelled, nor are
-- the locator bundles, whose ranks are floats and whose tests are regular expressions.
pub mod Assets
pub mod Crawler
pub mod Executor
pub mod PolicyJobs
pub mod Prelude
pub mod RunCheck
pub mod Scheduling
pub mod Worker
