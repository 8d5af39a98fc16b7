-- ===== src/Tests/Serving.antt =====
-- Examples of the theorems on the services.
use grns.Base.{◌≡◌, refl, true, false, List, [], ◌∷◌, arith, list_beq, contains}
use grns.Base.Text.{codes, byte_len, to_lower, trim_space, has_prefix}
use grns.Errors.{err, plain, foreign_key_constraint}
use grns.Server.Importer.Phases.{import_tasks}
use grns.Server.Importer.DryRun.{dry_run_writes_nothing}
use grns.Server.Importer.Atomic.{atomic_import_all_or_nothing}
use grns.Server.LoginRateLimiter.{
  Limiter, new_login_rate_limiter, entry_of, allow, register_failure,
}
use grns.Server.LoginRateLimiter.Entries.{
  IsConfigured, Event, on_allow, on_failure, on_reset, handle_all,
}
use grns.Server.LoginRateLimiter.Blocking.{
  IsLastFailure, keeps_block_all, new_login_rate_limiter-IsConfigured, block_lasts,
}
use grns.Server.TaskService.Lifecycle.Histories.{
  ServiceOp, creating, closing, serve_all, serve_all-IsTimed, Ticks, AllTick,
}
use grns.Server.TaskService.{Call}
use grns.Store.Invariant.Histories.{run_ops}
use grns.Store.Tables.{empty_db}
use grns.Store.Timed.{IsTimed}
use grns.Server.Importer.Normalize.{normalize_and_validate}
use grns.Server.Validation.{
  normalize_prefix, validate_id, task_id_belongs_to_project, normalize_status, normalize_type,
}
use grns.Models.Domain.{parse_task_status, parse_task_type, is_valid_priority}
use grns.Server.Importer.{apply_task_upserts}
use grns.Store.Project.{project_from_task_id, same_task_project}
use grns.Store.Tasks.{add_dependency}
use grns.Tests.Samples.{sample_ops, sample_import, sample_call, sample_request}

abbrev sample_calls : List (Call × ServiceOp)
sample_calls =
    (sample_call, creating sample_request) ∷ (sample_call, closing (codes "gr-1234" ∷ [])) ∷ []

sample_ticks : AllTick sample_calls
unfolding Ticks AllTick
sample_ticks = ((λ n. omega arith), ((λ n. omega arith), tt))

serve_all-IsTimed_example : IsTimed (serve_all sample_calls empty_db)
serve_all-IsTimed_example = serve_all-IsTimed sample_calls sample_ticks

dry_run_writes_nothing_example :
    (import_tasks (sample_import true false) (codes "gr") 9 (run_ops sample_ops empty_db)).1.1
    ≡ run_ops sample_ops empty_db
dry_run_writes_nothing_example =
    dry_run_writes_nothing (sample_import true false) (codes "gr") 9 (run_ops sample_ops empty_db)
      refl

import_fails :
    (import_tasks (sample_import false true) (codes "gr") 9 (run_ops sample_ops empty_db)).0
    ≡ err (plain foreign_key_constraint)
unfolding import_tasks normalize_and_validate normalize_prefix byte_len to_lower trim_space codes
    list_beq validate_id task_id_belongs_to_project has_prefix normalize_status parse_task_status
    contains normalize_type parse_task_type is_valid_priority run_ops apply_task_upserts
    project_from_task_id same_task_project add_dependency
import_fails = refl

atomic_import_all_or_nothing_example :
    (import_tasks (sample_import false true) (codes "gr") 9 (run_ops sample_ops empty_db)).1.1
    ≡ run_ops sample_ops empty_db
atomic_import_all_or_nothing_example =
    atomic_import_all_or_nothing (sample_import false true) (codes "gr") 9
      (run_ops sample_ops empty_db) (plain foreign_key_constraint) refl import_fails

-- Two failures block for a minute; one is counted already.
abbrev sample_limiter : Limiter
sample_limiter = record {
  entries =
      (
        codes "10.0.0.1",
        record { failures = 1; first_failure_at = 100; blocked_until = 0; last_seen_at = 100 },
      )
      ∷ [];
  max_failures = 2;
  window = 1000;
  blocked_for = 60;
  stale_after = 600000000000;
  op_count = 62;
  cleanup_every_n = 64;
}

new_login_rate_limiter-IsConfigured_example : IsConfigured 60 (record {
  entries = [];
  max_failures = 2;
  window = 1000;
  blocked_for = 60;
  stale_after = 600000000000;
  op_count = 0;
  cleanup_every_n = 64;
})
unfolding new_login_rate_limiter
new_login_rate_limiter-IsConfigured_example =
    new_login_rate_limiter-IsConfigured 2 1000 60 _ (omega arith) (omega arith) refl

abbrev sample_events : List Event
sample_events =
    on_allow (codes "10.0.0.1") 210
    ∷ on_failure (codes "10.0.0.2") 220
    ∷ on_reset (codes "10.0.0.2")
    ∷ []

last_failure : IsLastFailure (codes "10.0.0.1") 200 sample_limiter
unfolding IsLastFailure entry_of codes list_beq
last_failure = (omega arith, omega arith, omega arith)

block_lasts_example :
    (allow
      (codes "10.0.0.1")
      259
      (handle_all sample_events (register_failure (codes "10.0.0.1") 200 sample_limiter))).0
    ≡ false
unfolding codes keeps_block_all list_beq
block_lasts_example =
    block_lasts (codes "10.0.0.1") 200 259 sample_events sample_limiter refl (omega arith)
      (record { same_block = refl; outlives = omega arith }) last_failure refl (omega arith)
