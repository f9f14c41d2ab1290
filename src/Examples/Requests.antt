-- ===== src/Examples/Requests.antt =====
-- Requests to the API at concrete inputs.
use mathlib.Core.List.{Perm}
use tor_boxarr.Api.Http.{history_json, info_route, plain, queue_json, sab_api}
use tor_boxarr.Api.Listing.{
  handle_sab_queue-history_complete, ids_of_history, ids_of_queue, visible_jobs,
}
use tor_boxarr.Api.Router.{serve}
use tor_boxarr.Api.Router.Guard.{IsRefused, serve-guarded}
use tor_boxarr.Api.Router.Reading.{serve-reading}
use tor_boxarr.Api.Sab.{handle_sab_history, handle_sab_queue, key_given, mode_of, wanted_category}
use tor_boxarr.Api.Words.{first_non_empty}
use tor_boxarr.Auth.Sab.{allow}
use tor_boxarr.Base.{
  any, drop_while, false, has_prefix, insert_by, lit, map, refl, sort_by, str_eq, text_le, to_lower,
  trim, trim_space, true, ◌++◌, ◌≡◌,
}
use tor_boxarr.Compat.Sab.{SabHistory, SabQueue}
use tor_boxarr.Examples.Data.{demo, fixed_layout, job_in, world_with}
use tor_boxarr.Examples.Fixtures.{bare_request, server, toy_floats}
use tor_boxarr.Files.Layout.{remove_orphan_staging_dirs, remove_orphans}
use tor_boxarr.Model.{Time, remote_active, sab}
use tor_boxarr.Store.Claims.{release_all_claims}
use tor_boxarr.Store.Jobs.{list_open_jobs, overwrite, update_clash, update_job, update_row}
use tor_boxarr.Store.Keys.{IsKeyed}
use tor_boxarr.Store.Parts.{list_transfer_parts}
use tor_boxarr.Store.Retry.{exec_once, exec_write, query, retry_loop, retry_sqlite_busy, settle}
use tor_boxarr.Torbox.Client.{ok}
use tor_boxarr.Worker.Helpers.{all_parts_completed}
use tor_boxarr.Worker.Startup.{
  advance_to_verify, check_completed, check_staging, promote_found, reconcile_job, reconcile_jobs,
  reconcile_startup, wake,
}
use tor_boxarr.Worker.Startup.Awake.{reconcile_job-wakes, woken}
use tor_boxarr.Worker.Startup.Released.{IsRecovered, reconcile_startup-IsRecovered}
use tor_boxarr.World.{World, ask, attempt, ignore, lift, pure, with_text, ◌>>=◌}
use tor_boxarr.World.Reads.{IsUntouched}

abbrev start : World
start = world_with remote_active

keyed : IsKeyed start.jobs
unfolding str_eq lit
keyed = (refl, (refl, tt))

not_allowed : allow server.sab_auth (mode_of bare_request) (key_given bare_request) ≡ false
unfolding allow mode_of key_given to_lower trim_space trim str_eq lit has_prefix first_non_empty
    drop_while
not_allowed = refl

serve-reading_example : IsUntouched start (serve toy_floats server bare_request info_route start).1
serve-reading_example = serve-reading toy_floats server bare_request info_route start refl

serve-guarded_example : IsRefused start (serve toy_floats server bare_request sab_api start)
serve-guarded_example =
    serve-guarded toy_floats server bare_request sab_api start tt not_allowed refl

handle_sab_queue-history_complete_example :
    let w' = (handle_sab_queue toy_floats server bare_request start).1 in
    (q : SabQueue) × (h : SabHistory) × ((handle_sab_queue toy_floats server bare_request start).0
      ≡ ok (plain 200 (queue_json q)))
    × ((handle_sab_history toy_floats server bare_request w').0 ≡ ok (plain 200 (history_json h)))
    × Perm (ids_of_queue q ++ ids_of_history h) (
        map
          (λ job. job.public_id)
          (visible_jobs server.env sab (wanted_category toy_floats server bare_request) start.db))
handle_sab_queue-history_complete_example =
    handle_sab_queue-history_complete toy_floats server bare_request start (λ n. refl)

reconciled : (reconcile_startup demo start).0 ≡ ok tt
unfolding reconcile_startup release_all_claims list_open_jobs reconcile_jobs reconcile_job
    check_completed check_staging wake advance_to_verify promote_found list_transfer_parts
    remove_orphan_staging_dirs remove_orphans ◌>>=◌ ask lift pure query with_text exec_write
    retry_sqlite_busy exec_once retry_loop settle attempt ignore update_job update_row overwrite
    str_eq lit all_parts_completed sort_by insert_by text_le
reconciled = refl

reconcile_startup-IsRecovered_example : IsRecovered (reconcile_startup demo start).1.jobs
reconcile_startup-IsRecovered_example = reconcile_startup-IsRecovered demo start keyed reconciled

sleeper_there : any (λ row. str_eq row.id (lit "a")) start.jobs ≡ true
unfolding str_eq lit
sleeper_there = refl

sleeper_fits : any (update_clash (job_in (lit "a") remote_active)) start.jobs ≡ false
unfolding str_eq lit
sleeper_fits = refl

reconcile_job-wakes_example :
    let job = job_in (lit "a") remote_active in
    (now : Time) × ((reconcile_job demo job start).0 ≡ ok tt)
    × ((reconcile_job demo job start).1.jobs ≡ overwrite (woken fixed_layout job now) start.jobs)
reconcile_job-wakes_example =
    reconcile_job-wakes demo (job_in (lit "a") remote_active) start (λ n. refl) refl refl refl refl
      sleeper_there sleeper_fits
