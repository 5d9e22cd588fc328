-- ===== src/Cloud/SyncRequests/Tests.antt =====
-- Two requests, of which the second comes while a run answers the first.
use code_butler.Prelude.{true, false, some, ◌≡◌, ◌↔◌, refl}
use code_butler.Cloud.SyncRequests.{
  local, remote, Files, no_files, automatic_sync_pending, request_automatic_sync,
  request_automatic_sync_if_absent, begun, begin_run, acknowledge, QuietSteps, still, after,
  acknowledged, requested, Reachable, at_first, quietly, by_run,
}
use code_butler.Cloud.SyncRequests.Pending.{request_stays_pending}
use code_butler.Cloud.SyncRequests.Answered.{run_answers_request}

runs : Unit {0}
unfolding automatic_sync_pending request_automatic_sync request_automatic_sync_if_absent begin_run
    acknowledge
runs = tt

abbrev asked : Files
asked = request_automatic_sync local no_files

asked_first : Reachable asked
asked_first = quietly at_first (requested local)

abbrev started : Files
started = (begun asked).1

begins : begin_run true asked ≡ some (some 0, started)
unfolding runs
begins = refl

abbrev asked_again : Files
asked_again = request_automatic_sync remote started

-- The run that began before the second request answers the first one.
late_answer : QuietSteps asked_again (acknowledge (some 0) asked_again)
unfolding runs
late_answer = after still (acknowledged 0 refl)

asked_meanwhile : QuietSteps started asked_again
asked_meanwhile = after still (requested remote)

request_stays_pending_example : automatic_sync_pending (acknowledge (some 0) asked_again) ≡ true
request_stays_pending_example =
    request_stays_pending started (acknowledge (some 0) asked_again) remote
      (by_run true asked_first begins) late_answer

run_answers_request_example :
    (automatic_sync_pending (acknowledge (some 0) asked_again) ≡ false)
    ↔ (asked_again.request ≡ asked.request)
run_answers_request_example =
    run_answers_request asked started asked_again (some 0) true asked_first begins asked_meanwhile

answered : automatic_sync_pending (acknowledge (some 0) started) ≡ false
unfolding runs
answered = refl
