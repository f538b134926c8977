-- ===== src/Examples/App.antt =====
-- Examples for the life of the server, with tables in memory.
use feature_store.Common.{◌≡◌, ◌≢◌, refl, String, List, [], ◌∷◌, All, filter, arith}
use feature_store.Common.Exec.{Result, ok, err, pure, http_exception, other_error}
use feature_store.Float.Fixed.{Fixed, fixed_float}
use feature_store.Registry.Models.{SessionLaws, named}
use feature_store.Registry.Memory.{Tables, no_rows, tables_session, tables-SessionLaws}
use feature_store.Registry.Service.{scalar_one_or_none, get_feature_detail}
use feature_store.Registry.Seeding.{add_steps, add_missing, seed_one, seed_all, seed_features}
use feature_store.Api.App.{
  Reply, Tracing, Backend, RedisSettings, Request, dispatch, serve, start_up, run_app,
}
use feature_store.Api.App.Laws.{
  SameRegistry, LeavesRegistry, BackendLaws, served_feature_found, run_app_restart,
}
use feature_store.Examples.World.{tiny, plain_format}

abbrev Db : Type 0
Db = Tables Fixed

abbrev laws : SessionLaws Db Fixed
laws = tables-SessionLaws

abbrev tracing : Tracing Db Fixed
tracing = record { uuid4 = λ w. ("0123456789abcdef", w); perf_counter = λ w. tiny 7 }

abbrev backend : Backend Db
backend = record { connect = λ url n. pure tt; create_all = pure tt; aclose = pure tt }

unchanged :
    {A : Type 0} (r : A) (w w' : Db) (r' : A)
    → ◌≡◌ {A = A × Db} (r, w) (r', w')
    → SameRegistry laws w w'
unchanged r w w' r' h = (ground arith, ground arith)

backend_laws : BackendLaws laws backend tracing
backend_laws = record {
  connect_keeps = λ url n w w' r h. unchanged (ok tt) w w' r h;
  create_all_keeps = λ w w' r h. unchanged (ok tt) w w' r h;
  aclose_keeps = λ w w' r h. unchanged (ok tt) w w' r h;
  uuid4_keeps = λ w. (refl, refl);
}

-- an answer, and a request that fails
abbrev page : Reply String
page = record { status_code = 200; headers = ("content-type", "text/html") ∷ []; body = "ok" }

abbrev requests : List (Request Db String)
requests = (λ id w. (ok page, w)) ∷ (λ id w. (err other_error, w)) ∷ []

requests_leave : All (λ q. (id : String) → LeavesRegistry laws (q id)) requests
requests_leave = (
  λ id w w' r h. unchanged (ok page) w w' r h,
  (λ id w w' r h. unchanged (err other_error) w w' r h, tt),
)

abbrev settings : RedisSettings
settings = record {
  redis_host = "localhost";
  redis_port = "6379";
  redis_db = "0";
  redis_max_connections = 20;
}

abbrev up : Db
up = (start_up backend tables_session settings no_rows).1

abbrev served : Db
served = (serve tracing requests up).1

served_feature_found_example :
    (get_feature_detail tables_session "anomaly_score" served).0 ≢ err (http_exception 404)
unfolding start_up serve dispatch seed_features seed_all seed_one scalar_one_or_none add_missing
    add_steps
served_feature_found_example =
    served_feature_found laws backend_laws settings requests "anomaly_score" no_rows up served
      (filter (named "anomaly_score") served.features) refl requests_leave refl refl

abbrev answered : List (Result (Reply String))
answered = (serve tracing requests up).0

abbrev first_life : Db
first_life = (run_app backend tables_session tracing settings requests no_rows).1

abbrev second_life : Db
second_life = (run_app backend tables_session tracing settings requests first_life).1

run_app_restart_example : SameRegistry laws first_life second_life
unfolding run_app start_up serve dispatch seed_features seed_all seed_one scalar_one_or_none
    add_missing add_steps
run_app_restart_example =
    run_app_restart laws backend_laws settings requests requests no_rows first_life second_life
      answered answered requests_leave requests_leave refl refl
