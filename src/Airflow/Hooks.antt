-- ===== src/Airflow/Hooks.antt =====
-- airflow/plugins/feature_store_hooks.py
use feature_store.Common.{◌⋅◌, ◌≡◌, arith, String, false, ◌∷◌, [], leb, ltb, ◌&&◌, if◌then◌else◌}
use feature_store.Common.Dict.{Dict}
use feature_store.Common.Exec.{Exec, ok, err, http_exception, ◌>>=◌}
use feature_store.Redis.{Redis}
use feature_store.OnlineStore.KeySchema.{feature_key}
use feature_store.Monitoring.DataFetcher.{HttpResponse, Http}

-- `requests.post(url, json=..., timeout=5)`
pub record Post (W J : Type 0) : Type 0 where
  pub post : String → Dict String → Exec W (HttpResponse J)

module _ {W J : Type 0} where
  -- `response.raise_for_status()`, and then `response.json()`
  abbrev pub checked_json : HttpResponse J → Exec W J
  checked_json response w =
      if leb 400 response.status_code && ltb response.status_code 600
      then (err (http_exception response.status_code), w)
      else (response.json, w)

-- `client.hgetall(...) or {}`
abbrev pub get_feature : {W : Type 0} ⦃r : Redis W⦄ → String → Exec W (Dict String)
get_feature ⦃r⦄ user_id = r.hgetall (feature_key user_id)

module _ {W J : Type 0} where
  abbrev pub get_features : Http W J → String → String → Exec W J
  get_features h api_url user_id = h.get (api_url ⋅ "/features/" ⋅ user_id) >>= checked_json

  abbrev pub trigger_refresh : Post W J → String → String → Exec W J
  trigger_refresh p api_url user_id =
      p.post (api_url ⋅ "/refresh-feature") (("user_id", user_id) ∷ []) >>= checked_json

  -- A body is handed on only from an answer that is no error.
  checked_json_returns :
      (response : HttpResponse J) (w w' : W) (body : J)
      → checked_json response w ≡ (ok body, w')
      → (leb 400 response.status_code && ltb response.status_code 600) ≡ false
  checked_json_returns response w w' body h = ground arith
