-- ===== src/Config/Loading.antt =====
-- What `Load` accepts and what it names.
use clusterprobe.Prelude.{
  Each-last, String, true, false, some, List, [], ◌∷◌, ◌≡◌, ◌↔◌, refl, arith, Each,
}
use clusterprobe.Go.Int64.{pos, ltb_ℤ}
use clusterprobe.Go.Errors.{GoError, ok}
use clusterprobe.Go.Strings.{codes}
use clusterprobe.Go.Text.{trim}
use clusterprobe.Go.Numbers.{atoi}
use clusterprobe.Workload.Types.{is_empty}
use clusterprobe.Config.{
  Config, all_keys, text_keys, concurrency_key, validate, missing_among, require_int, config_of,
  load,
}

module _ (atoi_error : String → GoError) (getenv : String → String) where
  -- Every variable is set, apart from white space, and the concurrency is a number above 0.
  pub record IsConfigured (c : Config) : Type 0 where
    pub set : Each (λ key. is_empty (trim (getenv key)) ≡ false) all_keys
    pub concurrency : atoi (codes (trim (getenv concurrency_key))) ≡ some c.worker_concurrency
    pub concurrent : ltb_ℤ (pos 0) c.worker_concurrency ≡ true
    pub texts :
        (c.postgres_dsn ≡ trim (getenv "CP_POSTGRES_DSN"))
        × (c.redis_dsn ≡ trim (getenv "CP_REDIS_DSN"))
        × (c.mongo_dsn ≡ trim (getenv "CP_MONGO_DSN"))
        × (c.rabbitmq_url ≡ trim (getenv "CP_RABBITMQ_URL"))
        × (c.otlp_endpoint ≡ trim (getenv "CP_OTEL_ENDPOINT"))
        × (c.api_listen_addr ≡ trim (getenv "CP_API_LISTEN_ADDR"))
        × (c.ui_listen_addr ≡ trim (getenv "CP_UI_LISTEN_ADDR"))
        × (c.chaos_listen_addr ≡ trim (getenv "CP_CHAOS_LISTEN_ADDR"))
        × (c.log_level ≡ trim (getenv "CP_LOG_LEVEL"))

  missing_among_nil :
      (keys : List String)
      → missing_among atoi_error getenv keys ≡ []
      → Each (λ key. is_empty (trim (getenv key)) ≡ false) keys
  unfolding missing_among
  missing_among_nil [] h = tt
  missing_among_nil (key ∷ keys) h = ground (arith, missing_among_nil keys)

  missing_among_none :
      (keys : List String)
      → Each (λ key. is_empty (trim (getenv key)) ≡ false) keys
      → missing_among atoi_error getenv keys ≡ []
  unfolding missing_among
  missing_among_none [] h = refl
  missing_among_none (key ∷ keys) h = ground (arith, missing_among_none keys)

  concurrency_set :
      Each (λ key. is_empty (trim (getenv key)) ≡ false) all_keys
      → is_empty (trim (getenv concurrency_key)) ≡ false
  concurrency_set h =
      Each-last (λ key. is_empty (trim (getenv key)) ≡ false) text_keys concurrency_key h

  load_complete : (c : Config) → IsConfigured c → load atoi_error getenv ≡ ok c
  unfolding load require_int config_of validate
  load_complete c h = ground (arith, missing_among_none all_keys h.set, concurrency_set h.set)

  load_sound : (c : Config) → load atoi_error getenv ≡ ok c → IsConfigured c
  unfolding load require_int config_of validate
  load_sound c h =
      let m : missing_among atoi_error getenv all_keys ≡ [] = ground arith in
      let set = missing_among_nil all_keys m in
      record {
        set = set;
        concurrency = ground (arith, concurrency_set set);
        concurrent = ground (arith, concurrency_set set);
        texts = ground (arith, concurrency_set set);
      }

  -- `Load` returns a configuration exactly if every variable is set to more than white space and the
  -- concurrency is an integer above 0; then it has the texts of the variables, trimmed.
  pub load_iff : (c : Config) → (load atoi_error getenv ≡ ok c) ↔ IsConfigured c
  load_iff c = (load_sound c, load_complete c)
