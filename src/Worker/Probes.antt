-- ===== src/Worker/Probes.antt =====
-- `buildHTTPServer` of cmd/worker/main.go: the metrics and the probes of the worker.
use clusterprobe.Prelude.{
  ℕ, zero, suc, String, Bool, true, false, Option, some, List, [], ◌∷◌, ◌≡◌, ◌↔◌, refl, ap, sym,
  ◌∙◌, arith, str_eq, if◌then◌else◌, length,
}
use clusterprobe.Go.Errors.{Result}
use clusterprobe.Api.Http.{Reply, no_reply, write_header}
use clusterprobe.Worker.Startup.{Handle}
use clusterprobe.Worker.Pool.{
  Started, End, start_consumers, start_consumers-IsPool, queue_picker, queues_of, queues_from,
}

abbrev plain : ℕ → String → Reply String
plain code text = record (write_header code no_reply) { bodies = text ∷ [] }

-- The reply to a request for a path; `ready` is nil or what it answers, and a path that has no
-- handler is not found.
unfoldable pub build_http_server :
    (metrics_handler : Reply String) → (ready : Option Bool) → (path : String) → Reply String
unfolding write_header
build_http_server metrics_handler ready path =
    if str_eq path "/metrics"
    then metrics_handler
    else if str_eq path "/healthz"
    then plain 200 "ok"
    else if str_eq path "/readyz"
    then elim ready [ some true ↦ plain 200 "ok" | _ ↦ plain 503 "consumer pool not ready\n" ]
    else plain 404 "404 page not found\n"

length-queues_of : (cs : List Started) → length (queues_of cs) ≡ length cs
length-queues_of [] = refl
length-queues_of (c ∷ cs) = ap suc (length-queues_of cs)

length-queues_from : (picker : ℕ → String) (n i : ℕ) → length (queues_from picker n i) ≡ n
length-queues_from picker zero i = refl
length-queues_from picker (suc n) i = ap suc (length-queues_from picker n (suc i))

readyz :
    (metrics : Reply String) (ready : Bool)
    → ((build_http_server metrics (some ready) "/readyz").status ≡ some 200) ↔ (ready ≡ true)
unfolding build_http_server write_header
readyz metrics true = (λ _. refl, λ _. refl)
readyz metrics false = (ground arith, ground arith)

-- The readiness probe of a worker is answered with 200 exactly if all of its consumers were started.
pub build_http_server-start_consumers :
    {W : Type 0} (metrics : Reply String) (factory : W → Result Handle × W)
    (finish : List Started → W → List End × W) (worker_count : ℕ) (w : W)
    → let pool = start_consumers queue_picker factory finish worker_count w in
      ((build_http_server metrics (some pool.ready) "/readyz").status ≡ some 200)
      ↔ (length pool.started ≡ worker_count)
build_http_server-start_consumers metrics factory finish worker_count w =
    let pool = start_consumers queue_picker factory finish worker_count w in
    let is_pool = (start_consumers-IsPool factory finish worker_count w).0 in
    let count : length pool.started ≡ is_pool.count =
      sym (length-queues_of pool.started)
      ∙ ap length is_pool.queues
      ∙ length-queues_from queue_picker is_pool.count 0 in
    let (there, back) = readyz metrics pool.ready in
    (λ h. count ∙ is_pool.all_ready.0 (there h), λ h. back (is_pool.all_ready.1 (sym count ∙ h)))
