-- ===== src/ChaosCtrl/Kubeconfig.antt =====
-- `newChaosClient` and `kubernetesConfig` of cmd/chaos-ctrl/main.go. The calls of the Kubernetes
-- libraries and of the operating system are parameters.
use clusterprobe.Prelude.{String, ◌≡◌, ◌≢◌, arith, List, [], ◌∷◌, str_eq_iff, if◌then◌else◌}
use clusterprobe.Go.Errors.{GoError, Result, ok, err}
use clusterprobe.Go.Action.{Action, ◌>>=◌, lift, pass, within}
use clusterprobe.Workload.Types.{is_empty}
use clusterprobe.ChaosCtrl.Arguments.{CommandConfig}

-- `C` is the type of configurations of the library, `D` that of its clients.
pub record Env (W C D : Type 0) : Type 0 where
  pub in_cluster_config : W → Result C × W
  pub getenv : String → String
  pub user_home_dir : Result String
  -- `filepath.Join`
  pub join_path : List String → String
  pub client_config : (path context : String) → W → Result C × W
  pub dynamic_client : C → W → Result D × W

module _ {W C D : Type 0} (env : Env W C D) where
  unfoldable pub home_config : Result String
  home_config = elim env.user_home_dir [
    | err e ↦ err (GoError.wrapped "resolve home directory" e)
    | ok home ↦ ok (env.join_path (home ∷ ".kube" ∷ "config" ∷ []))
  ]

  abbrev path_or_home : String → Result String
  path_or_home path = if is_empty path then home_config else ok path

  -- What follows the choice of a path.
  unfoldable pub load_config : (path context : String) → Action W C
  load_config path context = do
    explicit_path ← lift (path_or_home path)
    within "load kubeconfig" (env.client_config explicit_path context)

  abbrev or_variable : (context : String) → Result C × W → Result C × W
  or_variable context (ok c, w) = (ok c, w)
  or_variable context (err e, w) = load_config (env.getenv "KUBECONFIG") context w

  unfoldable pub kubernetes_config : CommandConfig → Action W C
  kubernetes_config cfg w =
      if is_empty cfg.kubeconfig
      then or_variable cfg.context (env.in_cluster_config w)
      else load_config cfg.kubeconfig cfg.context w

  -- The client's namespace is that of the command.
  unfoldable pub new_chaos_client : CommandConfig → Action W (D × String)
  new_chaos_client cfg = do
    config ← kubernetes_config cfg
    client ← within "dynamic client" (env.dynamic_client config)
    pass (client, cfg.namespace)

  -- A kubeconfig that is given by a flag is the one that is loaded, with the context of the flags,
  -- also in a cluster and whatever the environment says.
  pub kubernetes_config_flag :
      (cfg : CommandConfig) (w : W)
      → cfg.kubeconfig ≢ ""
      → kubernetes_config cfg w
        ≡ within "load kubeconfig" (env.client_config cfg.kubeconfig cfg.context) w
  unfolding kubernetes_config load_config
  kubernetes_config_flag cfg w h = grind (arith, str_eq_iff cfg.kubeconfig "")

  -- In a cluster the flag for the context has no effect unless a kubeconfig is given by a flag.
  pub kubernetes_config_context :
      (cfg : CommandConfig) (context : String) (w : W) (c : C)
      → cfg.kubeconfig ≡ ""
      → (env.in_cluster_config w).0 ≡ ok c
      → kubernetes_config (record cfg { context = context }) w ≡ kubernetes_config cfg w
  unfolding kubernetes_config
  kubernetes_config_context cfg context w c h k = grind (arith, str_eq_iff cfg.kubeconfig "")
