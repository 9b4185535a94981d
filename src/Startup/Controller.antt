-- ===== src/Startup/Controller.antt =====
-- cmd/controller/main.go.
use k8s_mtp.Common.{String}
use k8s_mtp.Settings.{Config}
use k8s_mtp.Settings.Load.{System, load}
use k8s_mtp.Manager.{Client, Certificates, WebhookManager, done, failed, failed_api, ensure_all}
use k8s_mtp.Startup.{Result, ok, err, Sql, Ending, exited, crashed, returned, prepared}

-- controller-runtime, as a parameter: `get_config` is `GetConfigOrDie`, which leaves the process where
-- it finds none, and `new_client` makes the client that goes to the API server directly.
pub record Runtime (World : Type 0) : Type 1 where
  pub RestConfig : Type 0
  pub Manager : Type 0
  pub get_config : World → Result RestConfig × World
  pub new_manager : RestConfig → World → Result Manager × World
  pub setup_with_manager : Manager → World → Result (Unit {0}) × World
  pub new_client : Manager → World → Result (Unit {0}) × World
  pub start : Manager → World → Result (Unit {0}) × World

abbrev pub webhook_manager : Config → WebhookManager
webhook_manager cfg = record { namespace = "k8s-mtp"; image = cfg.webhook_image }

module _ (c : Client) (certs : Certificates) (sql : Sql (c.World)) (rt : Runtime (c.World)) where
  open c use {World}
  open rt use {Manager}

  -- `if err != nil { os.Exit(1) }`, and then the rest.
  abbrev pub checked :
      {A : Type 0} → (A → World → Ending × World) → Result A × World → Ending × World
  checked rest (err e, w) = (exited 1, w)
  checked rest (ok a, w) = rest a w

  unfoldable pub start_manager : Manager → World → Ending × World
  start_manager mgr w = checked (λ u w'. (returned, w')) (rt.start mgr w)

  unfoldable pub install : Config → Manager → World → Ending × World
  unfolding start_manager
  install cfg mgr w =
      let (outcome, w') = ensure_all c certs (webhook_manager cfg) w in
      elim outcome [
        | done ↦ start_manager mgr w'
        | failed e ↦ (exited 1, w')
        | failed_api e cause ↦ (exited 1, w')
      ]

  unfoldable pub set_up : Config → Manager → World → Ending × World
  unfolding install
  set_up cfg mgr w =
      checked (λ u w1. checked (λ v w2. install cfg mgr w2) (rt.new_client mgr w1))
        (rt.setup_with_manager mgr w)

  -- An error of `NewManager` is logged only, and the nil manager is used next.
  unfoldable pub with_manager : Config → Result Manager × World → Ending × World
  unfolding set_up
  with_manager cfg (err e, w) = (crashed, w)
  with_manager cfg (ok mgr, w) = set_up cfg mgr w

  -- What follows the migrations.
  unfoldable pub run_controller : Config → sql.Db → World → Ending × World
  unfolding with_manager
  run_controller cfg db w =
      checked (λ config w'. with_manager cfg (rt.new_manager config w')) (rt.get_config w)

  unfoldable pub main : System → String → World → Ending × World
  unfolding prepared run_controller
  main sys file w = prepared sql run_controller (load sys file) w
