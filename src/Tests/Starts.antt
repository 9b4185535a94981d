-- ===== src/Tests/Starts.antt =====
-- cmd/controller and cmd/api with concrete libraries.
use k8s_mtp.Common.{◌≡◌, ◌⊎◌, ◌↔◌, inl, inr, refl, ap, ◌∙◌}
use k8s_mtp.Common.Int.{pos}
use k8s_mtp.Settings.{Config}
use k8s_mtp.Settings.Usable.{IsUsable}
use k8s_mtp.Settings.Load.{load, panicked}
use k8s_mtp.Manager.{
  step_then, ensure_tls_secret, ensure_deployment, ensure_service,
  ensure_mutating_webhook_configuration, find_then, if_absent, create_secret, create_checked,
  with_ca, webhook_deployment, webhook_service, validating_configuration, mutating_configuration,
  ensure_all, ensure_validating_webhook_config, tls_secret, done,
}
use k8s_mtp.Startup.{
  Sql, ok, err, up_to_date, crashed, returned, pinged, with_lifetime, new_store,
  run_migrations_embedded,
}
use k8s_mtp.Startup.Prepared.{IsPrepared, prepared_ran, closing_same}
use k8s_mtp.Startup.Controller.{
  Runtime, webhook_manager, start_manager, install, set_up, with_manager, run_controller, main,
}
use k8s_mtp.Startup.Installed.{IsStarted, main-IsStarted}
use k8s_mtp.Startup.Crashed.{IsUnmanaged, main-crashed_iff}
use k8s_mtp.Tests.Installs.{Objects, bare, client, certificates, serving}
use k8s_mtp.Tests.Sources.{system, made, made_loaded}

-- A database that answers, with migrations to run.
abbrev sql : Sql Objects
sql = record {
  Db = Unit {0};
  Driver = Unit {0};
  Source = Unit {0};
  Migrator = Unit {0};
  open_db = λ url w. (ok tt, w);
  set_max_open_conns = λ db n w. w;
  set_max_idle_conns = λ db n w. w;
  parse_duration = λ text. ok (pos 3600);
  set_conn_max_lifetime = λ db d w. w;
  ping = λ db w. (ok tt, w);
  close = λ db w. w;
  with_instance = λ db w. (ok tt, w);
  embedded = ok tt;
  new_with_instance = λ source driver w. (ok tt, w);
  new_with_database_instance = λ path driver w. (ok tt, w);
  up = λ m w. (up_to_date, w);
}

abbrev runtime : Runtime Objects
runtime = record {
  RestConfig = Unit {0};
  Manager = Unit {0};
  get_config = λ w. (ok tt, w);
  new_manager = λ config w. (ok tt, w);
  setup_with_manager = λ m w. (ok tt, w);
  new_client = λ m w. (ok tt, w);
  start = λ m w. (ok tt, w);
}

made-IsPrepared : IsPrepared sql (load system "") bare made tt bare
unfolding new_store with_lifetime pinged run_migrations_embedded
made-IsPrepared = record { configured = made_loaded; connected_to = refl; current = inl refl }

installed : (ensure_all client certificates (webhook_manager made) bare).0 ≡ done
unfolding ensure_all step_then ensure_tls_secret ensure_deployment ensure_service
    ensure_validating_webhook_config ensure_mutating_webhook_configuration find_then if_absent
    create_secret create_checked with_ca tls_secret webhook_deployment webhook_service
    validating_configuration mutating_configuration
installed = refl

ran : (run_controller client certificates sql runtime made tt bare).0 ≡ returned
unfolding run_controller with_manager set_up install start_manager
ran = rw (installed, install) refl

main_returned : (main client certificates sql runtime system "" bare).0 ≡ returned
unfolding main
main_returned =
    ap (λ x. x.0)
      (prepared_ran sql (run_controller client certificates sql runtime) (load system "") bare made
        tt bare made-IsPrepared)
    ∙ (closing_same sql tt (run_controller client certificates sql runtime made tt bare) ∙ ran)

main-IsStarted_example :
    (cfg : Config) × (db : Unit {0}) × (w' : Objects) × IsPrepared sql
      (load system "")
      bare
      cfg
      db
      w'
    × IsUsable cfg
    × (started : IsStarted client serving certificates sql runtime cfg
        (run_controller client certificates sql runtime cfg db w'))
    × ((main client certificates sql runtime system "" bare).1 ≡ started.world)
main-IsStarted_example =
    main-IsStarted client serving certificates sql runtime system "" bare main_returned

-- No manager can be made.
abbrev unmanaged : Runtime Objects
unmanaged = record runtime { new_manager = λ config w. (err "no cluster", w) }

main-crashed_iff_example : ((main client certificates sql unmanaged system "" bare).0 ≡ crashed) ↔ (
    (load system "" ≡ panicked)
    ⊎ ((cfg : Config) × (db : Unit {0}) × (w' : Objects) × IsPrepared sql
          (load system "")
          bare
          cfg
          db
          w'
        × IsUnmanaged client certificates sql unmanaged w'))
main-crashed_iff_example = main-crashed_iff client certificates sql unmanaged system "" bare

panics : (main client certificates sql unmanaged system "" bare).0 ≡ crashed
panics =
    (main-crashed_iff client certificates sql unmanaged system "" bare).1
      (inr (made, tt, bare, made-IsPrepared, (tt, "no cluster", refl, refl)))
