-- ===== src/Startup/Crashed.antt =====
-- cmd/controller/main.go: when the program panics.
use k8s_mtp.Common.{String, ◌≡◌, ◌≢◌, ◌⊎◌, ◌↔◌, inl, inr, refl, ap, ◌∙◌, sym, arith}
use k8s_mtp.Settings.{Config}
use k8s_mtp.Settings.Load.{System, panicked, load}
use k8s_mtp.Manager.{Client, Certificates, Outcome, done, failed, failed_api, ensure_all}
use k8s_mtp.Startup.{Result, ok, err, Sql, Ending, exited, crashed, returned, prepared}
use k8s_mtp.Startup.Prepared.{IsPrepared, closing_same, prepared_ran, prepared_cases}
use k8s_mtp.Startup.Controller.{
  Runtime, webhook_manager, checked, start_manager, install, set_up, with_manager, run_controller,
  main,
}

module _ (c : Client) (certs : Certificates) (sql : Sql (c.World)) (rt : Runtime (c.World)) where
  checked-crashed :
      {A : Type 0} (rest : A → c.World → Ending × c.World) (x : Result A × c.World)
      → ((a : A) (w : c.World) → (rest a w).0 ≢ crashed)
      → (checked c certs sql rt rest x).0 ≢ crashed
  checked-crashed rest (err e, w) h = λ f. absurd (ground (arith, f))
  checked-crashed rest (ok a, w) h = h a w

  install-crashed :
      (cfg : Config) (mgr : rt.Manager) (w : c.World)
      → (install c certs sql rt cfg mgr w).0 ≢ crashed
  unfolding install start_manager
  install-crashed cfg mgr w = go (ensure_all c certs (webhook_manager cfg) w)
    where
      go :
          (x : Outcome × c.World)
          → (elim x.0 as (λ o. Ending × c.World) [
            | done ↦ start_manager c certs sql rt mgr x.1
            | failed e ↦ (exited 1, x.1)
            | failed_api e cause ↦ (exited 1, x.1)
          ]).0
            ≢ crashed
      go (done, w') =
          checked-crashed (λ u w2. (returned, w2)) (rt.start mgr w')
            (λ u w2 f. absurd (ground (arith, f)))
      go (failed e, w') = λ f. absurd (ground (arith, f))
      go (failed_api e cause, w') = λ f. absurd (ground (arith, f))

  -- A manager that was made does not make the program panic.
  set_up-crashed :
      (cfg : Config) (mgr : rt.Manager) (w : c.World)
      → (set_up c certs sql rt cfg mgr w).0 ≢ crashed
  unfolding set_up
  set_up-crashed cfg mgr w =
      checked-crashed _ (rt.setup_with_manager mgr w)
        (λ u w1. checked-crashed _ (rt.new_client mgr w1) (λ v w2. install-crashed cfg mgr w2))

  -- `NewManager` fails.
  abbrev pub IsUnmanaged : c.World → Type 0
  IsUnmanaged w =
      (config : rt.RestConfig) × (e : String) × ((rt.get_config w).0 ≡ ok config)
      × ((rt.new_manager config (rt.get_config w).1).0 ≡ err e)

  with_manager-crashed :
      (cfg : Config) (x : Result (rt.Manager) × c.World)
      → ((with_manager c certs sql rt cfg x).0 ≡ crashed) ↔ ((e : String) × (x.0 ≡ err e))
  unfolding with_manager
  with_manager-crashed cfg (err e, w) = ((λ f. (e, refl)), (λ f. refl))
  with_manager-crashed cfg (ok mgr, w) =
      ((λ f. absurd (set_up-crashed cfg mgr w f)), (λ (e, f). absurd (ground (arith, f))))

  run_controller-crashed :
      (cfg : Config) (db : sql.Db) (w : c.World)
      → ((run_controller c certs sql rt cfg db w).0 ≡ crashed) ↔ IsUnmanaged w
  unfolding run_controller
  run_controller-crashed cfg db w = go (rt.get_config w)
    where
      go :
          (x : Result (rt.RestConfig) × c.World)
          → ((checked c certs sql rt
                (λ config w'. with_manager c certs sql rt cfg (rt.new_manager config w'))
                x).0
              ≡ crashed)
            ↔ ((config : rt.RestConfig) × (e : String) × (x.0 ≡ ok config)
                × ((rt.new_manager config x.1).0 ≡ err e))
      go (err e, w') =
          ((λ f. absurd (ground (arith, f))), (λ (config, e', f, g). absurd (ground (arith, f))))
      go (ok config, w') = (
        (λ f.
            let (e, g) = (with_manager-crashed cfg (rt.new_manager config w')).0 f in
            (config, e, refl, g)),
        (λ (other, e, f, g). (with_manager-crashed cfg (rt.new_manager config w')).1 (e, cc)),
      )

  -- The controller panics exactly when the loading of its configuration does, or when the configuration,
  -- the database and the migrations are fine and the manager cannot be made.
  pub main-crashed_iff :
      (sys : System) (file : String) (w : c.World)
      → ((main c certs sql rt sys file w).0 ≡ crashed) ↔ (
          (load sys file ≡ panicked)
          ⊎ ((cfg : Config) × (db : sql.Db) × (w' : c.World) × IsPrepared sql
                (load sys file)
                w
                cfg
                db
                w'
              × IsUnmanaged w'))
  unfolding main
  main-crashed_iff sys file w = (forth, back)
    where
      run : Config → sql.Db → c.World → Ending × c.World
      run = run_controller c certs sql rt

      ran :
          (cfg : Config) (db : sql.Db) (w' : c.World)
          → IsPrepared sql (load sys file) w cfg db w'
          → (prepared sql run (load sys file) w).0 ≡ (run cfg db w').0
      ran cfg db w' h =
          ap (λ x. x.0) (prepared_ran sql run (load sys file) w cfg db w' h)
          ∙ closing_same sql db (run cfg db w')

      forth :
          (prepared sql run (load sys file) w).0 ≡ crashed
          → (load sys file ≡ panicked)
            ⊎ ((cfg : Config) × (db : sql.Db) × (w' : c.World) × IsPrepared sql
                  (load sys file)
                  w
                  cfg
                  db
                  w'
                × IsUnmanaged w')
      forth f = elim (prepared_cases sql run (load sys file) w) [
        | inl (cfg, db, w', h) ↦
            inr (cfg, db, w', h, (run_controller-crashed cfg db w').0 (sym (ran cfg db w' h) ∙ f))
        | inr (inl e) ↦ absurd (ground (arith, e, f))
        | inr (inr (e, g)) ↦ inl e
      ]

      back :
          (load sys file ≡ panicked)
            ⊎ ((cfg : Config) × (db : sql.Db) × (w' : c.World) × IsPrepared sql
                  (load sys file)
                  w
                  cfg
                  db
                  w'
                × IsUnmanaged w')
          → (prepared sql run (load sys file) w).0 ≡ crashed
      back (inl e) = ap (λ l. (prepared sql run l w).0) e
      back (inr (cfg, db, w', h, u)) = ran cfg db w' h ∙ (run_controller-crashed cfg db w').1 u
