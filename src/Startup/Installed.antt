-- ===== src/Startup/Installed.antt =====
-- cmd/controller/main.go: what holds when the manager runs.
use k8s_mtp.Common.{String, ◌≡◌, inl, inr, refl, ap, ◌∙◌, sym, subst, arith}
use k8s_mtp.Settings.{Config}
use k8s_mtp.Settings.Load.{System, load}
use k8s_mtp.Settings.Usable.{IsUsable}
use k8s_mtp.Settings.Sources.{load-IsUsable}
use k8s_mtp.Manager.{Client, Certificates, Outcome, done, failed, failed_api, ensure_all}
use k8s_mtp.Manager.Serving.{IsServing}
use k8s_mtp.Manager.Ensured.{IsInstalled, ensure_all-IsInstalled}
use k8s_mtp.Startup.{Result, ok, err, Sql, Ending, exited, returned}
use k8s_mtp.Startup.Prepared.{
  IsPrepared, closing_same, closing_returned, prepared_ran, prepared_cases,
}
use k8s_mtp.Startup.Controller.{
  Runtime, webhook_manager, checked, start_manager, install, set_up, with_manager, run_controller,
  main,
}

module _ (c : Client) (certs : Certificates) (sql : Sql (c.World)) (rt : Runtime (c.World)) where
  checked-returned :
      {A : Type 0} (rest : A → c.World → Ending × c.World) (x : Result A × c.World)
      → (checked c certs sql rt rest x).0 ≡ returned
      → (a : A) × (w : c.World) × ((rest a w).0 ≡ returned)
        × (checked c certs sql rt rest x ≡ rest a w)
  checked-returned rest (err e, w) f = absurd (ground (arith, f))
  checked-returned rest (ok a, w) f = (a, w, f, refl)

module _ (c : Client) (v : IsServing c) (certs : Certificates) (sql : Sql (c.World))
    (rt : Runtime (c.World)) where
  -- The manager was started in a world where the webhook is installed, and the program has ended so.
  pub record IsStarted (cfg : Config) (x : Ending × c.World) : Type 0 where
    pub mgr : rt.Manager
    pub world : c.World
    pub installed : IsInstalled c v certs (webhook_manager cfg) world
    pub ended : x ≡ (returned, (rt.start mgr world).1)

  install-IsStarted :
      (cfg : Config) (mgr : rt.Manager) (w : c.World)
      → (install c certs sql rt cfg mgr w).0 ≡ returned
      → IsStarted cfg (install c certs sql rt cfg mgr w)
  unfolding install start_manager
  install-IsStarted cfg mgr w = go (ensure_all c certs (webhook_manager cfg) w) refl
    where
      started :
          (w' : c.World) (x : Result (Unit {0}) × c.World)
          → rt.start mgr w' ≡ x
          → (checked c certs sql rt (λ u w2. (returned, w2)) x).0 ≡ returned
          → checked c certs sql rt (λ u w2. (returned, w2)) x ≡ (returned, (rt.start mgr w').1)
      started w' (err e, w2) g f = absurd (ground (arith, f))
      started w' (ok u, w2) g f = ap (λ y. (returned, y.1)) (sym g)

      go :
          (x : Outcome × c.World)
          → ensure_all c certs (webhook_manager cfg) w ≡ x
          → (elim x.0 as (λ o. Ending × c.World) [
            | done ↦ start_manager c certs sql rt mgr x.1
            | failed e ↦ (exited 1, x.1)
            | failed_api e cause ↦ (exited 1, x.1)
          ]).0
            ≡ returned
          → IsStarted cfg (elim x.0 as (λ o. Ending × c.World) [
            | done ↦ start_manager c certs sql rt mgr x.1
            | failed e ↦ (exited 1, x.1)
            | failed_api e cause ↦ (exited 1, x.1)
          ])
      go (done, w') g f = record {
        mgr = mgr;
        world = w';
        installed =
            subst (λ y. IsInstalled c v certs (webhook_manager cfg) y.1) g
              (ensure_all-IsInstalled c v certs (webhook_manager cfg) w (ap (λ y. y.0) g));
        ended = started w' (rt.start mgr w') refl f;
      }
      go (failed e, w') g f = absurd (ground (arith, f))
      go (failed_api e cause, w') g f = absurd (ground (arith, f))

  run_controller-IsStarted :
      (cfg : Config) (db : sql.Db) (w : c.World)
      → (run_controller c certs sql rt cfg db w).0 ≡ returned
      → IsStarted cfg (run_controller c certs sql rt cfg db w)
  unfolding run_controller with_manager set_up
  run_controller-IsStarted cfg db w f =
      let (config, w1, f1, e1) = checked-returned c certs sql rt _ (rt.get_config w) f in
      subst (IsStarted cfg) (sym e1) (managed (rt.new_manager config w1) f1)
    where
      managed :
          (x : Result (rt.Manager) × c.World)
          → (with_manager c certs sql rt cfg x).0 ≡ returned
          → IsStarted cfg (with_manager c certs sql rt cfg x)
      managed (err e, w') g = absurd (ground (arith, g))
      managed (ok mgr, w') g =
          let (u, w2, f2, e2) =
            checked-returned c certs sql rt _ (rt.setup_with_manager mgr w') g in
          let (u', w3, f3, e3) = checked-returned c certs sql rt _ (rt.new_client mgr w2) f2 in
          subst (IsStarted cfg) (sym (e2 ∙ e3)) (install-IsStarted cfg mgr w3 f3)

  -- When the controller returns, its configuration is usable, the database was connected and its schema was up
  -- to date, and the manager ran from a world in which the webhook was installed with the image of the
  -- configuration; the connection was closed after it.
  pub main-IsStarted :
      (sys : System) (file : String) (w : c.World)
      → (main c certs sql rt sys file w).0 ≡ returned
      → (cfg : Config) × (db : sql.Db) × (w' : c.World) × IsPrepared sql (load sys file) w cfg db w'
        × IsUsable cfg
        × (started : IsStarted cfg (run_controller c certs sql rt cfg db w')) × ((main c certs sql
              rt sys file w).1
            ≡ sql.close db (rt.start started.mgr started.world).1)
  unfolding main
  main-IsStarted sys file w f = elim (prepared_cases sql run (load sys file) w) [
    | inr (inl e) ↦ absurd (ground (arith, e, f))
    | inr (inr (e, g)) ↦ absurd (ground (arith, g, f))
    | inl (cfg, db, w', h) ↦
        let same = prepared_ran sql run (load sys file) w cfg db w' h in
        let ends = sym (closing_same sql db (run cfg db w')) ∙ (sym (ap (λ x. x.0) same) ∙ f) in
        let started = run_controller-IsStarted cfg db w' ends in
        (
          cfg,
          db,
          w',
          h,
          load-IsUsable sys file cfg h.configured,
          started,
          ap (λ x. x.1) same
              ∙ (closing_returned sql db (run cfg db w') ends
                  ∙ ap (λ x. sql.close db x.1) started.ended),
        )
  ]
    where
      run : Config → sql.Db → c.World → Ending × c.World
      run = run_controller c certs sql rt
