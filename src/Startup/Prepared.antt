-- ===== src/Startup/Prepared.antt =====
-- The start that cmd/controller and cmd/api share.
use k8s_mtp.Common.{◌≡◌, ◌⊎◌, inl, inr, refl, ap, ◌∙◌, arith}
use k8s_mtp.Settings.{Config}
use k8s_mtp.Settings.Load.{Loaded, loaded, load_error, panicked}
use k8s_mtp.Startup.{
  Result, ok, err, Migrated, up_to_date, no_change, migrate_error, Sql, Ending, exited, crashed,
  returned, new_store, run_migrations_embedded, closing, migrated, connected, prepared,
}

module _ {World : Type 0} (sql : Sql World) where
  -- The start has got to the end of the migrations: the configuration is loaded, the database is connected,
  -- and its schema is up to date.
  pub record IsPrepared (l : Loaded) (w : World) (cfg : Config) (db : sql.Db) (w' : World)
      : Type 0 where
    pub configured : l ≡ loaded cfg
    pub connected_to : (new_store sql cfg w).0 ≡ ok db
    pub current :
        (run_migrations_embedded sql db (new_store sql cfg w).1 ≡ (up_to_date, w'))
        ⊎ (run_migrations_embedded sql db (new_store sql cfg w).1 ≡ (no_change, w'))

  pub closing_same : (db : sql.Db) (x : Ending × World) → (closing sql db x).0 ≡ x.0
  unfolding closing
  closing_same db (exited n, w) = refl
  closing_same db (crashed, w) = refl
  closing_same db (returned, w) = refl

  pub closing_returned :
      (db : sql.Db) (x : Ending × World) → x.0 ≡ returned → (closing sql db x).1 ≡ sql.close db x.1
  unfolding closing
  closing_returned db (exited n, w) e = absurd (ground (arith, e))
  closing_returned db (crashed, w) e = refl
  closing_returned db (returned, w) e = refl

  pub prepared_ran :
      (rest : Config → sql.Db → World → Ending × World) (l : Loaded) (w : World) (cfg : Config)
      (db : sql.Db) (w' : World)
      → IsPrepared l w cfg db w'
      → prepared sql rest l w ≡ closing sql db (rest cfg db w')
  unfolding prepared connected migrated
  prepared_ran rest l w cfg db w' h =
      ap (λ x. prepared sql rest x w) h.configured
      ∙ ap (connected sql (rest cfg)) (pair (new_store sql cfg w) db h.connected_to)
      ∙ (elim h.current [
        | inl e ↦ ap (migrated sql db (rest cfg db)) e
        | inr e ↦ ap (migrated sql db (rest cfg db)) e
      ])
    where
      pair : (x : Result (sql.Db) × World) (d : sql.Db) → x.0 ≡ ok d → x ≡ (ok d, x.1)
      pair (a, y) d e = λ i. (e i, y)

  -- The start gets to its end, or the program leaves with status 1, or the loading panics.
  pub prepared_cases :
      (rest : Config → sql.Db → World → Ending × World) (l : Loaded) (w : World)
      → ((cfg : Config) × (db : sql.Db) × (w' : World) × IsPrepared l w cfg db w')
        ⊎ ((prepared sql rest l w).0 ≡ exited 1)
        ⊎ ((l ≡ panicked) × ((prepared sql rest l w).0 ≡ crashed))
  unfolding prepared
  prepared_cases rest load_error w = inr (inl refl)
  prepared_cases rest panicked w = inr (inr (refl, refl))
  prepared_cases rest (loaded cfg) w = by_store (new_store sql cfg w) refl
    where
      by_migrations :
          (db : sql.Db) (w0 : World) (x : Migrated × World)
          → new_store sql cfg w ≡ (ok db, w0)
          → run_migrations_embedded sql db w0 ≡ x
          → ((c : Config) × (d : sql.Db) × (w' : World) × IsPrepared (loaded cfg) w c d w')
            ⊎ ((migrated sql db (rest cfg db) x).0 ≡ exited 1)
            ⊎ ((loaded cfg ≡ panicked) × ((migrated sql db (rest cfg db) x).0 ≡ crashed))
      by_migrations db w0 (migrate_error e, w1) f g = inr (inl refl)
      by_migrations db w0 (up_to_date, w1) f g = inl (
        cfg,
        db,
        w1,
        record {
          configured = refl;
          connected_to = ap (λ x. x.0) f;
          current = inl (ap (λ x. run_migrations_embedded sql db x.1) f ∙ g);
        },
      )
      by_migrations db w0 (no_change, w1) f g = inl (
        cfg,
        db,
        w1,
        record {
          configured = refl;
          connected_to = ap (λ x. x.0) f;
          current = inr (ap (λ x. run_migrations_embedded sql db x.1) f ∙ g);
        },
      )

      by_store :
          (x : Result (sql.Db) × World)
          → new_store sql cfg w ≡ x
          → ((c : Config) × (d : sql.Db) × (w' : World) × IsPrepared (loaded cfg) w c d w')
            ⊎ ((connected sql (rest cfg) x).0 ≡ exited 1)
            ⊎ ((loaded cfg ≡ panicked) × ((connected sql (rest cfg) x).0 ≡ crashed))
      by_store (err e, w0) f = inr (inl refl)
      by_store (ok db, w0) f = by_migrations db w0 (run_migrations_embedded sql db w0) f refl
