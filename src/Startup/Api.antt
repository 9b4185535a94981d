-- ===== src/Startup/Api.antt =====
-- cmd/api/main.go, with NewServer of internal/server/server.go.
use k8s_mtp.Common.{ℕ, String, Option, none, some}
use k8s_mtp.Settings.{Config}
use k8s_mtp.Settings.Load.{System, load}
use k8s_mtp.Auth.{Jwt, KeyReply, AuthMiddleware, new_auth_middleware}
use k8s_mtp.Limiter.{new_rate_limiter}
use k8s_mtp.Store.{Postgres}
use k8s_mtp.Api.Server.{Server}
use k8s_mtp.Startup.{Result, ok, err, Sql, Ending, exited, returned, prepared}

-- How the wait of `main` ends: by an interrupt, or by an error of `Start` in the other goroutine.
pub data Waited : Type 0 where
  interrupted : Waited
  server_error : String → Waited

-- net/http and os/signal, as a parameter: `get` asks the identity provider for its keys, `serve` answers
-- requests on an address until the wait ends, and `shutdown` gives what is under way ten seconds.
pub record Network (World : Type 0) : Type 1 where
  pub jwt : Jwt
  pub rfc3339 : ℕ → String
  pub get : String → Option KeyReply
  pub serve : String → Server → World → Waited × World
  pub shutdown : World → Result (Unit {0}) × World

module _ {World : Type 0} (sql : Sql World) (net : Network World) (pg : sql.Db → Postgres) where
  unfoldable pub new_server : Config → sql.Db → AuthMiddleware → Server
  new_server cfg db auth = record {
    jwt = net.jwt;
    postgres = pg db;
    rfc3339 = net.rfc3339;
    limiter = new_rate_limiter cfg;
    auth = auth;
  }

  unfoldable pub stop : Waited × World → Ending × World
  stop (server_error e, w) = (exited 1, w)
  stop (interrupted, w) =
      let (answer, w') = net.shutdown w in
      elim answer [ err e ↦ (exited 1, w') | ok u ↦ (returned, w') ]

  -- What follows the migrations. The other constructors never give nil.
  unfoldable pub run_api : Config → sql.Db → World → Ending × World
  unfolding new_server stop
  run_api cfg db w = elim (new_auth_middleware net.jwt net.get cfg) [
    | none ↦ (exited 1, w)
    | some auth ↦ stop (net.serve cfg.listen_addr (new_server cfg db auth) w)
  ]

  unfoldable pub main : System → String → World → Ending × World
  unfolding prepared run_api
  main sys file w = prepared sql run_api (load sys file) w
