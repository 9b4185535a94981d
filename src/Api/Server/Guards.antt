-- ===== src/Api/Server/Guards.antt =====
-- What stands before the handlers: the limiter, and then the authentication.
use k8s_mtp.Common.{
  String, Option, true, false, some, List, ◌≡◌, ◌⊎◌, ◌<>◌, Bool-cases, inl, inr, refl, strip,
}
use k8s_mtp.Settings.{Config}
use k8s_mtp.Limiter.{take, limit_key}
use k8s_mtp.Auth.{Jwk, KeyReply, Verdict, accepted, unauthorized, auth, new_auth_middleware}
use k8s_mtp.Auth.Accepted.{IsVerifying, IsVerified, auth-IsVerified}
use k8s_mtp.Api.{http_error}
use k8s_mtp.Api.Server.{
  api, Route, Request, State, Server, authenticated, limited, passed_on, serve,
}

-- A request under /api/v1 takes a token of the bucket of its remote address, whatever its authorization
-- is and whatever it is answered.
pub serve-buckets :
    (s : Server) (req : Request) (route : Route) (state : State)
    → req.endpoint ≡ api route
    → (serve s req state).1.buckets
      ≡ (take s.limiter req.remote_addr req.made req.now state.buckets).1
unfolding serve limited passed_on limit_key
serve-buckets s req route state e =
    elim (Bool-cases (take s.limiter req.remote_addr req.made req.now state.buckets).0) [
      | inl f ↦ rw (e, serve) (rw (f, limited) refl)
      | inr f ↦ rw (e, serve) (rw (f, limited) refl)
    ]

-- A request under /api/v1 whose remote address has no token left is answered with 429, whatever its
-- authorization is, and the database is left as it is.
serve_limited :
    (s : Server) (req : Request) (route : Route) (state : State)
    → req.endpoint ≡ api route
    → (take s.limiter req.remote_addr req.made req.now state.buckets).0 ≡ false
    → ((serve s req state).0 ≡ http_error "too many requests, no more tokens" 429)
      × ((serve s req state).1.database ≡ state.database)
unfolding serve limited limit_key
serve_limited s req route state e f = rw (e, serve) (rw (f, limited) (refl, refl))

-- A request that the middleware does not accept is answered with 401 or 429, without a statement.
serve_unauthorized :
    (s : Server) (req : Request) (route : Route) (state : State)
    → req.endpoint ≡ api route
    → auth s.jwt s.auth req.authorization ≡ unauthorized
    → (((serve s req state).0.status ≡ 401) ⊎ ((serve s req state).0.status ≡ 429))
      × ((serve s req state).1.database ≡ state.database)
unfolding serve limited passed_on authenticated limit_key
serve_unauthorized s req route state e u =
    elim (Bool-cases (take s.limiter req.remote_addr req.made req.now state.buckets).0) [
      | inl f ↦ rw (e, serve) (rw (f, limited) (rw (u, authenticated) (inl refl, refl)))
      | inr f ↦ rw (e, serve) (rw (f, limited) (inr refl, refl))
    ]

-- With authentication on, a request under /api/v1 is answered with 401 or 429 without a statement, or it
-- carries a token, of some user, that is signed under a key that the identity provider published when the
-- server was made and that names the configured issuer and client, where these are not empty.
pub serve-IsVerified :
    (s : Server) (v : IsVerifying s.jwt) (get : String → Option KeyReply) (cfg : Config)
    (req : Request) (route : Route) (state : State)
    → new_auth_middleware s.jwt get cfg ≡ some s.auth
    → cfg.auth_enabled ≡ true
    → req.endpoint ≡ api route
    → ((((serve s req state).0.status ≡ 401) ⊎ ((serve s req state).0.status ≡ 429))
        × ((serve s req state).1.database ≡ state.database))
      ⊎ ((user : String) × (jwks : List Jwk) × (get (cfg.dex_issuer_url <> "/.well-known/jwks.json")
            ≡ some (record { status = 200; keys = some jwks }))
          × IsVerified s.jwt v cfg jwks (strip "Bearer " req.authorization) user)
serve-IsVerified s v get cfg req route state made on e =
    by_verdict (auth s.jwt s.auth req.authorization) refl
  where
    by_verdict :
        (x : Verdict)
        → auth s.jwt s.auth req.authorization ≡ x
        → ((((serve s req state).0.status ≡ 401) ⊎ ((serve s req state).0.status ≡ 429))
            × ((serve s req state).1.database ≡ state.database))
          ⊎ ((user : String) × (jwks : List Jwk) × (get
                  (cfg.dex_issuer_url <> "/.well-known/jwks.json")
                ≡ some (record { status = 200; keys = some jwks }))
              × IsVerified s.jwt v cfg jwks (strip "Bearer " req.authorization) user)
    by_verdict unauthorized u = inl (serve_unauthorized s req route state e u)
    by_verdict (accepted user) u =
        let (jwks, got, verified) =
          auth-IsVerified s.jwt v get cfg s.auth req.authorization user made on u in
        inr (user, jwks, got, verified)
