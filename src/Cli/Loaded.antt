-- ===== src/Cli/Loaded.antt =====
-- cmd/cli: the configuration that was read, and the requests that it is for.
use k8s_mtp.Common.{String, ◌<>◌, ◌≡◌, ◌⊎◌, refl, arith}
use k8s_mtp.Cli.{
  Result, ok, err, FileRead, contents, not_exist, unreadable, Config, HttpRequest, System, Process,
  M, ◌>>=◌, pure, asked,
}
use k8s_mtp.Cli.Client.{load_config, checked_config, first_config, save_config, api_request}
use k8s_mtp.Cli.Login.{token_request}
use k8s_mtp.Cli.Quiet.{QuietAt, Quiet, >>=-QuietAt, >>=-Quiet}

module _ (sys : System) where
  -- A request to the API under the token of the configuration, or one to Dex without it.
  abbrev pub IsFor : Config → HttpRequest → Type 0
  IsFor cfg r =
      ((method path content_type body : String) × (r
          ≡ api_request sys cfg method path content_type body))
      ⊎ ((username password : String) × (r ≡ token_request sys cfg username password))

  pub save_config-Quiet : (path : String) (config : Config) → Quiet (save_config sys path config)
  unfolding save_config
  save_config-Quiet path config =
      >>=-Quiet (asked (sys.mkdir_all (sys.dir path))) _ (λ p. (refl, λ a e. tt)) (λ made. go made)
    where
      after : Result String → M sys (Result (Unit {0}))
      after r = elim r [ err e ↦ pure (err e) | ok text ↦ asked (sys.write_file path text) ]

      marshalled : (r : Result String) → Quiet (after r)
      marshalled (err e) = λ p. (refl, λ a x. tt)
      marshalled (ok text) = λ p. (refl, λ a x. tt)

      go :
          (made : Result (Unit {0}))
          → Quiet (elim made as (λ x. M sys (Result (Unit {0}))) [
            | err e ↦ pure (err e)
            | ok u ↦ after (sys.marshal_config config)
          ])
      go (err e) = λ p. (refl, λ a x. tt)
      go (ok u) = marshalled (sys.marshal_config config)

  -- The configuration was read from the file.
  abbrev pub IsRead : String → sys.World → Config → Type 0
  IsRead path w cfg =
      (text : String) × ((sys.read_file path w).0 ≡ contents text)
      × (checked_config sys text ≡ ok cfg)

  pub load_config-QuietAt :
      (path : String) (p : Process sys)
      → QuietAt
          (λ r. (cfg : Config) → r ≡ ok cfg → IsRead path p.world cfg)
          (load_config sys path)
          p
  unfolding load_config ◌>>=◌
  load_config-QuietAt path p = go (sys.read_file path p.world).0 refl
    where
      q : Process sys
      q = (asked (sys.read_file path) p).1

      failed :
          (e : String) (p' : Process sys)
          → QuietAt
              (λ r. (cfg : Config) → r ≡ ok cfg → IsRead path p.world cfg)
              (pure {sys = sys} {A = Result Config} (err e))
              p'
      failed e p' = (refl, λ a x cfg y. absurd (ground (arith, x, y)))

      text : String
      text = "config created at " <> (path <> ", edit the file and set api_url and dex_url")

      first_saved : Result (Unit {0}) → M sys (Result Config)
      first_saved saved = elim saved [ err e ↦ pure (err e) | ok u ↦ pure (err text) ]

      first :
          (saved : Result (Unit {0})) (p' : Process sys)
          → QuietAt
              (λ r. (cfg : Config) → r ≡ ok cfg → IsRead path p.world cfg)
              (first_saved saved)
              p'
      first (err e) = failed e
      first (ok u) = failed text

      go :
          (file : FileRead)
          → (sys.read_file path p.world).0 ≡ file
          → QuietAt
              (λ r. (cfg : Config) → r ≡ ok cfg → IsRead path p.world cfg)
              (elim file as (λ x. M sys (Result Config)) [
                | contents text ↦ pure (checked_config sys text)
                | unreadable e ↦ pure (err e)
                | not_exist ↦ save_config sys path (first_config sys) >>= first_saved
              ])
              q
      go (contents text) f = (refl, λ a x cfg y. (text, f, cc))
      go (unreadable e) f = failed e q
      go not_exist f =
          >>=-QuietAt (save_config sys path (first_config sys)) first_saved q
            (save_config-Quiet path (first_config sys)) first
