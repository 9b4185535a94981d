-- ===== src/Cli/Sent.antt =====
-- cmd/cli: the request of a run of the tool.
use k8s_mtp.Common.{String, List, [], ◌∷◌, ◌==◌, ◌≡◌, ◌⊎◌, inl, inr, refl, Bool-cases}
use k8s_mtp.Cli.{
  Result, ok, err, Config, HttpRequest, System, Process, M, ◌>>=◌, asked, print_out, or_fail,
  fail_with,
}
use k8s_mtp.Cli.Client.{load_config}
use k8s_mtp.Cli.Tenants.{tenant_arguments, tenant_cmd, line_of}
use k8s_mtp.Cli.Members.{member_arguments, member_cmd}
use k8s_mtp.Cli.Login.{token_request, read_token, save_token, ask_token, login_cmd, command, main}
use k8s_mtp.Cli.Quiet.{
  Quiet, SendsAt, >>=-Quiet, >>=-SendsAt, SendsAt->>=, or_fail-QuietAt, or_fail-Quiet,
  print_out-Quiet,
}
use k8s_mtp.Cli.Loaded.{IsFor, IsRead, load_config-QuietAt}
use k8s_mtp.Cli.Intended.{
  tenant_arguments-SendsAt, member_arguments-SendsAt, ask_token-SendsAt, read_token-Quiet,
  save_token-Quiet,
}

module _ (sys : System) where
  -- The request is for the configuration that the file has.
  abbrev pub IsIntended : String → sys.World → HttpRequest → Type 0
  IsIntended path w r = (cfg : Config) × IsRead sys path w cfg × IsFor sys cfg r

  -- What follows the reading of the configuration.
  loaded-SendsAt :
      (path : String) (p : Process sys) (text : String → String) (rest : Config → M sys (Unit {0}))
      → ((S : HttpRequest → Type 0) (cfg : Config) (q : Process sys)
          → ((r : HttpRequest) → IsFor sys cfg r → S r)
          → SendsAt S (rest cfg) q)
      → SendsAt
          (IsIntended path p.world)
          (load_config sys path >>= (λ loaded. or_fail text loaded >>= rest))
          p
  loaded-SendsAt path p text rest h =
      >>=-SendsAt (IsIntended path p.world) (load_config sys path) _ p
        (load_config-QuietAt sys path p)
        (λ loaded q p'.
          >>=-SendsAt (IsIntended path p.world) (or_fail text loaded) rest p'
            (or_fail-QuietAt text loaded p')
            (λ cfg e p''. h (IsIntended path p.world) cfg p'' (λ r f. (cfg, q cfg e, f))))

  tenant_cmd-SendsAt :
      (path : String) (args : List String) (p : Process sys)
      → SendsAt (IsIntended path p.world) (tenant_cmd sys path args) p
  unfolding tenant_cmd
  tenant_cmd-SendsAt path args p =
      loaded-SendsAt path p (line_of sys "Error") (λ cfg. tenant_arguments sys cfg args)
        (λ S cfg q h.
          tenant_arguments-SendsAt sys S cfg args q (λ m u t b. h _ (inl (m, u, t, b, refl))))

  member_cmd-SendsAt :
      (path : String) (args : List String) (p : Process sys)
      → SendsAt (IsIntended path p.world) (member_cmd sys path args) p
  unfolding member_cmd
  member_cmd-SendsAt path args p =
      loaded-SendsAt path p (line_of sys "Error") (λ cfg. member_arguments sys cfg args)
        (λ S cfg q h.
          member_arguments-SendsAt sys S cfg args q (λ m u t b. h _ (inl (m, u, t, b, refl))))

  -- The end of `loginCmd`.
  token_asked : String → Config → String → String → M sys (Unit {0})
  token_asked path cfg username password = do
    response ← ask_token sys (token_request sys cfg username password)
    token ← read_token sys response
    save_token sys path cfg token

  token_asked-SendsAt :
      (S : HttpRequest → Type 0) (path : String) (cfg : Config) (username password : String)
      (p : Process sys)
      → S (token_request sys cfg username password)
      → SendsAt S (token_asked path cfg username password) p
  unfolding token_asked
  token_asked-SendsAt S path cfg username password p s =
      SendsAt->>= S (ask_token sys (token_request sys cfg username password)) _ p
        (ask_token-SendsAt sys S (token_request sys cfg username password) p s)
        (λ (status, body).
          >>=-Quiet (read_token sys (status, body)) _ (read_token-Quiet sys status body)
            (save_token-Quiet sys path cfg))

  behind :
      {A B : Type 0} (S : HttpRequest → Type 0) (m : M sys A) (f : A → M sys B) (p : Process sys)
      → Quiet m
      → ((a : A) (q : Process sys) → SendsAt S (f a) q)
      → SendsAt S (m >>= f) p
  behind S m f p h k = >>=-SendsAt S m f p (h p) (λ a x q. k a q)

  login_cmd-SendsAt :
      (path : String) (p : Process sys) → SendsAt (IsIntended path p.world) (login_cmd sys path) p
  unfolding login_cmd token_asked
  login_cmd-SendsAt path p = loaded-SendsAt path p _ _ (λ S cfg p1 h.
      behind S (print_out "Username: ") _ p1 (print_out-Quiet "Username: ") (λ u p2.
        behind S (asked sys.scan_line) _ p2 (λ q. (refl, λ a x. tt))
          (λ line p3. behind S (or_fail _ line) _ p3 (or_fail-Quiet _ line) (λ username p4.
            behind S (print_out "Password: ") _ p4 (print_out-Quiet "Password: ") (λ v p5.
              behind S (asked sys.read_password) _ p5 (λ q. (refl, λ a x. tt))
                (λ secret p6.
                  behind S (or_fail _ secret) _ p6 (or_fail-Quiet _ secret) (λ password p7.
                    behind S (print_out "\n") _ p7 (print_out-Quiet "\n") (λ w p8.
                      token_asked-SendsAt S path cfg username password p8
                        (h _ (inr (username, password, refl)))))))))))

  command-SendsAt :
      (path name : String) (args : List String) (p : Process sys)
      → SendsAt (IsIntended path p.world) (command sys path name args) p
  unfolding command
  command-SendsAt path name args p = elim (Bool-cases (name == "login")) [
    | inl e ↦ rw e (login_cmd-SendsAt path p)
    | inr e ↦ elim (Bool-cases (name == "tenant")) [
      | inl f ↦ rw (e, f) (tenant_cmd-SendsAt path args p)
      | inr f ↦ elim (Bool-cases (name == "member")) [
        | inl g ↦ rw (e, f, g) (member_cmd-SendsAt path args p)
        | inr g ↦ rw (e, f, g) (inl refl)
      ]
    ]
  ]

  -- The file of the configuration in the home directory.
  abbrev pub config_path : String → String
  config_path home = sys.join (sys.join home ".k8s-mtp") "config"

  -- A run of the tool sends no request, or one. That one is for the configuration that the file in the home
  -- directory has at the start, which can be read and names both servers: it goes to the
  -- API under the configuration's token, or to Dex for a token, without the configuration's.
  pub main_sent :
      (args : List String) (p : Process sys)
      → ((main sys args p).1.requests ≡ p.requests)
        ⊎ ((r : HttpRequest) × ((home : String) × (sys.user_home_dir ≡ ok home)
              × IsIntended (config_path home) p.world r)
            × ((main sys args p).1.requests ≡ r ∷ p.requests))
  unfolding main ◌>>=◌ or_fail fail_with
  main_sent [] p = inl refl
  main_sent (name ∷ args) p = go sys.user_home_dir refl
    where
      run : Result String → M sys (Unit {0})
      run r = do
        home ← or_fail (λ e. "failed to ascertain home dir") r
        command sys (config_path home) name args

      go :
          (r : Result String)
          → sys.user_home_dir ≡ r
          → ((run r p).1.requests ≡ p.requests)
            ⊎ ((q : HttpRequest) × ((home : String) × (sys.user_home_dir ≡ ok home)
                  × IsIntended (config_path home) p.world q)
                × ((run r p).1.requests ≡ q ∷ p.requests))
      go (err e) h = inl refl
      go (ok home) h = elim (command-SendsAt (config_path home) name args p) [
        | inl e ↦ inl e
        | inr (q, i, e) ↦ inr (q, (home, h, i), e)
      ]
