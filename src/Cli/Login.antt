-- ===== src/Cli/Login.antt =====
-- cmd/cli/login.go and cmd/cli/main.go.
use k8s_mtp.Common.{ℕ, String, not, List, [], ◌∷◌, ◌==◌, ◌<>◌, nat_eq, if◌then◌else◌}
use k8s_mtp.Cli.{
  Result, ok, err, Config, HttpRequest, System, Ended, went, exited, Process, M, ◌>>=◌, ◌>>◌, pure,
  exit, print_out, print_err, fail_with, asked, or_fail,
}
use k8s_mtp.Cli.Client.{load_config, save_config}
use k8s_mtp.Cli.Tenants.{tenant_cmd}
use k8s_mtp.Cli.Members.{member_cmd}

module _ (sys : System) where
  open sys use {Body}

  abbrev pub token_form : String → String → List (String × String)
  token_form username password =
      ("grant_type", "password")
      ∷ ("username", username)
      ∷ ("password", password)
      ∷ ("scope", "openid")
      ∷ []

  unfoldable pub token_request : Config → String → String → HttpRequest
  token_request cfg username password = record {
    method = "POST";
    url = cfg.dex_url <> "/token";
    authorization = "Basic " <> sys.base64 (cfg.client_id <> ":");
    content_type = "application/x-www-form-urlencoded";
    body = sys.encode_form (token_form username password);
  }

  -- `http.NewRequest` and `Do`, with an error text for each.
  unfoldable pub ask_token : HttpRequest → M sys (ℕ × Body)
  unfolding or_fail
  ask_token r = do
    or_fail (λ e. "Error requesting the token: " <> (e <> "\n")) (sys.new_request r)
    answer ← k8s_mtp.Cli.do_request r
    or_fail (λ e. "Error requesting auth: " <> (e <> "\n")) answer

  unfoldable pub save_token : String → Config → String → M sys (Unit {0})
  unfolding save_config or_fail
  save_token config_path cfg token = do
    saved ← save_config sys config_path (record cfg { token = token })
    or_fail (λ e. "Error saving config\n") saved
    print_out ("Configuration saved to " <> config_path)

  unfoldable pub read_token : ℕ × Body → M sys String
  unfolding or_fail fail_with
  read_token (status, body) =
      if not (nat_eq status 200)
      then fail_with ("Expected status 200, instead got " <> sys.decimal status)
      else or_fail (λ e. "Error decoding the json response\n") (sys.decode_token body)

  unfoldable pub login_cmd : String → M sys (Unit {0})
  unfolding load_config or_fail token_request ask_token read_token save_token
  login_cmd config_path = do
    loaded ← load_config sys config_path
    cfg ← or_fail (λ e. "Error loading config") loaded
    print_out "Username: "
    line ← asked sys.scan_line
    username ← or_fail (λ e. "Error reading the username") line
    print_out "Password: "
    secret ← asked sys.read_password
    password ← or_fail (λ e. "Error reading password: " <> (e <> "\n")) secret
    print_out "\n"
    response ← ask_token (token_request cfg username password)
    token ← read_token response
    save_token config_path cfg token

  abbrev pub print_usage : M sys (Unit {0})
  print_usage = print_err "Usage: \nk8s-mtp login Authenticate with Dex\n"

  -- The switch on the first argument.
  unfoldable pub command : String → String → List String → M sys (Unit {0})
  unfolding login_cmd tenant_cmd member_cmd
  command config_path name args =
      if name == "login"
      then login_cmd config_path
      else if name == "tenant"
      then tenant_cmd sys config_path args
      else if name == "member"
      then member_cmd sys config_path args
      else print_usage

  -- `main`, with what `flag.Args` gives.
  unfoldable pub main : List String → M sys (Unit {0})
  unfolding command or_fail
  main [] = do print_usage; exit 1
  main (name ∷ args) = do
    home ← or_fail (λ e. "failed to ascertain home dir") sys.user_home_dir
    command (sys.join (sys.join home ".k8s-mtp") "config") name args
