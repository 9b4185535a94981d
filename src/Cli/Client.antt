-- ===== src/Cli/Client.antt =====
-- cmd/cli/client.go.
use k8s_mtp.Common.{ℕ, String, ◌||◌, not, ◌==◌, ◌<>◌, if◌then◌else◌, ltb, leb, nat_eq}
use k8s_mtp.Cli.{
  Result, ok, err, contents, not_exist, unreadable, Config, HttpRequest, System, M, ◌>>=◌, pure,
  fail_with, asked, do_request,
}

module _ (sys : System) where
  open sys use {World, Body}

  -- An error of the configuration's file ends `saveConfig`.
  unfoldable pub save_config : String → Config → M sys (Result (Unit {0}))
  save_config path config = do
    made ← asked (sys.mkdir_all (sys.dir path))
    elim made [
      | err e ↦ pure (err e)
      | ok _ ↦ elim (sys.marshal_config config) [
        | err e ↦ pure (err e)
        | ok text ↦ asked (sys.write_file path text)
      ]
    ]

  abbrev pub first_config : Config
  first_config = record { dex_url = ""; api_url = ""; client_id = "k8s-mtp-cli"; token = "" }

  unfoldable pub checked_config : String → Result Config
  checked_config text = elim (sys.unmarshal_config text) [
    | err e ↦ err e
    | ok config ↦
        if config.api_url == "" || config.dex_url == ""
        then err "issue with the imported configuration, check the fields"
        else ok config
  ]

  -- Where there is no file the code returns a configuration and an error, which its callers look at first.
  unfoldable pub load_config : String → M sys (Result Config)
  unfolding save_config checked_config
  load_config path = do
    file ← asked (sys.read_file path)
    elim file [
      | contents text ↦ pure (checked_config text)
      | unreadable e ↦ pure (err e)
      | not_exist ↦ do
        saved ← save_config path first_config
        elim saved [
          | err e ↦ pure (err e)
          | ok _ ↦ pure (
              err ("config created at " <> (path <> ", edit the file and set api_url and dex_url")))
        ]
    ]

  unfoldable pub send_request : HttpRequest → M sys (Result (ℕ × Body))
  send_request r = elim (sys.new_request r) [ err e ↦ pure (err e) | ok _ ↦ do_request r ]

  -- `apiGet`, `apiPost`, `apiPut` and `apiDelete` differ in the method, and the two with a body in
  -- the header for its type.
  abbrev pub api_request : Config → String → String → String → String → HttpRequest
  api_request config method path content_type body = record {
    method = method;
    url = config.api_url <> path;
    authorization = "Bearer " <> config.token;
    content_type = content_type;
    body = body;
  }

  unfoldable pub api_get : Config → String → M sys (Result (ℕ × Body))
  unfolding send_request
  api_get config path = send_request (api_request config "GET" path "" "")

  unfoldable pub api_post : Config → String → String → M sys (Result (ℕ × Body))
  unfolding send_request
  api_post config path body = send_request (api_request config "POST" path "application/json" body)

  unfoldable pub api_put : Config → String → String → M sys (Result (ℕ × Body))
  unfolding send_request
  api_put config path body = send_request (api_request config "PUT" path "application/json" body)

  unfoldable pub api_delete : Config → String → M sys (Result (ℕ × Body))
  unfolding send_request
  api_delete config path = send_request (api_request config "DELETE" path "" "")

  -- The body is closed when the function returns, and what it returns here is the closed body.
  unfoldable pub handle_response : ℕ × Body → M sys Body
  handle_response (status, body) =
      if nat_eq status 401
      then fail_with "Token expired. Run: k8s-mtp login\n"
      else if ltb status 200 || leb 300 status
      then (if not (sys.decode_error body == "")
          then fail_with ("Error: " <> (sys.decode_error body <> "\n"))
          else fail_with ("Request failed: " <> (sys.decimal status <> "\n")))
      else pure (sys.close body)
