-- ===== src/Cli/Tenants.antt =====
-- cmd/cli/tenant.go.
use k8s_mtp.Common.{ℕ, String, List, [], ◌∷◌, ◌==◌, ◌<>◌, if◌then◌else◌}
use k8s_mtp.Cli.{Result, Config, System, M, ◌>>=◌, print_out, fail_with, or_fail}
use k8s_mtp.Cli.Client.{load_config, api_get, api_post, api_put, api_delete, handle_response}

module _ (sys : System) where
  open sys use {Body, Json}

  -- `fmt.Fprintf(os.Stderr, "…: %v\n", err)`.
  abbrev pub line_of : String → String → String
  line_of text e = text <> (": " <> (e <> "\n"))

  -- What `listTenants` and its like do with the response: they check it, decode its body, which is closed
  -- by then, and print the value.
  unfoldable pub show : String → (Body → Result Json) → Result (ℕ × Body) → M sys (Unit {0})
  unfolding handle_response or_fail
  show failed decode answer = do
    response ← or_fail (line_of "Request failed") answer
    body ← handle_response sys response
    value ← or_fail (line_of failed) (decode body)
    pretty ← or_fail (λ e. "Marshaling failed: " <> e) (sys.indent value)
    print_out (pretty <> "\n")

  -- What `deleteTenant` and `removeMember` do with the response.
  unfoldable pub confirm : String → Result (ℕ × Body) → M sys (Unit {0})
  unfolding handle_response or_fail
  confirm text answer = do
    response ← or_fail (line_of "Request failed") answer
    body ← handle_response sys response
    print_out (text <> "\n")

  unfoldable pub list_tenants : Config → M sys (Unit {0})
  unfolding show api_get
  list_tenants cfg = do
    answer ← api_get sys cfg "/api/v1/tenants"
    show "Decode failed" sys.decode_list answer

  unfoldable pub create_tenant : Config → String → M sys (Unit {0})
  unfolding show api_post
  create_tenant cfg arg = do
    answer ← api_post sys cfg "/api/v1/tenants" arg
    show "Decode failed" sys.decode_object answer

  unfoldable pub get_tenant : Config → String → M sys (Unit {0})
  unfolding show api_get
  get_tenant cfg arg = do
    answer ← api_get sys cfg ("/api/v1/tenants/" <> arg)
    show "Decode failed" sys.decode_object answer

  unfoldable pub update_tenant : Config → String → String → M sys (Unit {0})
  unfolding show api_put
  update_tenant cfg arg1 arg2 = do
    answer ← api_put sys cfg ("/api/v1/tenants/" <> arg1) arg2
    show "Decode failed" sys.decode_object answer

  unfoldable pub delete_tenant : Config → String → M sys (Unit {0})
  unfolding confirm api_delete
  delete_tenant cfg arg = do
    answer ← api_delete sys cfg ("/api/v1/tenants/" <> arg)
    confirm "Deleted" answer

  abbrev pub tenant_usage : M sys (Unit {0})
  tenant_usage = fail_with "Usage: k8s-mtp tenant <list|create|get|update|delete>\n"

  unfoldable pub unknown_subcommand : String → M sys (Unit {0})
  unfolding fail_with
  unknown_subcommand name = fail_with ("Unknown subcommand: " <> (name <> "\n"))

  -- The commands that take an argument, or two; further ones are left aside.
  unfoldable pub with_one : (String → M sys (Unit {0})) → List String → M sys (Unit {0})
  unfolding fail_with
  with_one command [] = tenant_usage
  with_one command (arg ∷ more) = command arg

  unfoldable pub with_two : (String → String → M sys (Unit {0})) → List String → M sys (Unit {0})
  unfolding fail_with
  with_two command [] = tenant_usage
  with_two command (arg ∷ []) = tenant_usage
  with_two command (arg1 ∷ arg2 ∷ more) = command arg1 arg2

  -- The switch on the first argument.
  unfoldable pub tenant_subcommand : Config → String → List String → M sys (Unit {0})
  unfolding list_tenants create_tenant get_tenant update_tenant delete_tenant unknown_subcommand
      with_one with_two
  tenant_subcommand cfg name args =
      if name == "list"
      then list_tenants cfg
      else if name == "create"
      then with_one (create_tenant cfg) args
      else if name == "get"
      then with_one (get_tenant cfg) args
      else if name == "update"
      then with_two (update_tenant cfg) args
      else if name == "delete"
      then with_one (delete_tenant cfg) args
      else unknown_subcommand name

  unfoldable pub tenant_arguments : Config → List String → M sys (Unit {0})
  unfolding tenant_subcommand fail_with
  tenant_arguments cfg [] = tenant_usage
  tenant_arguments cfg (name ∷ args) = tenant_subcommand cfg name args

  unfoldable pub tenant_cmd : String → List String → M sys (Unit {0})
  unfolding tenant_arguments load_config or_fail
  tenant_cmd config_path args = do
    loaded ← load_config sys config_path
    cfg ← or_fail (line_of "Error") loaded
    tenant_arguments cfg args
