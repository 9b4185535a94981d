-- ===== src/Cli/Members.antt =====
-- cmd/cli/member.go.
use k8s_mtp.Common.{String, List, [], ◌∷◌, ◌==◌, ◌<>◌, if◌then◌else◌}
use k8s_mtp.Cli.{Config, System, M, ◌>>=◌, fail_with, or_fail}
use k8s_mtp.Cli.Client.{load_config, api_get, api_post, api_delete}
use k8s_mtp.Cli.Tenants.{line_of, show, confirm, unknown_subcommand}

-- `fmt.Sprintf` of the body.
unfoldable pub member_body : String → String → String
member_body uid role = "{\"user_id\":\"" <> (uid <> ("\",\"role\":\"" <> (role <> "\"}")))

module _ (sys : System) where
  abbrev pub members_path : String → String
  members_path tid = "/api/v1/tenants/" <> (tid <> "/members")

  unfoldable pub add_member : Config → String → String → String → M sys (Unit {0})
  unfolding show api_post
  add_member cfg tid uid role = do
    answer ← api_post sys cfg (members_path tid) (member_body uid role)
    show sys "Decoding failed" sys.decode_object answer

  unfoldable pub list_members : Config → String → M sys (Unit {0})
  unfolding show api_get
  list_members cfg tid = do
    answer ← api_get sys cfg (members_path tid)
    show sys "Decoding failed" sys.decode_list answer

  unfoldable pub remove_member : Config → String → String → M sys (Unit {0})
  unfolding confirm api_delete
  remove_member cfg tid uid = do
    answer ← api_delete sys cfg (members_path tid <> ("/" <> uid))
    confirm sys "Removed" answer

  abbrev pub member_usage : M sys (Unit {0})
  member_usage = fail_with "Usage: k8s-mtp member <add|list|remove>\n"

  -- The commands with their number of arguments.
  unfoldable pub add_with : Config → List String → M sys (Unit {0})
  unfolding add_member fail_with
  add_with cfg (tid ∷ uid ∷ role ∷ []) = add_member cfg tid uid role
  add_with cfg _ = member_usage

  unfoldable pub list_with : Config → List String → M sys (Unit {0})
  unfolding list_members fail_with
  list_with cfg (tid ∷ []) = list_members cfg tid
  list_with cfg _ = member_usage

  unfoldable pub remove_with : Config → List String → M sys (Unit {0})
  unfolding remove_member fail_with
  remove_with cfg (tid ∷ uid ∷ []) = remove_member cfg tid uid
  remove_with cfg _ = member_usage

  -- The switch on the first argument.
  unfoldable pub member_subcommand : Config → String → List String → M sys (Unit {0})
  unfolding add_with list_with remove_with unknown_subcommand
  member_subcommand cfg name args =
      if name == "add"
      then add_with cfg args
      else if name == "list"
      then list_with cfg args
      else if name == "remove"
      then remove_with cfg args
      else unknown_subcommand sys name

  unfoldable pub member_arguments : Config → List String → M sys (Unit {0})
  unfolding member_subcommand fail_with
  member_arguments cfg [] = member_usage
  member_arguments cfg (name ∷ args) = member_subcommand cfg name args

  unfoldable pub member_cmd : String → List String → M sys (Unit {0})
  unfolding member_arguments load_config or_fail
  member_cmd config_path args = do
    loaded ← load_config sys config_path
    cfg ← or_fail (line_of sys "Error") loaded
    member_arguments cfg args
