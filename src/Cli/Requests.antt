-- ===== src/Cli/Requests.antt =====
-- cmd/cli: the request that a command sends.
use k8s_mtp.Common.{String, ◌<>◌}
use k8s_mtp.Cli.{Config, HttpRequest, System, Process}
use k8s_mtp.Cli.Client.{api_request, api_get, api_post, api_put, api_delete}
use k8s_mtp.Cli.Tenants.{list_tenants, create_tenant, get_tenant, update_tenant, delete_tenant}
use k8s_mtp.Cli.Members.{members_path, member_body, add_member, list_members, remove_member}
use k8s_mtp.Cli.Quiet.{SendsAt, SendsAt->>=, send_request-SendsAt, show-Quiet, confirm-Quiet}

module _ (sys : System) where
  -- The predicate holds of each request to the API under the configuration.
  abbrev pub OfApi : (HttpRequest → Type 0) → Config → Type 0
  OfApi S cfg =
      (method path content_type body : String)
      → S (api_request sys cfg method path content_type body)

  pub list_tenants-SendsAt :
      (S : HttpRequest → Type 0) (cfg : Config) (p : Process sys)
      → OfApi S cfg
      → SendsAt S (list_tenants sys cfg) p
  unfolding list_tenants api_get
  list_tenants-SendsAt S cfg p h =
      SendsAt->>= S (api_get sys cfg "/api/v1/tenants") _ p (send_request-SendsAt S _ p (h _ _ _ _))
        (show-Quiet "Decode failed" sys.decode_list)

  pub create_tenant-SendsAt :
      (S : HttpRequest → Type 0) (cfg : Config) (arg : String) (p : Process sys)
      → OfApi S cfg
      → SendsAt S (create_tenant sys cfg arg) p
  unfolding create_tenant api_post
  create_tenant-SendsAt S cfg arg p h =
      SendsAt->>= S (api_post sys cfg "/api/v1/tenants" arg) _ p
        (send_request-SendsAt S _ p (h _ _ _ _)) (show-Quiet "Decode failed" sys.decode_object)

  pub get_tenant-SendsAt :
      (S : HttpRequest → Type 0) (cfg : Config) (arg : String) (p : Process sys)
      → OfApi S cfg
      → SendsAt S (get_tenant sys cfg arg) p
  unfolding get_tenant api_get
  get_tenant-SendsAt S cfg arg p h =
      SendsAt->>= S (api_get sys cfg ("/api/v1/tenants/" <> arg)) _ p
        (send_request-SendsAt S _ p (h _ _ _ _)) (show-Quiet "Decode failed" sys.decode_object)

  pub update_tenant-SendsAt :
      (S : HttpRequest → Type 0) (cfg : Config) (arg1 arg2 : String) (p : Process sys)
      → OfApi S cfg
      → SendsAt S (update_tenant sys cfg arg1 arg2) p
  unfolding update_tenant api_put
  update_tenant-SendsAt S cfg arg1 arg2 p h =
      SendsAt->>= S (api_put sys cfg ("/api/v1/tenants/" <> arg1) arg2) _ p
        (send_request-SendsAt S _ p (h _ _ _ _)) (show-Quiet "Decode failed" sys.decode_object)

  pub delete_tenant-SendsAt :
      (S : HttpRequest → Type 0) (cfg : Config) (arg : String) (p : Process sys)
      → OfApi S cfg
      → SendsAt S (delete_tenant sys cfg arg) p
  unfolding delete_tenant api_delete
  delete_tenant-SendsAt S cfg arg p h =
      SendsAt->>= S (api_delete sys cfg ("/api/v1/tenants/" <> arg)) _ p
        (send_request-SendsAt S _ p (h _ _ _ _)) (confirm-Quiet "Deleted")

  pub add_member-SendsAt :
      (S : HttpRequest → Type 0) (cfg : Config) (tid uid role : String) (p : Process sys)
      → OfApi S cfg
      → SendsAt S (add_member sys cfg tid uid role) p
  unfolding add_member api_post
  add_member-SendsAt S cfg tid uid role p h =
      SendsAt->>= S (api_post sys cfg (members_path sys tid) (member_body uid role)) _ p
        (send_request-SendsAt S _ p (h _ _ _ _)) (show-Quiet "Decoding failed" sys.decode_object)

  pub list_members-SendsAt :
      (S : HttpRequest → Type 0) (cfg : Config) (tid : String) (p : Process sys)
      → OfApi S cfg
      → SendsAt S (list_members sys cfg tid) p
  unfolding list_members api_get
  list_members-SendsAt S cfg tid p h =
      SendsAt->>= S (api_get sys cfg (members_path sys tid)) _ p
        (send_request-SendsAt S _ p (h _ _ _ _)) (show-Quiet "Decoding failed" sys.decode_list)

  pub remove_member-SendsAt :
      (S : HttpRequest → Type 0) (cfg : Config) (tid uid : String) (p : Process sys)
      → OfApi S cfg
      → SendsAt S (remove_member sys cfg tid uid) p
  unfolding remove_member api_delete
  remove_member-SendsAt S cfg tid uid p h =
      SendsAt->>= S (api_delete sys cfg (members_path sys tid <> ("/" <> uid))) _ p
        (send_request-SendsAt S _ p (h _ _ _ _)) (confirm-Quiet "Removed")
