-- ===== src/Cli/Fails.antt =====
-- cmd/cli: the commands that read a response after its body was closed.
use k8s_mtp.Common.{
  ℕ, String, List, [], ◌∷◌, ◌<>◌, ◌≡◌, ◌≢◌, ◌⊎◌, inl, inr, subst, arith, text_cases,
}
use k8s_mtp.Cli.{Result, ok, err, Config, System, exited, Process, M, or_fail}
use k8s_mtp.Cli.Client.{load_config, api_get, api_post, api_put, handle_response}
use k8s_mtp.Cli.Tenants.{
  line_of, show, list_tenants, create_tenant, get_tenant, update_tenant, unknown_subcommand,
  with_one, with_two, tenant_subcommand, tenant_arguments, tenant_cmd,
}
use k8s_mtp.Cli.Members.{
  members_path, member_body, add_member, list_members, add_with, list_with, member_subcommand,
  member_arguments, member_cmd,
}
use k8s_mtp.Cli.Login.{command, main}
use k8s_mtp.Cli.Ends.{
  Exits, >>=-Exits, fail_with-Exits, or_fail-Ends, load_config-Ends, send_request-Ends,
  handle_response-Ends,
}

-- What net/http says of a body: to read it after `Close` is an error.
pub record IsClosing (sys : System) : Type 0 where
  pub list_closed : (b : sys.Body) → (e : String) × (sys.decode_list (sys.close b) ≡ err e)
  pub object_closed : (b : sys.Body) → (e : String) × (sys.decode_object (sys.close b) ≡ err e)

module _ (sys : System) (v : IsClosing sys) where
  abbrev Closed : (sys.Body → Result (sys.Json)) → Type 0
  Closed decode = (b : sys.Body) → (e : String) × (decode (sys.close b) ≡ err e)

  no_value :
      (decode : sys.Body → Result (sys.Json)) (b b' : sys.Body) (a : sys.Json)
      → Closed decode
      → b' ≡ sys.close b
      → decode b' ≢ ok a
  no_value decode b b' a h e d =
      let (text, f) = h b in absurd (ground (arith, subst (λ x. decode x ≡ ok a) e d, f))

  show-Exits :
      (failed : String) (decode : sys.Body → Result (sys.Json)) (answer : Result (ℕ × sys.Body))
      → Closed decode
      → Exits (show sys failed decode answer)
  unfolding show
  show-Exits failed decode answer h =
      >>=-Exits (or_fail (line_of sys "Request failed") answer) _
        (or_fail-Ends (line_of sys "Request failed") answer)
        (λ (status, body) q.
          >>=-Exits (handle_response sys (status, body)) _ (handle_response-Ends status body)
            (λ b e.
              >>=-Exits (or_fail (line_of sys failed) (decode b)) _
                (or_fail-Ends (line_of sys failed) (decode b))
                (λ value d. absurd (no_value decode body b value h e d))))

  list_tenants-Exits : (cfg : Config) → Exits (list_tenants sys cfg)
  unfolding list_tenants api_get
  list_tenants-Exits cfg =
      >>=-Exits (api_get sys cfg "/api/v1/tenants") _ (send_request-Ends _)
        (λ answer q. show-Exits "Decode failed" sys.decode_list answer v.list_closed)

  create_tenant-Exits : (cfg : Config) (arg : String) → Exits (create_tenant sys cfg arg)
  unfolding create_tenant api_post
  create_tenant-Exits cfg arg =
      >>=-Exits (api_post sys cfg "/api/v1/tenants" arg) _ (send_request-Ends _)
        (λ answer q. show-Exits "Decode failed" sys.decode_object answer v.object_closed)

  get_tenant-Exits : (cfg : Config) (arg : String) → Exits (get_tenant sys cfg arg)
  unfolding get_tenant api_get
  get_tenant-Exits cfg arg =
      >>=-Exits (api_get sys cfg ("/api/v1/tenants/" <> arg)) _ (send_request-Ends _)
        (λ answer q. show-Exits "Decode failed" sys.decode_object answer v.object_closed)

  update_tenant-Exits :
      (cfg : Config) (arg1 arg2 : String) → Exits (update_tenant sys cfg arg1 arg2)
  unfolding update_tenant api_put
  update_tenant-Exits cfg arg1 arg2 =
      >>=-Exits (api_put sys cfg ("/api/v1/tenants/" <> arg1) arg2) _ (send_request-Ends _)
        (λ answer q. show-Exits "Decode failed" sys.decode_object answer v.object_closed)

  add_member-Exits :
      (cfg : Config) (tid uid role : String) → Exits (add_member sys cfg tid uid role)
  unfolding add_member api_post
  add_member-Exits cfg tid uid role =
      >>=-Exits (api_post sys cfg (members_path sys tid) (member_body uid role)) _
        (send_request-Ends _)
        (λ answer q. show-Exits "Decoding failed" sys.decode_object answer v.object_closed)

  list_members-Exits : (cfg : Config) (tid : String) → Exits (list_members sys cfg tid)
  unfolding list_members api_get
  list_members-Exits cfg tid =
      >>=-Exits (api_get sys cfg (members_path sys tid)) _ (send_request-Ends _)
        (λ answer q. show-Exits "Decoding failed" sys.decode_list answer v.list_closed)

  with_one-Exits :
      (command : String → M sys (Unit {0})) (args : List String)
      → ((arg : String) → Exits (command arg))
      → Exits (with_one sys command args)
  unfolding with_one
  with_one-Exits command [] h = fail_with-Exits _
  with_one-Exits command (arg ∷ more) h = h arg

  with_two-Exits :
      (command : String → String → M sys (Unit {0})) (args : List String)
      → ((arg1 arg2 : String) → Exits (command arg1 arg2))
      → Exits (with_two sys command args)
  unfolding with_two
  with_two-Exits command [] h = fail_with-Exits _
  with_two-Exits command (arg ∷ []) h = fail_with-Exits _
  with_two-Exits command (arg1 ∷ arg2 ∷ more) h = h arg1 arg2

  tenant_subcommand-Exits :
      (cfg : Config) (name : String) (args : List String)
      → name ≢ "delete"
      → Exits (tenant_subcommand sys cfg name args)
  unfolding tenant_subcommand unknown_subcommand
  tenant_subcommand-Exits cfg name args h = elim (text_cases name "list") [
    | inl (e, p) ↦ rw e (list_tenants-Exits cfg)
    | inr (e, p) ↦ elim (text_cases name "create") [
      | inl (f, q) ↦
          rw (e, f) (with_one-Exits (create_tenant sys cfg) args (create_tenant-Exits cfg))
      | inr (f, q) ↦ elim (text_cases name "get") [
        | inl (g, r) ↦
            rw (e, f, g) (with_one-Exits (get_tenant sys cfg) args (get_tenant-Exits cfg))
        | inr (g, r) ↦ elim (text_cases name "update") [
          | inl (k, t) ↦
              rw (e, f, g, k)
                (with_two-Exits (update_tenant sys cfg) args (update_tenant-Exits cfg))
          | inr (k, t) ↦ elim (text_cases name "delete") [
            | inl (l, u) ↦ absurd (h u)
            | inr (l, u) ↦ rw (e, f, g, k, l) (fail_with-Exits _)
          ]
        ]
      ]
    ]
  ]

  tenant_cmd-Exits :
      (path name : String) (args : List String)
      → name ≢ "delete"
      → Exits (tenant_cmd sys path (name ∷ args))
  unfolding tenant_cmd tenant_arguments
  tenant_cmd-Exits path name args h =
      >>=-Exits (load_config sys path) _ (load_config-Ends path) (λ loaded q.
        >>=-Exits (or_fail (line_of sys "Error") loaded) _
          (or_fail-Ends (line_of sys "Error") loaded)
          (λ cfg r. tenant_subcommand-Exits cfg name args h))

  add_with-Exits : (cfg : Config) (args : List String) → Exits (add_with sys cfg args)
  unfolding add_with
  add_with-Exits cfg [] = fail_with-Exits _
  add_with-Exits cfg (a ∷ []) = fail_with-Exits _
  add_with-Exits cfg (a ∷ b ∷ []) = fail_with-Exits _
  add_with-Exits cfg (a ∷ b ∷ c ∷ []) = add_member-Exits cfg a b c
  add_with-Exits cfg (a ∷ b ∷ c ∷ d ∷ more) = fail_with-Exits _

  list_with-Exits : (cfg : Config) (args : List String) → Exits (list_with sys cfg args)
  unfolding list_with
  list_with-Exits cfg [] = fail_with-Exits _
  list_with-Exits cfg (a ∷ []) = list_members-Exits cfg a
  list_with-Exits cfg (a ∷ b ∷ more) = fail_with-Exits _

  member_subcommand-Exits :
      (cfg : Config) (name : String) (args : List String)
      → name ≢ "remove"
      → Exits (member_subcommand sys cfg name args)
  unfolding member_subcommand unknown_subcommand
  member_subcommand-Exits cfg name args h = elim (text_cases name "add") [
    | inl (e, p) ↦ rw e (add_with-Exits cfg args)
    | inr (e, p) ↦ elim (text_cases name "list") [
      | inl (f, q) ↦ rw (e, f) (list_with-Exits cfg args)
      | inr (f, q) ↦ elim (text_cases name "remove") [
        | inl (g, r) ↦ absurd (h r)
        | inr (g, r) ↦ rw (e, f, g) (fail_with-Exits _)
      ]
    ]
  ]

  member_cmd-Exits :
      (path name : String) (args : List String)
      → name ≢ "remove"
      → Exits (member_cmd sys path (name ∷ args))
  unfolding member_cmd member_arguments
  member_cmd-Exits path name args h =
      >>=-Exits (load_config sys path) _ (load_config-Ends path) (λ loaded q.
        >>=-Exits (or_fail (line_of sys "Error") loaded) _
          (or_fail-Ends (line_of sys "Error") loaded)
          (λ cfg r. member_subcommand-Exits cfg name args h))

  -- The commands for tenants but `delete`, and those for members but `remove`, leave with status 1, whatever
  -- the server answers: they decode the body of the response behind `handleResponse`, which has closed it.
  pub main_fails :
      (cmd name : String) (args : List String) (p : Process sys)
      → ((cmd ≡ "tenant") × (name ≢ "delete")) ⊎ ((cmd ≡ "member") × (name ≢ "remove"))
      → (main sys (cmd ∷ name ∷ args) p).0 ≡ exited 1
  unfolding main command
  main_fails cmd name args p h =
      >>=-Exits (or_fail (λ e. "failed to ascertain home dir") sys.user_home_dir) _
        (or_fail-Ends (λ e. "failed to ascertain home dir") sys.user_home_dir)
        (λ home q. dispatched (sys.join (sys.join home ".k8s-mtp") "config") h) p
    where
      dispatched :
          (path : String)
          → ((cmd ≡ "tenant") × (name ≢ "delete")) ⊎ ((cmd ≡ "member") × (name ≢ "remove"))
          → Exits (command sys path cmd (name ∷ args))
      dispatched path (inl (e, n)) = rw e (tenant_cmd-Exits path name args n)
      dispatched path (inr (e, n)) = rw e (member_cmd-Exits path name args n)
