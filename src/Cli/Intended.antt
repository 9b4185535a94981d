-- ===== src/Cli/Intended.antt =====
-- cmd/cli: the request of each command.
use k8s_mtp.Common.{ℕ, String, List, [], ◌∷◌, not, ◌==◌, ◌<>◌, inl, inr, refl, nat_eq, Bool-cases}
use k8s_mtp.Cli.{Config, HttpRequest, System, Process, M, ◌>>=◌, do_request, or_fail, fail_with}
use k8s_mtp.Cli.Client.{save_config}
use k8s_mtp.Cli.Tenants.{
  create_tenant, get_tenant, update_tenant, delete_tenant, tenant_subcommand, tenant_arguments,
  with_one, with_two, unknown_subcommand,
}
use k8s_mtp.Cli.Members.{add_with, list_with, remove_with, member_subcommand, member_arguments}
use k8s_mtp.Cli.Login.{read_token, save_token, ask_token}
use k8s_mtp.Cli.Quiet.{
  Quiet, SendsAt, >>=-Quiet, >>=-SendsAt, SendsAt->>=, or_fail-Quiet, print_out-Quiet,
}
use k8s_mtp.Cli.Loaded.{save_config-Quiet}
use k8s_mtp.Cli.Requests.{
  OfApi, list_tenants-SendsAt, create_tenant-SendsAt, get_tenant-SendsAt, update_tenant-SendsAt,
  delete_tenant-SendsAt, add_member-SendsAt, list_members-SendsAt, remove_member-SendsAt,
}

module _ (sys : System) where
  with_one-SendsAt :
      (S : HttpRequest → Type 0) (run : String → M sys (Unit {0})) (args : List String)
      (p : Process sys)
      → ((arg : String) → SendsAt S (run arg) p)
      → SendsAt S (with_one sys run args) p
  unfolding with_one fail_with ◌>>=◌
  with_one-SendsAt S run [] p h = inl refl
  with_one-SendsAt S run (arg ∷ more) p h = h arg

  with_two-SendsAt :
      (S : HttpRequest → Type 0) (run : String → String → M sys (Unit {0})) (args : List String)
      (p : Process sys)
      → ((arg1 arg2 : String) → SendsAt S (run arg1 arg2) p)
      → SendsAt S (with_two sys run args) p
  unfolding with_two fail_with ◌>>=◌
  with_two-SendsAt S run [] p h = inl refl
  with_two-SendsAt S run (arg ∷ []) p h = inl refl
  with_two-SendsAt S run (arg1 ∷ arg2 ∷ more) p h = h arg1 arg2

  pub tenant_arguments-SendsAt :
      (S : HttpRequest → Type 0) (cfg : Config) (args : List String) (p : Process sys)
      → OfApi sys S cfg
      → SendsAt S (tenant_arguments sys cfg args) p
  unfolding tenant_arguments tenant_subcommand unknown_subcommand fail_with ◌>>=◌
  tenant_arguments-SendsAt S cfg [] p h = inl refl
  tenant_arguments-SendsAt S cfg (name ∷ args) p h = elim (Bool-cases (name == "list")) [
    | inl e ↦ rw e (list_tenants-SendsAt sys S cfg p h)
    | inr e ↦ elim (Bool-cases (name == "create")) [
      | inl f ↦
          rw (e, f)
            (with_one-SendsAt S (create_tenant sys cfg) args p
              (λ a. create_tenant-SendsAt sys S cfg a p h))
      | inr f ↦ elim (Bool-cases (name == "get")) [
        | inl g ↦
            rw (e, f, g)
              (with_one-SendsAt S (get_tenant sys cfg) args p
                (λ a. get_tenant-SendsAt sys S cfg a p h))
        | inr g ↦ elim (Bool-cases (name == "update")) [
          | inl k ↦
              rw (e, f, g, k)
                (with_two-SendsAt S (update_tenant sys cfg) args p
                  (λ a b. update_tenant-SendsAt sys S cfg a b p h))
          | inr k ↦ elim (Bool-cases (name == "delete")) [
            | inl l ↦
                rw (e, f, g, k, l)
                  (with_one-SendsAt S (delete_tenant sys cfg) args p
                    (λ a. delete_tenant-SendsAt sys S cfg a p h))
            | inr l ↦ rw (e, f, g, k, l) (inl refl)
          ]
        ]
      ]
    ]
  ]

  add_with-SendsAt :
      (S : HttpRequest → Type 0) (cfg : Config) (args : List String) (p : Process sys)
      → OfApi sys S cfg
      → SendsAt S (add_with sys cfg args) p
  unfolding add_with fail_with ◌>>=◌
  add_with-SendsAt S cfg [] p h = inl refl
  add_with-SendsAt S cfg (a ∷ []) p h = inl refl
  add_with-SendsAt S cfg (a ∷ b ∷ []) p h = inl refl
  add_with-SendsAt S cfg (a ∷ b ∷ c ∷ []) p h = add_member-SendsAt sys S cfg a b c p h
  add_with-SendsAt S cfg (a ∷ b ∷ c ∷ d ∷ more) p h = inl refl

  list_with-SendsAt :
      (S : HttpRequest → Type 0) (cfg : Config) (args : List String) (p : Process sys)
      → OfApi sys S cfg
      → SendsAt S (list_with sys cfg args) p
  unfolding list_with fail_with ◌>>=◌
  list_with-SendsAt S cfg [] p h = inl refl
  list_with-SendsAt S cfg (a ∷ []) p h = list_members-SendsAt sys S cfg a p h
  list_with-SendsAt S cfg (a ∷ b ∷ more) p h = inl refl

  remove_with-SendsAt :
      (S : HttpRequest → Type 0) (cfg : Config) (args : List String) (p : Process sys)
      → OfApi sys S cfg
      → SendsAt S (remove_with sys cfg args) p
  unfolding remove_with fail_with ◌>>=◌
  remove_with-SendsAt S cfg [] p h = inl refl
  remove_with-SendsAt S cfg (a ∷ []) p h = inl refl
  remove_with-SendsAt S cfg (a ∷ b ∷ []) p h = remove_member-SendsAt sys S cfg a b p h
  remove_with-SendsAt S cfg (a ∷ b ∷ c ∷ more) p h = inl refl

  pub member_arguments-SendsAt :
      (S : HttpRequest → Type 0) (cfg : Config) (args : List String) (p : Process sys)
      → OfApi sys S cfg
      → SendsAt S (member_arguments sys cfg args) p
  unfolding member_arguments member_subcommand unknown_subcommand fail_with ◌>>=◌
  member_arguments-SendsAt S cfg [] p h = inl refl
  member_arguments-SendsAt S cfg (name ∷ args) p h = elim (Bool-cases (name == "add")) [
    | inl e ↦ rw e (add_with-SendsAt S cfg args p h)
    | inr e ↦ elim (Bool-cases (name == "list")) [
      | inl f ↦ rw (e, f) (list_with-SendsAt S cfg args p h)
      | inr f ↦ elim (Bool-cases (name == "remove")) [
        | inl g ↦ rw (e, f, g) (remove_with-SendsAt S cfg args p h)
        | inr g ↦ rw (e, f, g) (inl refl)
      ]
    ]
  ]

  pub ask_token-SendsAt :
      (S : HttpRequest → Type 0) (r : HttpRequest) (p : Process sys)
      → S r
      → SendsAt S (ask_token sys r) p
  unfolding ask_token
  ask_token-SendsAt S r p s =
      >>=-SendsAt S (or_fail _ (sys.new_request r)) _ p (or_fail-Quiet _ (sys.new_request r) p)
        (λ u v q.
          SendsAt->>= S (do_request r) _ q (inr (r, s, refl)) (λ answer. or_fail-Quiet _ answer))

  pub read_token-Quiet : (status : ℕ) (body : sys.Body) → Quiet (read_token sys (status, body))
  unfolding read_token fail_with ◌>>=◌
  read_token-Quiet status body = elim (Bool-cases (not (nat_eq status 200))) [
    | inl e ↦ rw e (λ p. (refl, λ a x. tt))
    | inr e ↦ rw e (or_fail-Quiet _ (sys.decode_token body))
  ]

  pub save_token-Quiet :
      (path : String) (cfg : Config) (token : String) → Quiet (save_token sys path cfg token)
  unfolding save_token
  save_token-Quiet path cfg token =
      >>=-Quiet (save_config sys path (record cfg { token = token })) _
        (save_config-Quiet sys path (record cfg { token = token }))
        (λ saved.
          >>=-Quiet (or_fail _ saved) _ (or_fail-Quiet _ saved)
            (λ u. print_out-Quiet ("Configuration saved to " <> path)))
