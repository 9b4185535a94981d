-- ===== src/Cli/Ends.antt =====
-- cmd/cli: how the parts of a command end.
use k8s_mtp.Common.{
  ℕ, String, ◌||◌, not, ◌==◌, ◌<>◌, ◌≡◌, ◌⊎◌, inl, inr, refl, ltb, leb, nat_eq, Bool-cases,
}
use k8s_mtp.Cli.{
  Result, ok, err, FileRead, contents, not_exist, unreadable, Config, HttpRequest, System, went,
  exited, Process, M, ◌>>=◌, pure, asked, do_request, fail_with, or_fail,
}
use k8s_mtp.Cli.Client.{
  checked_config, first_config, save_config, load_config, send_request, handle_response,
}

abbrev pub Any : {A : Type 0} → A → Type 0
Any a = Unit {0}

module _ {sys : System} where
  abbrev pub Exits : {A : Type 0} → M sys A → Type 0
  Exits m = (p : Process sys) → (m p).0 ≡ exited 1

  -- The part leaves with status 1, or goes on with a value of which the predicate holds.
  abbrev pub Ends : {A : Type 0} → (A → Type 0) → M sys A → Type 0
  Ends {A} Q m = (p : Process sys) → ((m p).0 ≡ exited 1) ⊎ ((a : A) × Q a × ((m p).0 ≡ went a))

  pub >>=-Exits :
      {A B : Type 0} {Q : A → Type 0} (m : M sys A) (f : A → M sys B)
      → Ends Q m
      → ((a : A) → Q a → Exits (f a))
      → Exits (m >>= f)
  unfolding ◌>>=◌
  >>=-Exits m f h k p = elim (h p) [
    | inl e ↦ rw (e, ◌>>=◌) refl
    | inr (a, q, e) ↦ rw (e, ◌>>=◌) (k a q (m p).1)
  ]

  pub >>=-Ends :
      {A B : Type 0} {Q : A → Type 0} {R : B → Type 0} (m : M sys A) (f : A → M sys B)
      → Ends Q m
      → ((a : A) → Q a → Ends R (f a))
      → Ends R (m >>= f)
  unfolding ◌>>=◌
  >>=-Ends m f h k p = elim (h p) [
    | inl e ↦ rw (e, ◌>>=◌) (inl refl)
    | inr (a, q, e) ↦ rw (e, ◌>>=◌) (k a q (m p).1)
  ]

  pub pure-Ends : {A : Type 0} (a : A) → Ends Any (pure {sys = sys} a)
  pure-Ends a p = inr (a, tt, refl)

  pub asked-Ends :
      {A : Type 0} (call : sys.World → A × sys.World) → Ends Any (asked {sys = sys} call)
  asked-Ends call p = inr ((call p.world).0, tt, refl)

  pub fail_with-Exits : {A : Type 0} (text : String) → Exits (fail_with {sys = sys} {A = A} text)
  unfolding fail_with ◌>>=◌
  fail_with-Exits text p = refl

  pub Exits-Ends : {A : Type 0} {Q : A → Type 0} (m : M sys A) → Exits m → Ends Q m
  Exits-Ends m h p = inl (h p)

  pub or_fail-Ends :
      {A : Type 0} (text : String → String) (r : Result A)
      → Ends (λ a. r ≡ ok a) (or_fail {sys = sys} text r)
  unfolding or_fail
  or_fail-Ends text (ok a) p = inr (a, refl, refl)
  or_fail-Ends text (err e) p = inl (fail_with-Exits (text e) p)

  pub save_config-Ends : (path : String) (config : Config) → Ends Any (save_config sys path config)
  unfolding save_config
  save_config-Ends path config =
      >>=-Ends (asked (sys.mkdir_all (sys.dir path))) _ (asked-Ends (sys.mkdir_all (sys.dir path)))
        (λ made q. go made)
    where
      after : Result String → M sys (Result (Unit {0}))
      after r = elim r [ err e ↦ pure (err e) | ok text ↦ asked (sys.write_file path text) ]

      marshalled : (r : Result String) → Ends Any (after r)
      marshalled (err e) = pure-Ends (err e)
      marshalled (ok text) = asked-Ends (sys.write_file path text)

      go :
          (made : Result (Unit {0}))
          → Ends Any (elim made as (λ x. M sys (Result (Unit {0}))) [
            | err e ↦ pure (err e)
            | ok u ↦ after (sys.marshal_config config)
          ])
      go (err e) = pure-Ends (err e)
      go (ok u) = marshalled (sys.marshal_config config)

  pub load_config-Ends : (path : String) → Ends Any (load_config sys path)
  unfolding load_config
  load_config-Ends path =
      >>=-Ends (asked (sys.read_file path)) _ (asked-Ends (sys.read_file path)) (λ file q. go file)
    where
      first_saved : Result (Unit {0}) → M sys (Result Config)
      first_saved saved = elim saved [
        | err e ↦ pure (err e)
        | ok u ↦
            pure (
              err ("config created at " <> (path <> ", edit the file and set api_url and dex_url")))
      ]

      first : (saved : Result (Unit {0})) → Ends Any (first_saved saved)
      first (err e) = pure-Ends (err e)
      first (ok u) = pure-Ends _

      go :
          (file : FileRead)
          → Ends Any (elim file as (λ x. M sys (Result Config)) [
            | contents text ↦ pure (checked_config sys text)
            | unreadable e ↦ pure (err e)
            | not_exist ↦ save_config sys path (first_config sys) >>= first_saved
          ])
      go (contents text) = pure-Ends (checked_config sys text)
      go (unreadable e) = pure-Ends (err e)
      go not_exist =
          >>=-Ends (save_config sys path (first_config sys)) first_saved
            (save_config-Ends path (first_config sys)) (λ saved q. first saved)

  pub send_request-Ends : (r : HttpRequest) → Ends Any (send_request sys r)
  unfolding send_request
  send_request-Ends r = go (sys.new_request r)
    where
      go :
          (checked : Result (Unit {0}))
          → Ends Any (elim checked as (λ x. M sys (Result (ℕ × sys.Body))) [
            | err e ↦ pure (err e)
            | ok u ↦ do_request r
          ])
      go (err e) p = pure-Ends (err e) p
      go (ok u) p = inr ((sys.send r p.world).0, tt, refl)

  -- A response is handed on with its body closed.
  pub handle_response-Ends :
      (status : ℕ) (body : sys.Body)
      → Ends (λ b. b ≡ sys.close body) (handle_response sys (status, body))
  unfolding handle_response fail_with ◌>>=◌
  handle_response-Ends status body = elim (Bool-cases (nat_eq status 401)) [
    | inl e ↦ rw e (λ p. inl refl)
    | inr e ↦ elim (Bool-cases (ltb status 200 || leb 300 status)) [
      | inl f ↦ elim (Bool-cases (not (sys.decode_error body == ""))) [
        | inl g ↦ rw e (rw f (rw g (λ p. inl refl)))
        | inr g ↦ rw e (rw f (rw g (λ p. inl refl)))
      ]
      | inr f ↦ rw e (rw f (λ p. inr (sys.close body, refl, refl)))
    ]
  ]
