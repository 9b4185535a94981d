-- ===== src/Cli.antt =====
-- cmd/cli: the command line tool, with the libraries that it calls. A command works on the world and on the
-- terminal, and ends with a value or by leaving the process.
pub mod Client
pub mod Ends
pub mod Fails
pub mod Quiet
pub mod Requests
pub mod Loaded
pub mod Intended
pub mod Sent
pub mod Tenants
pub mod Members
pub mod Login
use k8s_mtp.Common.{ℕ, String, Option, List, [], ◌∷◌, ◌++◌}

-- A value, or the text of an error.
pub data Result (A : Type 0) : Type 0 where
  ok : A → Result A
  err : String → Result A

-- What `os.ReadFile` brings; `os.IsNotExist` tells the second from the third.
pub data FileRead : Type 0 where
  contents : String → FileRead
  not_exist : FileRead
  unreadable : String → FileRead

-- The configuration of the tool.
pub record Config : Type 0 where
  pub dex_url : String
  pub api_url : String
  pub client_id : String
  pub token : String

-- A request with the headers that the tool sets; "" is a header that it does not set, or no body.
pub record HttpRequest : Type 0 where
  pub method : String
  pub url : String
  pub authorization : String
  pub content_type : String
  pub body : String

-- The libraries and the system, as a parameter. `World` is all that is outside the process: files, servers,
-- and who sits at the terminal. `Body` is the body of a response, which is read by `decode_list`
-- and `decode_object`, a `Decode` of it into a slice or a map, by `decode_error`, which gives the text under
-- "error" or "" if there is none, and by `decode_token`, which gives the text under "id_token";
-- `indent` is `json.MarshalIndent`; `new_request` is the check of `http.NewRequest`.
pub record System : Type 1 where
  pub World : Type 0
  pub Body : Type 0
  pub Json : Type 0
  pub user_home_dir : Result String
  pub join : String → String → String
  pub dir : String → String
  pub read_file : String → World → FileRead × World
  pub mkdir_all : String → World → Result (Unit {0}) × World
  pub write_file : String → String → World → Result (Unit {0}) × World
  pub send : HttpRequest → World → Result (ℕ × Body) × World
  pub scan_line : World → Result String × World
  pub read_password : World → Result String × World
  pub new_request : HttpRequest → Result (Unit {0})
  pub marshal_config : Config → Result String
  pub unmarshal_config : String → Result Config
  pub close : Body → Body
  pub decode_list : Body → Result Json
  pub decode_object : Body → Result Json
  pub decode_error : Body → String
  pub decode_token : Body → Result String
  pub indent : Json → Result String
  pub encode_form : List (String × String) → String
  pub base64 : String → String
  pub decimal : ℕ → String

-- How a part of a command ends: it goes on with a value, or leaves the process with a status.
pub data Ended (A : Type 0) : Type 0 where
  went : A → Ended A
  exited : ℕ → Ended A

module _ (sys : System) where
  open sys use {World}

  -- The world, what was written to the terminal, the last first, and the requests that were sent.
  pub record Process : Type 0 where
    pub world : World
    pub stdout : List String
    pub stderr : List String
    pub requests : List HttpRequest

  abbrev pub M : Type 0 → Type 0
  M A = Process → Ended A × Process

module _ {sys : System} where
  abbrev pub continue : {A B : Type 0} → Ended A → (A → M sys B) → M sys B
  continue (went a) f p = f a p
  continue (exited n) f p = (exited n, p)

  infixl 5 ◌>>=◌ ◌>>◌
  unfoldable pub ◌>>=◌ : {A B : Type 0} → M sys A → (A → M sys B) → M sys B
  ◌>>=◌ m f p = let (e, p') = m p in continue e f p'

  abbrev pub ◌>>◌ : {B : Type 0} → M sys (Unit {0}) → M sys B → M sys B
  m >> n = m >>= λ _. n

  abbrev pub pure : {A : Type 0} → A → M sys A
  pure a p = (went a, p)

  -- `os.Exit`.
  abbrev pub exit : {A : Type 0} → ℕ → M sys A
  exit n p = (exited n, p)

  abbrev pub print_out : String → M sys (Unit {0})
  print_out text p = (went tt, record p { stdout = text ∷ p.stdout })

  abbrev pub print_err : String → M sys (Unit {0})
  print_err text p = (went tt, record p { stderr = text ∷ p.stderr })

  -- `fmt.Fprintf(os.Stderr, …)` and `os.Exit(1)`.
  unfoldable pub fail_with : {A : Type 0} → String → M sys A
  fail_with text = do print_err text; exit 1

  -- A call of the system.
  abbrev pub asked : {A : Type 0} → (sys.World → A × sys.World) → M sys A
  asked call p = let (a, w) = call p.world in (went a, record p { world = w })

  -- `http.DefaultClient.Do`.
  abbrev pub do_request : HttpRequest → M sys (Result (ℕ × sys.Body))
  do_request r p =
      let (a, w) = sys.send r p.world in (went a, record p { world = w; requests = r ∷ p.requests })

  -- `if err != nil` with a text before the error, and a value where there is none.
  unfoldable pub or_fail : {A : Type 0} → (String → String) → Result A → M sys A
  unfolding fail_with
  or_fail text (ok a) = pure a
  or_fail text (err e) = fail_with (text e)
