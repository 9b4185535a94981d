-- ===== src/Tests/Commands.antt =====
-- cmd/cli with a concrete system.
use k8s_mtp.Common.{
  String, Bool, true, false, [], ◌∷◌, ◌≡◌, ◌≢◌, ◌<>◌, ◌⊎◌, inl, refl, arith, eq_iff, if◌then◌else◌,
}
use k8s_mtp.Cli.{HttpRequest, Result, ok, err, contents, System, Process, exited}
use k8s_mtp.Cli.Login.{main}
use k8s_mtp.Cli.Sent.{IsIntended, config_path, main_sent}
use k8s_mtp.Cli.Fails.{IsClosing, main_fails}

-- The body of a response, and whether it was closed.
record Body : Type 0 where
  text : String
  is_closed : Bool

abbrev read : Body → Result String
read b = if b.is_closed then err "http: read on closed response body" else ok b.text

-- The file is there, and every request is answered with 200 and its own body.
abbrev system : System
system = record {
  World = Unit {0};
  Body = Body;
  Json = String;
  user_home_dir = ok "/home/ann";
  join = λ a b. a <> ("/" <> b);
  dir = λ path. path;
  read_file = λ path w. (contents "config", w);
  mkdir_all = λ path w. (ok tt, w);
  write_file = λ path text w. (ok tt, w);
  send = λ r w. (ok (200, record { text = r.body; is_closed = false }), w);
  scan_line = λ w. (ok "ann", w);
  read_password = λ w. (ok "secret", w);
  new_request = λ r. ok tt;
  marshal_config = λ c. ok "config";
  unmarshal_config =
      λ text. ok (record { dex_url = "dex"; api_url = "api"; client_id = "c"; token = "t" });
  close = λ b. record b { is_closed = true };
  decode_list = read;
  decode_object = read;
  decode_error = λ b. "";
  decode_token = read;
  indent = ok;
  encode_form = λ form. "form";
  base64 = λ s. s;
  decimal = λ n. "";
}

system-IsClosing : IsClosing system
system-IsClosing = record {
  list_closed = λ b. ("http: read on closed response body", refl);
  object_closed = λ b. ("http: read on closed response body", refl);
}

start : Process system
start = record { world = tt; stdout = []; stderr = []; requests = [] }

list_differs : ◌≢◌ {A = String} "list" "delete"
list_differs e = ground (arith, e, eq_iff "list" "delete")

main_fails_example : (main system ("tenant" ∷ "list" ∷ []) start).0 ≡ exited 1
main_fails_example =
    main_fails system system-IsClosing "tenant" "list" [] start (inl (refl, list_differs))

main_sent_example :
    ((main system ("tenant" ∷ "list" ∷ []) start).1.requests ≡ start.requests)
    ⊎ ((r : HttpRequest) × ((home : String) × (system.user_home_dir ≡ ok home)
          × IsIntended system (config_path system home) start.world r)
        × ((main system ("tenant" ∷ "list" ∷ []) start).1.requests ≡ r ∷ start.requests))
main_sent_example = main_sent system ("tenant" ∷ "list" ∷ []) start
