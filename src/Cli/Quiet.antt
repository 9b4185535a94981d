-- ===== src/Cli/Quiet.antt =====
-- cmd/cli: the parts of a command that send no request, and those that send one at most.
use k8s_mtp.Common.{
  ℕ, String, ◌∷◌, ◌||◌, not, ◌==◌, ◌<>◌, ◌≡◌, ◌⊎◌, inl, inr, refl, ◌∙◌, ap, arith, ltb, leb, nat_eq,
  Bool-cases,
}
use k8s_mtp.Cli.{
  Result, ok, err, HttpRequest, System, Ended, went, exited, Process, M, ◌>>=◌, pure, print_out,
  do_request, fail_with, or_fail,
}
use k8s_mtp.Cli.Client.{send_request, handle_response}
use k8s_mtp.Cli.Tenants.{line_of, show, confirm}

ended : {A : Type 0} (e : Ended A) → ((a : A) × (e ≡ went a)) ⊎ ((n : ℕ) × (e ≡ exited n))
ended (went a) = inl (a, refl)
ended (exited n) = inr (n, refl)

module _ {sys : System} where
  -- No request is sent, and the predicate holds of the value, if the part goes on with one.
  abbrev pub QuietAt : {A : Type 0} → (A → Type 0) → M sys A → Process sys → Type 0
  QuietAt {A} Q m p = ((m p).1.requests ≡ p.requests) × ((a : A) → (m p).0 ≡ went a → Q a)

  abbrev pub Quiet : {A : Type 0} → M sys A → Type 0
  Quiet m = (p : Process sys) → QuietAt (λ a. Unit {0}) m p

  -- No request is sent, or one of which the predicate holds.
  abbrev pub SendsAt : {A : Type 0} → (HttpRequest → Type 0) → M sys A → Process sys → Type 0
  SendsAt S m p =
      ((m p).1.requests ≡ p.requests)
      ⊎ ((r : HttpRequest) × S r × ((m p).1.requests ≡ r ∷ p.requests))

  quiet : {A : Type 0} (m : M sys A) → ((p : Process sys) → (m p).1.requests ≡ p.requests) → Quiet m
  quiet m h p = (h p, λ a e. tt)

  pub >>=-QuietAt :
      {A B : Type 0} {Q : B → Type 0} (m : M sys A) (f : A → M sys B) (p : Process sys)
      → Quiet m
      → ((a : A) (p' : Process sys) → QuietAt Q (f a) p')
      → QuietAt Q (m >>= f) p
  unfolding ◌>>=◌
  >>=-QuietAt m f p h k = elim (ended (m p).0) [
    | inl (a, e) ↦ rw (e, ◌>>=◌) ((k a (m p).1).0 ∙ (h p).0, (k a (m p).1).1)
    | inr (n, e) ↦ rw (e, ◌>>=◌) ((h p).0, λ b x. absurd (ground (arith, x)))
  ]

  pub >>=-Quiet :
      {A B : Type 0} (m : M sys A) (f : A → M sys B)
      → Quiet m
      → ((a : A) → Quiet (f a))
      → Quiet (m >>= f)
  >>=-Quiet m f h k p = >>=-QuietAt m f p h k

  pub >>=-SendsAt :
      {A B : Type 0} {Q : A → Type 0} (S : HttpRequest → Type 0) (m : M sys A) (f : A → M sys B)
      (p : Process sys)
      → QuietAt Q m p
      → ((a : A) → Q a → (p' : Process sys) → SendsAt S (f a) p')
      → SendsAt S (m >>= f) p
  unfolding ◌>>=◌
  >>=-SendsAt S m f p h k = elim (ended (m p).0) [
    | inl (a, e) ↦
        rw (e, ◌>>=◌)
          (elim (k a (h.1 a e) (m p).1) [
            | inl x ↦ inl (x ∙ h.0)
            | inr (r, s, x) ↦ inr (r, s, x ∙ ap (λ rs. r ∷ rs) h.0)
          ])
    | inr (n, e) ↦ rw (e, ◌>>=◌) (inl h.0)
  ]

  -- What comes behind the request sends none.
  pub SendsAt->>= :
      {A B : Type 0} (S : HttpRequest → Type 0) (m : M sys A) (f : A → M sys B) (p : Process sys)
      → SendsAt S m p
      → ((a : A) → Quiet (f a))
      → SendsAt S (m >>= f) p
  unfolding ◌>>=◌
  SendsAt->>= S m f p h k = elim (ended (m p).0) [
    | inl (a, e) ↦
        rw (e, ◌>>=◌)
          (elim h [
            | inl x ↦ inl ((k a (m p).1).0 ∙ x)
            | inr (r, s, x) ↦ inr (r, s, (k a (m p).1).0 ∙ x)
          ])
    | inr (n, e) ↦ rw (e, ◌>>=◌) h
  ]

  pub fail_with-Quiet : {A : Type 0} (text : String) → Quiet (fail_with {sys = sys} {A = A} text)
  unfolding fail_with ◌>>=◌
  fail_with-Quiet text p = (refl, λ a e. tt)

  pub or_fail-QuietAt :
      {A : Type 0} (text : String → String) (r : Result A) (p : Process sys)
      → QuietAt (λ a. r ≡ ok a) (or_fail {sys = sys} text r) p
  unfolding or_fail fail_with ◌>>=◌
  or_fail-QuietAt text (ok a) p = (refl, λ b e. ground (arith, e))
  or_fail-QuietAt text (err e) p = (refl, λ b e. ground (arith, e))

  pub or_fail-Quiet :
      {A : Type 0} (text : String → String) (r : Result A) → Quiet (or_fail {sys = sys} text r)
  or_fail-Quiet text r = quiet (or_fail text r) (λ p. (or_fail-QuietAt text r p).0)

  pub send_request-SendsAt :
      (S : HttpRequest → Type 0) (r : HttpRequest) (p : Process sys)
      → S r
      → SendsAt S (send_request sys r) p
  unfolding send_request
  send_request-SendsAt S r p s = go (sys.new_request r)
    where
      go :
          (checked : Result (Unit {0}))
          → SendsAt S
              (elim checked as (λ x. M sys (Result (ℕ × sys.Body))) [
                | err e ↦ pure (err e)
                | ok u ↦ do_request r
              ])
              p
      go (err e) = inl refl
      go (ok u) = inr (r, s, refl)

  handle_response-Quiet :
      (status : ℕ) (body : sys.Body) → Quiet (handle_response sys (status, body))
  unfolding handle_response fail_with ◌>>=◌
  handle_response-Quiet status body = elim (Bool-cases (nat_eq status 401)) [
    | inl e ↦ rw e (λ p. (refl, λ b x. tt))
    | inr e ↦ elim (Bool-cases (ltb status 200 || leb 300 status)) [
      | inl f ↦ elim (Bool-cases (not (sys.decode_error body == ""))) [
        | inl g ↦ rw e (rw f (rw g (λ p. (refl, λ b x. tt))))
        | inr g ↦ rw e (rw f (rw g (λ p. (refl, λ b x. tt))))
      ]
      | inr f ↦ rw e (rw f (λ p. (refl, λ b x. tt)))
    ]
  ]

  pub print_out-Quiet : (text : String) → Quiet (print_out {sys = sys} text)
  print_out-Quiet text p = (refl, λ a e. tt)

  pub show-Quiet :
      (failed : String) (decode : sys.Body → Result (sys.Json)) (answer : Result (ℕ × sys.Body))
      → Quiet (show sys failed decode answer)
  unfolding show
  show-Quiet failed decode answer =
      >>=-Quiet (or_fail (line_of sys "Request failed") answer) _
        (or_fail-Quiet (line_of sys "Request failed") answer)
        (λ (status, body).
          >>=-Quiet (handle_response sys (status, body)) _ (handle_response-Quiet status body) (λ b.
            >>=-Quiet (or_fail (line_of sys failed) (decode b)) _
              (or_fail-Quiet (line_of sys failed) (decode b))
              (λ value.
                >>=-Quiet (or_fail (λ e. "Marshaling failed: " <> e) (sys.indent value)) _
                  (or_fail-Quiet (λ e. "Marshaling failed: " <> e) (sys.indent value))
                  (λ pretty. print_out-Quiet (pretty <> "\n")))))

  pub confirm-Quiet :
      (text : String) (answer : Result (ℕ × sys.Body)) → Quiet (confirm sys text answer)
  unfolding confirm
  confirm-Quiet text answer =
      >>=-Quiet (or_fail (line_of sys "Request failed") answer) _
        (or_fail-Quiet (line_of sys "Request failed") answer)
        (λ (status, body).
          >>=-Quiet (handle_response sys (status, body)) _ (handle_response-Quiet status body)
            (λ b. print_out-Quiet (text <> "\n")))
