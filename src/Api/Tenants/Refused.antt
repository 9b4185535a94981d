-- ===== src/Api/Tenants/Refused.antt =====
-- internal/handlers/tenants.go: which requests for a new tenant are refused.
use k8s_mtp.Common.{
  text_cases, String, Bool, true, false, not, ◌&&◌, none, some, ◌≡◌, ◌≢◌, ◌⊎◌, refl, arith, ◌==◌,
  inl, inr,
}
use k8s_mtp.Store.{Database, Postgres}
use k8s_mtp.Tenants.{Tenant}
use k8s_mtp.Api.{CreateTenantRequest, http_error, Response}
use k8s_mtp.Api.Tenants.{requested, refusal, insert_requested, create_tenant}

-- What a request has to be.
pub record IsAcceptable (req : CreateTenantRequest) : Type 0 where
  pub named : req.name ≢ ""
  pub tiered : (req.tier ≡ "free") ⊎ ((req.tier ≡ "pro") ⊎ (req.tier ≡ "enterprise"))
  pub owned : req.owner_email ≢ ""

-- A request that is refused, with its answer.
record IsRefused (req : CreateTenantRequest) : Type 0 where
  answer : Response
  refused : refusal req ≡ some answer
  bad_request : answer.status ≡ 400
  reason : ¬ (IsAcceptable req)

abbrev IsTier : String → Type 0
IsTier tier = (tier ≡ "free") ⊎ ((tier ≡ "pro") ⊎ (tier ≡ "enterprise"))

abbrev is_wrong : String → Bool
is_wrong tier = not (tier == "free") && (not (tier == "pro") && not (tier == "enterprise"))

IsTier-cases :
    (tier : String)
    → ((is_wrong tier ≡ false) × IsTier tier) ⊎ ((is_wrong tier ≡ true) × ¬ (IsTier tier))
IsTier-cases tier = elim (text_cases tier "free") [
  | inl (e, p) ↦ inl (rw e refl, inl p)
  | inr (e, p) ↦ elim (text_cases tier "pro") [
    | inl (f, q) ↦ inl (rw (e, f) refl, inr (inl q))
    | inr (f, q) ↦ elim (text_cases tier "enterprise") [
      | inl (g, r) ↦ inl (rw (e, f, g) refl, inr (inr r))
      | inr (g, r) ↦ inr (
        rw (e, f, g) refl,
        λ w. elim w [ inl x ↦ p x | inr y ↦ elim y [ inl x ↦ q x | inr z ↦ r z ] ],
      )
    ]
  ]
]

refusal_cases :
    (req : CreateTenantRequest) → ((refusal req ≡ none) × IsAcceptable req) ⊎ IsRefused req
unfolding refusal
refusal_cases req = elim (text_cases req.name "") [
  | inl (e, p) ↦ inr (record {
    answer = http_error "{\"error\": \"tenant name is required\"}" 400;
    refused = rw (e, refusal) refl;
    bad_request = refl;
    reason = λ a. a.named p;
  })
  | inr (e, p) ↦ elim (IsTier-cases req.tier) [
    | inr (f, q) ↦ inr (record {
      answer = http_error "{\"error\": \"invalid tier\"}" 400;
      refused = rw (e, f, refusal) refl;
      bad_request = refl;
      reason = λ a. q a.tiered;
    })
    | inl (f, q) ↦ elim (text_cases req.owner_email "") [
      | inl (g, r) ↦ inr (record {
        answer = http_error "{\"error\": \"owner email is required\"}" 400;
        refused = rw (e, f, g, refusal) refl;
        bad_request = refl;
        reason = λ a. a.owned r;
      })
      | inr (g, r) ↦ inl (rw (e, f, g, refusal) refl, record { named = p; tiered = q; owned = r })
    ]
  ]
]

inserted_status :
    (pg : Postgres) (t : Tenant) (db : Database) → (insert_requested pg t db).0.status ≢ 400
unfolding insert_requested
inserted_status pg t db = ground arith

-- A decoded request either has a name, an owner and one of the three tiers, and is then not answered with
-- 400; or it lacks one of them, and is answered with 400 without a statement, so that the database is left
-- as it is.
pub create_tenant-IsAcceptable :
    (pg : Postgres) (uid : String) (req : CreateTenantRequest) (db : Database)
    → (IsAcceptable req × ((create_tenant pg uid (some req) db).0.status ≢ 400))
      ⊎ (¬ (IsAcceptable req)
          × ((create_tenant pg uid (some req) db).0.status ≡ 400)
          × ((create_tenant pg uid (some req) db).1 ≡ db))
unfolding create_tenant
create_tenant-IsAcceptable pg uid req db = elim (refusal_cases req) [
  | inl (e, a) ↦
      inl (a, λ h. inserted_status pg (requested req uid) db (rw (e, create_tenant) at h))
  | inr r ↦
      inr
        (r.reason, rw (r.refused, create_tenant) r.bad_request, rw (r.refused, create_tenant) refl)
]
