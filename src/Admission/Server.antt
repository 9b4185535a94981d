-- ===== src/Admission/Server.antt =====
-- cmd/webhook/main.go: the HTTP handlers of the admission webhook.
pub mod Namespaces
pub mod Replies
pub mod Verdicts
pub mod Labels
use k8s_mtp.Common.{
  ℕ, suc, String, Bool, true, false, not, Option, none, some, List, [], ◌∷◌, if◌then◌else◌, split,
  get_elem?,
}
use k8s_mtp.Resources.{Resources}
use k8s_mtp.Admission.{
  Status, empty_status, success, Pod, validate_pod_resource, should_validate_namespace,
}

-- What the handlers decode by `encoding/json`, under the field tags of k8s.io/api: a parameter.
-- `Body` is a request's body, `Raw` the JSON of an object inside a review.
pub record Codec (k : Resources) : Type 1 where
  pub Body : Type 0
  pub Raw : Type 0
  -- `none`: the body is no `AdmissionReview`. The result is the review's `Request`, a pointer.
  pub unmarshal_review :
      Body → Option (Option (record { uid : String; namespace : String; raw : Raw }))
  pub unmarshal_pod : Raw → Option (Pod k)

pub data PatchValue : Type 0 where
  empty_object : PatchValue
  string_value : String → PatchValue

pub record Patch : Type 0 where
  pub op : String
  pub path : String
  pub value : PatchValue

pub record AdmissionResponse : Type 0 where
  pub uid : String
  pub allowed : Bool
  pub result : Option Status
  pub patch : Option (List Patch)
  pub patch_type : Option String

pub record AdmissionReview : Type 0 where
  pub api_version : String
  pub kind : String
  pub response : AdmissionResponse

-- What a handler writes. `crashed` is a panic of the handler, after which nothing is written.
pub data Reply : Type 0 where
  http_error : String → ℕ → Reply
  review : AdmissionReview → Reply
  crashed : Reply

-- The answer in a namespace that is not validated.
abbrev pub pass_through : String → AdmissionReview
pass_through uid = record {
  api_version = "";
  kind = "";
  response = record {
    uid = uid;
    allowed = true;
    result = some success;
    patch = none;
    patch_type = none;
  };
}

abbrev pub versioned : AdmissionResponse → AdmissionReview
versioned response = record {
  api_version = "admission.k8s.io/v1";
  kind = "AdmissionReview";
  response = response;
}

-- The patches for the parts at 1 and 2 of the namespace, `none` where one is out of range.
unfoldable pub mutate_patches : Option String → Option String → Option (List Patch)
mutate_patches (some name) (some tier) = some (
    record { op = "add"; path = "/metadata/labels"; value = empty_object }
    ∷ record {
      op = "add";
      path = "/metadata/labels/tenant.k8s-mtp.io~1name";
      value = string_value name;
    }
    ∷ record {
      op = "add";
      path = "/metadata/labels/tenant.k8s-mtp.io~1tier";
      value = string_value tier;
    }
    ∷ [])
mutate_patches none tier = none
mutate_patches (some name) none = none

unfoldable pub mutate_namespace : String → String → Reply
unfolding mutate_patches
mutate_namespace uid namespace =
    elim (mutate_patches (get_elem? (split b'-' namespace) 1)
      (get_elem? (split b'-' namespace) 2)) [
        | none ↦ crashed
        | some patches ↦ review (
            versioned (record {
              uid = uid;
              allowed = true;
              result = none;
              patch = some patches;
              patch_type = some "JSONPatch";
            }))
      ]

module _ (k : Resources) (codec : Codec k) where
  open codec use {Body, Raw, unmarshal_review, unmarshal_pod}

  unfoldable pub review_pod : String → Option (Pod k) → Reply
  review_pod uid none = http_error "Failed to unmarshal json" 400
  review_pod uid (some pod) =
      let (allowed, reason) = validate_pod_resource k pod in
      review (
        versioned (record {
          uid = uid;
          allowed = allowed;
          result = some (record empty_status { message = reason.message });
          patch = none;
          patch_type = none;
        }))

  -- The argument is what `io.ReadAll` gives: `none` where it fails.
  unfoldable pub validate_pod_handler : Option Body → Reply
  unfolding review_pod
  validate_pod_handler none = http_error "Failed to read body" 400
  validate_pod_handler (some body) = elim (unmarshal_review body) [
    | none ↦ http_error "Failed to unmarshal json" 400
    | some none ↦ crashed
    | some (some request) ↦
        if not (should_validate_namespace request.namespace)
        then review (pass_through request.uid)
        else review_pod request.uid (unmarshal_pod request.raw)
  ]

  unfoldable pub mutate_pod_handler : Option Body → Reply
  unfolding mutate_namespace
  mutate_pod_handler none = http_error "Failed to read body" 400
  mutate_pod_handler (some body) = elim (unmarshal_review body) [
    | none ↦ http_error "Failed to unmarshal json" 400
    | some none ↦ crashed
    | some (some request) ↦
        if not (should_validate_namespace request.namespace)
        then review (pass_through request.uid)
        else mutate_namespace request.uid request.namespace
  ]
