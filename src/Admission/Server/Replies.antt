-- ===== src/Admission/Server/Replies.antt =====
-- What the mutating webhook of cmd/webhook/main.go does with the name of a namespace.
use text.Mathlib.TextLemmas.{append_assoc}
use mathlib.Core.Path.{◌≡⟨◌⟩◌, ◌∎}
use k8s_mtp.Common.{
  split_dash, ap, ◌∙◌, ◌<◌, String, true, ◌≡◌, ◌↔◌, List, [], ◌∷◌, Option, none, some, refl, arith,
  ◌<>◌, IsFree, split, split-IsFree, length, get_elem?, Option-cases, Bool-cases, inl, inr,
}
use k8s_mtp.Resources.{Resources}
use k8s_mtp.Admission.{should_validate_namespace}
use k8s_mtp.Admission.Server.{
  Codec, Patch, empty_object, string_value, Reply, crashed, review, versioned, mutate_patches,
  mutate_namespace, mutate_pod_handler,
}
use k8s_mtp.Admission.Server.Namespaces.{should_validate_namespace_iff}

-- The patches for a namespace that is cut into the given parts.
abbrev patches_of : List String → Option (List Patch)
patches_of parts = mutate_patches (get_elem? parts 1) (get_elem? parts 2)

patches_of-none_iff : (parts : List String) → (patches_of parts ≡ none) ↔ (length parts < 3)
unfolding mutate_patches
patches_of-none_iff [] = (λ _. omega arith, λ _. refl)
patches_of-none_iff (a ∷ []) = (λ _. omega arith, λ _. refl)
patches_of-none_iff (a ∷ b ∷ []) = (λ _. omega arith, λ _. refl)
patches_of-none_iff (a ∷ b ∷ c ∷ rest) = (λ e. cc, λ h. absurd (omega arith))

mutate_namespace-crashed_iff :
    (uid ns : String) → (mutate_namespace uid ns ≡ crashed) ↔ (length (split b'-' ns) < 3)
unfolding mutate_namespace
mutate_namespace-crashed_iff uid ns = elim (Option-cases (patches_of (split b'-' ns))) [
  | inl e ↦ rw (e, mutate_namespace) (λ _. (patches_of-none_iff _).0 e, λ _. refl)
  | inr (ps, e) ↦ rw (e, mutate_namespace) (λ h. cc, λ h. let f = (patches_of-none_iff _).1 h in cc)
]

-- The labels that a pod is given in a namespace with these second and third parts.
abbrev pub labelled : String → String → String → Reply
labelled uid name tier = review (
    versioned (record {
      uid = uid;
      allowed = true;
      result = none;
      patch = some (
          record { op = "add"; path = "/metadata/labels"; value = empty_object }
          ∷ record {
            op = "add";
            path = "/metadata/labels/tenant.k8s-mtp.io~1name";
            value = string_value name;
          }
          ∷ record {
            op = "add";
            path = "/metadata/labels/tenant.k8s-mtp.io~1tier";
            value = string_value tier;
          }
          ∷ []);
      patch_type = some "JSONPatch";
    }))

split-tenant :
    (name spec : String)
    → IsFree b'-' name
    → IsFree b'-' spec
    → split b'-' ("tenant-" <> (name <> ("-" <> spec))) ≡ "tenant" ∷ name ∷ spec ∷ []
split-tenant name spec h k =
    split b'-' ("tenant-" <> (name <> ("-" <> spec)))
    ≡⟨ ap (split b'-') (append_assoc "tenant" "-" (name <> ("-" <> spec))) ⟩
      split b'-' ("tenant" <> ("-" <> (name <> ("-" <> spec))))
    ≡⟨ split_dash "tenant" _ (omega arith) ⟩ "tenant" ∷ split b'-' (name <> ("-" <> spec))
    ≡⟨ ap (◌∷◌ "tenant") (split_dash name spec h ∙ ap (◌∷◌ name) (split-IsFree b'-' spec k)) ⟩
      "tenant" ∷ name ∷ spec ∷ [] ∎

mutate_namespace-tenant :
    (uid name spec : String)
    → IsFree b'-' name
    → IsFree b'-' spec
    → mutate_namespace uid ("tenant-" <> (name <> ("-" <> spec))) ≡ labelled uid name spec
unfolding mutate_namespace
mutate_namespace-tenant uid name spec h k = rw (split-tenant name spec h k, mutate_namespace)

module _ (k : Resources) (codec : Codec k) (body : codec.Body) where
  -- The body is a review of a request with these fields.
  abbrev pub Decoded : String → String → codec.Raw → Type 0
  Decoded uid namespace raw =
      codec.unmarshal_review body
      ≡ some (some (record { uid = uid; namespace = namespace; raw = raw }))

  -- A pod in a namespace `tenant-NAME-SPEC` whose two names hold no dash gets NAME and SPEC as its labels.
  pub mutate_pod_handler_labels :
      (uid name spec : String) (raw : codec.Raw)
      → Decoded uid ("tenant-" <> (name <> ("-" <> spec))) raw
      → IsFree b'-' name
      → IsFree b'-' spec
      → mutate_pod_handler k codec (some body) ≡ labelled uid name spec
  unfolding mutate_pod_handler
  mutate_pod_handler_labels uid name spec raw decoded h h' =
      let looked_at = (should_validate_namespace_iff _).1 (name <> ("-" <> spec), refl) in
      rw (decoded, mutate_pod_handler) (rw looked_at (mutate_namespace-tenant uid name spec h h'))

  -- The mutating handler panics exactly on a pod in a namespace that the webhook looks at and whose name
  -- has fewer than two dashes.
  pub mutate_pod_handler-crashed_iff :
      (uid namespace : String) (raw : codec.Raw)
      → Decoded uid namespace raw
      → (mutate_pod_handler k codec (some body) ≡ crashed)
        ↔ ((should_validate_namespace namespace ≡ true) × (length (split b'-' namespace) < 3))
  unfolding mutate_pod_handler
  mutate_pod_handler-crashed_iff uid namespace raw decoded =
      elim (Bool-cases (should_validate_namespace namespace)) [
        | inl e ↦
            rw (decoded, mutate_pod_handler, e)
              (
                λ h. (refl, (mutate_namespace-crashed_iff uid namespace).0 h),
                λ h. (mutate_namespace-crashed_iff uid namespace).1 h.1,
              )
        | inr e ↦ rw (decoded, mutate_pod_handler, e) (λ h. cc, λ h. cc)
      ]
