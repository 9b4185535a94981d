-- ===== src/Store/Columns.antt =====
-- The columns of internal/store/migrations/001_initial_schema.up.sql with a type `VARCHAR(n)`.
use Prim.Native.Char.{Char, code}
use Prim.Native.String.count
use Prim.Native.String.{count}
use k8s_mtp.Common.{
  ℕ, zero, suc, ◌≤◌, String, Bool, true, false, Option, none, some, ◌≡◌, ◌∙◌, ap, sym, refl, arith,
  ◌<>◌, leb, nat_eq, if◌then◌else◌, ◌&&◌, Bool-cases, Option-cases, inl, inr, subst,
}
use k8s_mtp.Tenants.{Tenant}
use text.Mathlib.TextLemmas.{nil-append, cons-append}

-- The text has at most `n` characters.
abbrev pub fits : ℕ → String → Bool
fits n s = leb (count s) n

unfoldable is_blank : String → Bool
is_blank String.[] = true
is_blank (String.◌∷◌ c s) = let rest = is_blank s in if nat_eq (code c) 32 then rest else false

abbrev before : Char → Option String → Option String
before c none = none
before c (some s) = some (String.◌∷◌ c s)

-- What a column of type `VARCHAR(n)` makes of a text: the text, cut off at `n` characters if all the
-- others are spaces; `none` is the error for a text that is too long.
unfoldable pub varchar : ℕ → String → Option String
unfolding is_blank
varchar zero s = if is_blank s then some "" else none
varchar (suc n) String.[] = some ""
varchar (suc n) (String.◌∷◌ c s) = before c (varchar n s)

pub varchar_fitting : (n : ℕ) (s : String) → fits n s ≡ true → varchar n s ≡ some s
unfolding varchar
varchar_fitting zero String.[] h = refl
varchar_fitting zero (String.◌∷◌ c s) h = absurd (ground (arith, h, count.cons c s))
varchar_fitting (suc n) String.[] h = refl
varchar_fitting (suc n) (String.◌∷◌ c s) h =
    ap (before c) (varchar_fitting n s (ground (arith, h, count.cons c s)))

some-none : {A : Type 0} {a : A} → none ≡ some a → ⊥
some-none e = ground (arith, e)

cut : {A : Type 0} {a b : A} → some a ≡ some b → a ≡ b
cut {a = a} e = ap (λ o. elim o [ none ↦ a | some x ↦ x ]) e

is_blank-varchar : (n : ℕ) (s m : String) → varchar n s ≡ some m → is_blank m ≡ is_blank s
unfolding varchar
is_blank-varchar zero s m h = elim (Bool-cases (is_blank s)) [
  | inl e ↦ ap is_blank (sym (cut (rw e at h))) ∙ sym e
  | inr e ↦ absurd (ground (arith, h, e))
]
is_blank-varchar (suc n) String.[] m h = ap is_blank (sym (cut h))
is_blank-varchar (suc n) (String.◌∷◌ c s) m h = elim (Option-cases (varchar n s)) [
  | inl e ↦ absurd (ground (arith, h, e))
  | inr (x, e) ↦ ap is_blank (sym (cut (rw e at h))) ∙ rw (is_blank-varchar n s x e) refl
]

-- A narrower column makes the same of a text and of what a wider one makes of it.
varchar-varchar :
    (k n : ℕ) (s m : String) → k ≤ n → varchar n s ≡ some m → varchar k m ≡ varchar k s
unfolding varchar
varchar-varchar zero n s m l h = rw (is_blank-varchar n s m h) refl
varchar-varchar (suc k) zero s m l h = absurd (omega arith)
varchar-varchar (suc k) (suc n) String.[] m l h = ap (varchar (suc k)) (sym (cut h))
varchar-varchar (suc k) (suc n) (String.◌∷◌ c s) m l h = elim (Option-cases (varchar n s)) [
  | inl e ↦ absurd (ground (arith, h, e))
  | inr (x, e) ↦
      ap (varchar (suc k)) (sym (cut (rw e at h)))
      ∙ ap (before c) (varchar-varchar k n s x (omega arith) e)
]

abbrev before_all : String → Option String → Option String
before_all String.[] o = o
before_all (String.◌∷◌ c p) o = before c (before_all p o)

abbrev widened : String → ℕ → ℕ
widened String.[] n = n
widened (String.◌∷◌ c p) n = suc (widened p n)

varchar-append :
    (p s : String) (n : ℕ) → varchar (widened p n) (p <> s) ≡ before_all p (varchar n s)
unfolding varchar
varchar-append String.[] s n = ap (varchar n) (nil-append s)
varchar-append (String.◌∷◌ c p) s n =
    ap (varchar (suc (widened p n))) (cons-append c p s) ∙ ap (before c) (varchar-append p s n)

-- A prefix in front of what a column makes of a text comes to the same as in front of the text.
pub prefix-varchar :
    (s m : String)
    → varchar 63 s ≡ some m
    → varchar 63 ("tenant-" <> m) ≡ varchar 63 ("tenant-" <> s)
prefix-varchar s m h =
    varchar-append "tenant-" m 56
    ∙ ap (before_all "tenant-") (varchar-varchar 56 63 s m (omega arith) h)
    ∙ sym (varchar-append "tenant-" s 56)

-- No value is longer than its column.
abbrev pub fits_columns : Tenant → Bool
fits_columns t =
    fits 63 t.spec.name
    && (fits 63 t.status.namespace && (fits 20 t.spec.tier && fits 255 t.spec.owner_email))

-- The tenant with its tier and its owner as their columns keep them; `none` if one is too long.
unfoldable pub kept_edit : Tenant → Option Tenant
kept_edit t = elim (varchar 20 t.spec.tier) [
  | none ↦ none
  | some tier ↦ elim (varchar 255 t.spec.owner_email) [
    | none ↦ none
    | some owner ↦ some (record t { spec = record (t.spec) { tier = tier; owner_email = owner } })
  ]
]

-- The tenant with its name and its namespace as their columns keep them.
unfoldable pub kept_names : Tenant → Option Tenant
kept_names t = elim (varchar 63 t.spec.name) [
  | none ↦ none
  | some name ↦ elim (varchar 63 t.status.namespace) [
    | none ↦ none
    | some namespace ↦ some (record t {
      spec = record (t.spec) { name = name };
      status = record (t.status) { namespace = namespace };
    })
  ]
]

-- The tenant as the columns keep it.
unfoldable pub kept_tenant : Tenant → Option Tenant
unfolding kept_names kept_edit
kept_tenant t = elim (kept_names t) [ none ↦ none | some s ↦ kept_edit s ]

pub kept_edit_fitting :
    (t : Tenant)
    → fits 20 t.spec.tier ≡ true
    → fits 255 t.spec.owner_email ≡ true
    → kept_edit t ≡ some t
unfolding kept_edit
kept_edit_fitting t a b =
    rw (varchar_fitting 20 t.spec.tier a, varchar_fitting 255 t.spec.owner_email b, kept_edit) refl

pub kept_tenant_fitting : (t : Tenant) → fits_columns t ≡ true → kept_tenant t ≡ some t
unfolding kept_tenant kept_names
kept_tenant_fitting t h =
    rw (names, kept_tenant) (kept_edit_fitting t (ground (arith, h)) (ground (arith, h)))
  where
    names : kept_names t ≡ some t
    names =
        rw (varchar_fitting 63 t.spec.name (ground (arith, h)), kept_names)
          (rw (varchar_fitting 63 t.status.namespace (ground (arith, h))) refl)

-- The column of the namespace makes of the name that is kept, with the prefix, the namespace that is kept.
abbrev pub IsNamed : Tenant → Type 0
IsNamed t = varchar 63 ("tenant-" <> t.spec.name) ≡ some t.status.namespace

kept_edit-IsNamed : (t s : Tenant) → kept_edit t ≡ some s → IsNamed t → IsNamed s
unfolding kept_edit
kept_edit-IsNamed t s e h = elim (Option-cases (varchar 20 t.spec.tier)) [
  | inl a ↦ absurd (some-none (rw (a, kept_edit) at e))
  | inr (tier, a) ↦ elim (Option-cases (varchar 255 t.spec.owner_email)) [
    | inl b ↦ absurd (some-none (rw b at (rw (a, kept_edit) at e)))
    | inr (owner, b) ↦ subst IsNamed (cut (rw b at (rw (a, kept_edit) at e))) h
  ]
]

kept_names-IsNamed :
    (t s : Tenant)
    → t.status.namespace ≡ "tenant-" <> t.spec.name
    → kept_names t ≡ some s
    → IsNamed s
unfolding kept_names
kept_names-IsNamed t s p e = elim (Option-cases (varchar 63 t.spec.name)) [
  | inl a ↦ absurd (some-none (rw (a, kept_names) at e))
  | inr (name, a) ↦ elim (Option-cases (varchar 63 t.status.namespace)) [
    | inl b ↦ absurd (some-none (rw b at (rw (a, kept_names) at e)))
    | inr (namespace, b) ↦
        subst IsNamed (cut (rw b at (rw (a, kept_names) at e)))
          (prefix-varchar t.spec.name name a ∙ ap (varchar 63) (sym p) ∙ b)
  ]
]

pub kept_tenant-IsNamed :
    (t s : Tenant)
    → t.status.namespace ≡ "tenant-" <> t.spec.name
    → kept_tenant t ≡ some s
    → IsNamed s
unfolding kept_tenant
kept_tenant-IsNamed t s p e = elim (Option-cases (kept_names t)) [
  | inl a ↦ absurd (some-none (rw (a, kept_tenant) at e))
  | inr (u, a) ↦ kept_edit-IsNamed u s (rw (a, kept_tenant) at e) (kept_names-IsNamed t u p a)
]
