-- ===== src/Copies/Separate.antt =====
-- pkg/api/v1/types.go: the arrays that a copy has for itself.
use k8s_mtp.Common.{
  ℕ, zero, suc, ◌≤◌, ◌<◌, ◌≡◌, refl, String, Option, none, some, List, [], ◌∷◌, ◌++◌, ◌∙◌, length,
  length-append, arith,
}
use k8s_mtp.Copies.{
  Apimachinery, TenantSpec, Memory, array, set_elem, write, IsHeld, copy_strings, spec_copy_into,
}

module _ {ℓ} {A : Type ℓ} where
  -- The slice is nil or its array is none of the arrays.
  abbrev pub IsNew : List (List A) → Option ℕ → Type 0
  IsNew arrays none = Unit
  IsNew arrays (some b) = length arrays ≤ b

  array-append :
      (arrays more : List (List A)) (slice : Option ℕ)
      → IsHeld arrays slice
      → array (arrays ++ more) slice ≡ array arrays slice
  array-append arrays more none h = refl
  array-append [] more (some a) h = absurd (omega (arith, h))
  array-append (xs ∷ arrays) more (some zero) h = refl
  array-append (xs ∷ arrays) more (some (suc a)) h =
      array-append arrays more (some a) (omega (arith, h))

  array-set_elem_other :
      (arrays : List (List A)) (b a : ℕ) (ys : List A)
      → a < b
      → array (set_elem arrays b ys) (some a) ≡ array arrays (some a)
  array-set_elem_other [] b a ys h = refl
  array-set_elem_other (xs ∷ arrays) zero a ys h = absurd (omega (arith, h))
  array-set_elem_other (xs ∷ arrays) (suc b) zero ys h = refl
  array-set_elem_other (xs ∷ arrays) (suc b) (suc a) ys h =
      array-set_elem_other arrays b a ys (omega (arith, h))

  -- A write through a new slice leaves the arrays that were there.
  array-write_new :
      (before arrays : List (List A)) (new old : Option ℕ) (i : ℕ) (y : A)
      → IsNew before new
      → IsHeld before old
      → array (write arrays new i y) old ≡ array arrays old
  array-write_new before arrays none old i y h k = refl
  array-write_new before arrays (some b) none i y h k = refl
  array-write_new before arrays (some b) (some a) i y h k =
      array-set_elem_other arrays b a (set_elem (array arrays (some b)) i y) (omega (arith, h, k))

  array-allocated :
      (arrays : List (List A)) (xs : List A)
      → array (arrays ++ (xs ∷ [])) (some (length arrays)) ≡ xs
  array-allocated [] xs = refl
  array-allocated (ys ∷ arrays) xs = array-allocated arrays xs

  IsHeld-append :
      (arrays more : List (List A)) (slice : Option ℕ)
      → IsHeld arrays slice
      → IsHeld (arrays ++ more) slice
  IsHeld-append arrays more none h = tt
  IsHeld-append arrays more (some a) h = omega (arith, h, length-append arrays more)

module _ (lib : Apimachinery) where
  -- What a copied slice is.
  record IsCopied (slice : Option ℕ) (m : Memory lib) (copy : Option ℕ) (m' : Memory lib)
      : Type 0 where
    same : array m'.strings copy ≡ array m.strings slice
    new : IsNew m.strings copy
    held : IsHeld m'.strings copy
    kept : (old : Option ℕ) → IsHeld m.strings old → array m'.strings old ≡ array m.strings old
    grown : (old : Option ℕ) → IsHeld m.strings old → IsHeld m'.strings old

  copy_strings-IsCopied :
      (slice : Option ℕ) (m : Memory lib)
      → IsCopied slice m (copy_strings lib slice m).0 (copy_strings lib slice m).1
  copy_strings-IsCopied none m = record {
    same = refl;
    new = tt;
    held = tt;
    kept = λ old h. refl;
    grown = λ old h. h;
  }
  copy_strings-IsCopied (some a) m =
      let xs = array m.strings (some a) in
      record {
        same = array-allocated m.strings xs;
        new = omega arith;
        held = omega (arith, length-append m.strings (xs ∷ []));
        kept = array-append m.strings (xs ∷ []);
        grown = IsHeld-append m.strings (xs ∷ []);
      }

  -- The slices of the copy of a specification have the texts of the specification's, and a text that is
  -- written through one of them changes none of the arrays that were there.
  pub spec_copy_into_separate :
      (spec : TenantSpec) (m : Memory lib) (old : Option ℕ) (i : ℕ) (s : String)
      → IsHeld m.strings spec.admins
      → IsHeld m.strings spec.operators
      → IsHeld m.strings old
      → let (c, m') = spec_copy_into lib spec m in
        (array m'.strings c.admins ≡ array m.strings spec.admins)
        × (array m'.strings c.operators ≡ array m.strings spec.operators)
        × (array (write m'.strings c.admins i s) old ≡ array m.strings old)
        × (array (write m'.strings c.operators i s) old ≡ array m.strings old)
  unfolding spec_copy_into
  spec_copy_into_separate spec m old i s h k l =
      let (admins, m1) = copy_strings lib spec.admins m in
      let (operators, m2) = copy_strings lib spec.operators m1 in
      let a = copy_strings-IsCopied spec.admins m in
      let b = copy_strings-IsCopied spec.operators m1 in
      let kept = b.kept old (a.grown old l) ∙ a.kept old l in
      (
        b.kept admins a.held ∙ a.same,
        b.same ∙ a.kept spec.operators k,
        array-write_new m.strings m2.strings admins old i s a.new l ∙ kept,
        array-write_new m1.strings m2.strings operators old i s b.new (a.grown old l) ∙ kept,
      )
