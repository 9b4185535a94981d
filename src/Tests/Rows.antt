-- ===== src/Tests/Rows.antt =====
-- internal/store on a concrete database.
use k8s_mtp.Common.{[], ◌∷◌, some, none, ◌≡◌, ◌≢◌, refl, arith, eq_iff}
use k8s_mtp.Tenants.{Tenant}
use k8s_mtp.Store.{Database, ok, err, failed, exec, row_of, create_tenant}
use k8s_mtp.Store.Members.{upsert_member, add_member, kept_member}
use k8s_mtp.Store.Columns.{varchar, kept_edit}
use k8s_mtp.Store.Invariant.{IsValid}
use k8s_mtp.Store.Kept.{create, update, add, run, run-IsValid}
use k8s_mtp.Store.Catalog.{Agrees, catalog, after, effect, effective, kept_call}
use k8s_mtp.Store.Refined.{run-Agrees}
use k8s_mtp.Store.Rows.{IsNew, create-create_unplaced}
use k8s_mtp.Tests.{postgres}
use k8s_mtp.Tests.Tenants.{acme}

abbrev pub empty : Database
empty = record { tenants = []; members = []; statements = 0 }

abbrev other : Tenant
other = record acme { name = "zed"; uid = "id-2"; spec = record (acme.spec) { name = "depot" } }

abbrev pub one_tenant : Database
one_tenant = record empty { tenants = row_of "id-1" 0 acme ∷ [] }

-- The tenant with another tier.
abbrev renamed : Tenant
renamed = record acme { uid = "id-1"; spec = record (acme.spec) { tier = "enterprise" } }

pub empty-IsValid : IsValid empty
empty-IsValid = record {
  unique_ids = tt;
  unique_names = tt;
  unique_namespaces = tt;
  unique_members = tt;
  known_tenants = tt;
}

acme-IsNew : IsNew acme "id-1" empty
acme-IsNew = record { fitting = refl; new_name = refl; new_id = refl; new_namespace = refl }

other-IsNew : IsNew other "id-2" empty
other-IsNew = record { fitting = refl; new_name = refl; new_id = refl; new_namespace = refl }

run-IsValid_example : IsValid (run postgres (create acme) empty)
run-IsValid_example = run-IsValid postgres (create acme) empty empty-IsValid

other_name : acme.spec.name ≢ other.spec.name
other_name e = ground (arith, e, eq_iff "shop" "depot")

create-create_unplaced_example :
    (create_tenant postgres other (create_tenant postgres acme empty).1).0
    ≡ err (failed "duplicate key value violates unique constraint")
create-create_unplaced_example =
    create-create_unplaced postgres acme other "id-1" "id-2" empty refl refl refl refl acme-IsNew
      other-IsNew other_name refl

ann_added : (add_member postgres "id-1" "ann" "admin" one_tenant).0 ≡ ok tt
unfolding add_member upsert_member exec varchar
ann_added = refl

run-Agrees_example :
    Agrees
      (catalog (run postgres (update renamed) one_tenant))
      (after (effective postgres (update renamed) one_tenant) (catalog one_tenant))
unfolding kept_edit varchar
run-Agrees_example = run-Agrees postgres (update renamed) one_tenant

-- The update takes effect.
renamed_edited :
    after (effective postgres (update renamed) one_tenant) (catalog one_tenant)
    ≡ effect (update renamed) "id-1" (catalog one_tenant)
unfolding kept_edit varchar
renamed_edited = refl

-- A role with spaces behind it is cut to its column, and another text that is as long is not stored.
padded :
    kept_call (add "id-1" "ann" "operator             ")
    ≡ some (add "id-1" "ann" "operator            ")
unfolding kept_member varchar
padded = refl

too_long : kept_call (add "id-1" "ann" "operator of the tenants") ≡ none
unfolding kept_member varchar
too_long = refl
