-- ===== src/Store/Acts.antt =====
-- internal/store: what each statement that writes does to the catalog.
use k8s_mtp.Common.{
  ℕ, String, true, false, not, ◌&&◌, ◌||◌, none, some, ◌∷◌, map, ◌≡◌, ap, refl, subst, arith, ◌==◌,
  eq_iff, if◌then◌else◌, any, find, Bool-cases, Option-cases, Bool, inl, inr,
}
use k8s_mtp.Tenants.{Tenant}
use k8s_mtp.Store.{
  MemberRow, Database, Statement, insert_kept, write_kept, live_with_id, set_row, scanned_row,
  insert_tenant, update_row, mark_deleted, remove_row,
}
use k8s_mtp.Store.Members.{is_member, role_of, kept_member, upsert_kept, upsert_member}
use k8s_mtp.Store.Columns.{kept_edit, kept_tenant}
use k8s_mtp.Store.Kept.{Call, create, update, delete, hard_delete, add, remove, without}
use k8s_mtp.Store.Catalog.{
  catalog, after_edit, stored, effect, kept_call, if_accepted, after, Agrees,
}
use k8s_mtp.Store.Found.{
  find-keep-none, find-keep, find-map, find-set_row_other, find-set_row-after_edit,
}
use k8s_mtp.Store.Rows.{marked_not_found, set_role_found}

-- The statement does to the catalog what the call is to do.
abbrev pub Acts : {A : Type 0} → Call → (String → Statement A) → Type 0
Acts call statement =
    (id : String) (now : ℕ) (db : Database)
    → Agrees (catalog (statement id now db).1)
        (after (if_accepted db (kept_call call) id) (catalog db))

pub same_catalog : (db : Database) → Agrees (catalog db) (catalog db)
same_catalog db = record { tenants_agree = λ id. refl; roles_agree = λ id user. refl }

insert_kept-Acts :
    (t : Tenant) (id : String) (now : ℕ) (db : Database)
    → Agrees
        (catalog (insert_kept t id now db).1)
        (after (if_accepted db (some (create t)) id) (catalog db))
unfolding insert_kept
insert_kept-Acts t id now db = elim (Bool-cases (any (λ r. r.name == t.spec.name) db.tenants)) [
  | inl n ↦ rw (n, insert_kept) (same_catalog db)
  | inr n ↦
      elim (Bool-cases (
        any (λ r. r.id == id) db.tenants
        || any (λ r. r.namespace == t.status.namespace) db.tenants)) [
          | inl o ↦ rw (n, o, insert_kept) (same_catalog db)
          | inr o ↦
              rw (n, o, insert_kept)
                record {
                  tenants_agree = λ i. elim (Bool-cases (id == i)) [
                    | inl f ↦ rw f (ap (λ x. some (stored t x)) refl)
                    | inr f ↦ rw f refl
                  ];
                  roles_agree = λ i user. refl;
                }
        ]
]

pub insert_tenant-Acts : (t : Tenant) → Acts (create t) (insert_tenant t)
unfolding insert_tenant
insert_tenant-Acts t id now db = elim (Option-cases (kept_tenant t)) [
  | inl e ↦ rw (e, insert_tenant) (same_catalog db)
  | inr (s, e) ↦ rw (e, insert_tenant) (insert_kept-Acts s id now db)
]

write_kept-Acts :
    (t : Tenant) (id : String) (now : ℕ) (db : Database)
    → Agrees (catalog (write_kept t id now db).1) (effect (update t) id (catalog db))
unfolding write_kept
write_kept-Acts t id now db = record {
  tenants_agree = λ i. elim (Bool-cases (id == i)) [
    | inl f ↦ rw f (
        subst
          (λ j.
            scanned_row (
              find (live_with_id j) (
                set_row (live_with_id id)
                  (λ r. record r {
                    tier = t.spec.tier;
                    owner_email = t.spec.owner_email;
                    updated_at = now;
                  })
                  db.tenants))
            ≡ after_edit t (scanned_row (find (live_with_id j) db.tenants)))
          ((eq_iff id i).0 f) (find-set_row-after_edit t id now db.tenants))
    | inr f ↦ rw f (ap scanned_row (find-set_row_other id i _ db.tenants (λ r. refl) f))
  ];
  roles_agree = λ i user. refl;
}

pub update_row-Acts : (plans : Bool) (t : Tenant) → Acts (update t) (update_row plans t)
unfolding update_row
update_row-Acts plans t id now db = elim (Option-cases (kept_edit t)) [
  | inr (s, e) ↦ rw (e, update_row) (write_kept-Acts s id now db)
  | inl e ↦ elim (Bool-cases (plans || any (live_with_id id) db.tenants)) [
    | inl f ↦ rw (e, update_row) (rw f (same_catalog db))
    | inr f ↦ rw (e, update_row) (rw f (same_catalog db))
  ]
]

pub mark_deleted-Acts : (text : String) → Acts (delete text) mark_deleted
unfolding mark_deleted
mark_deleted-Acts text id now db = record {
  tenants_agree = λ i. elim (Bool-cases (id == i)) [
    | inl f ↦ rw f (
        subst
          (λ j.
            scanned_row (
              find (live_with_id j)
                (set_row (live_with_id id) (λ r. record r { deleted_at = some now }) db.tenants))
            ≡ none)
          ((eq_iff id i).0 f) (ap scanned_row (marked_not_found id now db.tenants)))
    | inr f ↦ rw f (ap scanned_row (find-set_row_other id i _ db.tenants (λ r. refl) f))
  ];
  roles_agree = λ i user. refl;
}

pub remove_row-Acts : (text : String) → Acts (hard_delete text) remove_row
unfolding remove_row
remove_row-Acts text id now db = record {
  tenants_agree = λ i. elim (Bool-cases (id == i)) [
    | inl f ↦ rw f (
        ap scanned_row (
          find-keep-none (live_with_id i) (λ r. not (r.id == id)) db.tenants
            (λ r h. ground (arith, f, h, eq_iff id i, eq_iff r.id i, eq_iff r.id id))))
    | inr f ↦ rw f (
        ap scanned_row (
          find-keep (live_with_id i) (λ r. not (r.id == id)) db.tenants
            (λ r h. ground (arith, f, h, eq_iff id i, eq_iff r.id i, eq_iff r.id id))))
  ];
  roles_agree = λ i user. elim (Bool-cases (id == i)) [
    | inl f ↦ rw f (
        ap role_of (
          find-keep-none (is_member i user) (λ m. not (m.tenant_id == id)) db.members
            (λ m h.
              ground (arith, f, h, eq_iff id i, eq_iff m.tenant_id i, eq_iff m.tenant_id id))))
    | inr f ↦ rw f (
        ap role_of (
          find-keep (is_member i user) (λ m. not (m.tenant_id == id)) db.members
            (λ m h.
              ground (arith, f, h, eq_iff id i, eq_iff m.tenant_id i, eq_iff m.tenant_id id))))
  ];
}

apart_members :
    (id i user u : String) (m : MemberRow)
    → (id == i && user == u) ≡ false
    → is_member i u m ≡ true
    → is_member id user m ≡ false
apart_members id i user u m f h = ground (
  arith,
  f,
  h,
  eq_iff id i,
  eq_iff user u,
  eq_iff m.tenant_id i,
  eq_iff m.tenant_id id,
  eq_iff m.user_id u,
  eq_iff m.user_id user,
)

same_pair :
    (id i user u : String)
    → (id == i && user == u) ≡ true
    → ◌≡◌ {A = String × String} (id, user) (i, u)
same_pair id i user u f =
    let e = (eq_iff id i).0 (ground (arith, f)) in
    let g = (eq_iff user u).0 (ground (arith, f)) in λ x. (e x, g x)

pub remove_member-Acts : (text user : String) → Acts (remove text user) (λ id. without id user)
remove_member-Acts text user id now db = record {
  tenants_agree = λ i. refl;
  roles_agree = λ i u. elim (Bool-cases (id == i && user == u)) [
    | inl f ↦ rw f (
        ap role_of (
          find-keep-none (is_member i u) (λ m. not (is_member id user m)) db.members
            (λ m h. ground (arith, f, h, eq_iff id i, eq_iff user u))))
    | inr f ↦ rw f (
        ap role_of (
          find-keep (is_member i u) (λ m. not (is_member id user m)) db.members
            (λ m h. rw (apart_members id i user u m f h) refl)))
  ];
}

-- The role that is found after it was set.
set_role-Acts :
    (text user role id : String) (db : Database)
    → any (is_member id user) db.members ≡ true
    → Agrees
        (catalog (record db {
          members =
              map (λ m. if is_member id user m then record m { role = role } else m) db.members;
        }))
        (effect (add text user role) id (catalog db))
set_role-Acts text user role id db h = record {
  tenants_agree = λ i. refl;
  roles_agree = λ i u. elim (Bool-cases (id == i && user == u)) [
    | inl f ↦ rw f (
        subst
          (λ x.
            role_of (
              find (is_member x.0 x.1)
                (map (λ m. if is_member id user m then record m { role = role } else m) db.members))
            ≡ some role)
          (same_pair id i user u f) (set_role_found id user role db.members h))
    | inr f ↦ rw f (
        ap role_of (
          find-map (is_member i u) _ db.members
            (λ m. elim (Bool-cases (is_member id user m)) [ inl g ↦ rw g refl | inr g ↦ rw g refl ])
            (λ m k. rw (apart_members id i user u m f k) refl)))
  ];
}

-- The role that is found of a new member.
new_member-Acts :
    (text user role id : String) (now : ℕ) (db : Database)
    → Agrees
        (catalog (record db {
          members =
              record { tenant_id = id; user_id = user; role = role; created_at = now } ∷ db.members;
        }))
        (effect (add text user role) id (catalog db))
new_member-Acts text user role id now db = record {
  tenants_agree = λ i. refl;
  roles_agree =
      λ i u. elim (Bool-cases (id == i && user == u)) [ inl f ↦ rw f refl | inr f ↦ rw f refl ];
}

upsert_kept-Acts :
    (text user role id : String) (now : ℕ) (db : Database)
    → Agrees
        (catalog (upsert_kept user role id now db).1)
        (after (if_accepted db (some (add text user role)) id) (catalog db))
unfolding upsert_kept
upsert_kept-Acts text user role id now db = elim (Bool-cases (any (is_member id user) db.members)) [
  | inl h ↦ rw (h, upsert_kept) (set_role-Acts text user role id db h)
  | inr h ↦ elim (Bool-cases (any (λ r. r.id == id) db.tenants)) [
    | inl k ↦ rw (h, k, upsert_kept) (new_member-Acts text user role id now db)
    | inr k ↦ rw (h, k, upsert_kept) (same_catalog db)
  ]
]

pub upsert_member-Acts :
    (text user role : String) → Acts (add text user role) (upsert_member user role)
unfolding upsert_member
upsert_member-Acts text user role id now db = elim (Option-cases (kept_member user role)) [
  | inl e ↦ rw (e, upsert_member) (same_catalog db)
  | inr ((u, r), e) ↦ rw (e, upsert_member) (upsert_kept-Acts text u r id now db)
]
