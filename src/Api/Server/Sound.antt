-- ===== src/Api/Server/Sound.antt =====
-- What holds of the tables however the API is used.
use k8s_mtp.Common.{
  ℕ, Option, String, Bool, not, ◌||◌, List, [], ◌∷◌, map, keep, find, any, ◌≡◌, ◌⊎◌, ◌==◌, ◌<>◌,
  if◌then◌else◌, All, Bool-cases, Option-cases, inl, inr, refl, sym, ap, subst, ◌∙◌, none, some,
  arith,
}
use k8s_mtp.Tenants.{Tenant}
use k8s_mtp.Store.{
  TenantRow, MemberRow, Database, Postgres, Health, healthy, refused, lost, Statement, exec,
  with_uuid, sent, insert_tenant, create_tenant, update_row, update_tenant, mark_deleted,
  delete_tenant, get_tenant_by_id, get_tenant_by_name, list_tenants, select_row, live_with_id,
  insert_kept, write_kept, set_row, ok, scanned_row, live_with_name, scanned, is_live,
}
use k8s_mtp.Store.Members.{
  kept_member, upsert_kept, upsert_member, add_member, remove_member, list_members, get_member_role,
  is_member, member_of, role_of,
}
use k8s_mtp.Store.Columns.{varchar, kept_edit, kept_tenant, IsNamed, kept_tenant-IsNamed}
use k8s_mtp.Store.Distinct.{All-keep, All-of_map}
use k8s_mtp.Store.Invariant.{IsValid}
use k8s_mtp.Store.Kept.{Call, create, add, run, run-IsValid}
use k8s_mtp.Store.Kept
use k8s_mtp.Api.Server.{Request, State, Server, serve, serve_all}
use k8s_mtp.Api.Server.Calls.{IsApiCall, Calls, no_call, then_call, serve-Calls}

abbrev pub HasRole : MemberRow → Type 0
HasRole m = (m.role ≡ "admin") ⊎ (m.role ≡ "operator")

abbrev pub IsPlaced : TenantRow → Type 0
IsPlaced r = varchar 63 ("tenant-" <> r.name) ≡ some r.namespace

abbrev Rows : Database → Type 0
Rows db = All HasRole db.members × All IsPlaced db.tenants

abbrev KeepsRows : {A : Type 0} → Statement A → Type 0
KeepsRows statement = (now : ℕ) (db : Database) → Rows db → Rows (statement now db).1

-- The constraints of the schema hold, each member is an admin or an operator, and each tenant's namespace
-- is what its column keeps of `tenant-` and the tenant's name.
pub record IsSound (db : Database) : Type 0 where
  pub valid : IsValid db
  pub rows : All HasRole db.members × All IsPlaced db.tenants

exec-Rows :
    {A : Type 0} (pg : Postgres) (statement : Statement A) (db : Database)
    → KeepsRows statement
    → Rows db
    → Rows (exec pg statement db).1
unfolding exec
exec-Rows pg statement db h v = by_health (pg.health db.statements) refl
  where
    by_health : (x : Health) → pg.health db.statements ≡ x → Rows (exec pg statement db).1
    by_health healthy e = rw (e, exec) (h _ (sent db) v)
    by_health (refused m) e = rw (e, exec) v
    by_health (lost m) e = rw (e, exec) (h _ (sent db) v)

by_id-Rows :
    {A : Type 0} (pg : Postgres) (text : String) (statement : String → Statement A) (db : Database)
    → ((id : String) → KeepsRows (statement id))
    → Rows db
    → Rows (exec pg (with_uuid pg text statement) db).1
by_id-Rows pg text statement db h v = exec-Rows pg (with_uuid pg text statement) db kept v
  where
    kept : KeepsRows (with_uuid pg text statement)
    kept now d w = elim (Option-cases (pg.uuid text)) [
      | inl e ↦ rw (e, with_uuid) w
      | inr (id, e) ↦ rw (e, with_uuid) (h id now d w)
    ]

insert_kept-Rows : (t : Tenant) (id : String) → IsNamed t → KeepsRows (insert_kept t id)
unfolding insert_kept
insert_kept-Rows t id p now db v = elim (Bool-cases (any (λ r. r.name == t.spec.name) db.tenants)) [
  | inl n ↦ rw (n, insert_kept) v
  | inr n ↦
      elim (Bool-cases (
        any (λ r. r.id == id) db.tenants
        || any (λ r. r.namespace == t.status.namespace) db.tenants)) [
          | inl i ↦ rw (n, i, insert_kept) v
          | inr i ↦ rw (n, i, insert_kept) (v.0, (p, v.1))
        ]
]

insert_tenant-Rows :
    (t : Tenant) (id : String)
    → t.status.namespace ≡ "tenant-" <> t.spec.name
    → KeepsRows (insert_tenant t id)
unfolding insert_tenant
insert_tenant-Rows t id p now db v = elim (Option-cases (kept_tenant t)) [
  | inl e ↦ rw (e, insert_tenant) v
  | inr (s, e) ↦
      rw (e, insert_tenant) (insert_kept-Rows s id (kept_tenant-IsNamed t s p e) now db v)
]

-- A change of rows that leaves names and namespaces alone.
set_row-IsPlaced :
    (p : TenantRow → Bool) (f : TenantRow → TenantRow) (rows : List TenantRow)
    → ((r : TenantRow) → ((f r).name ≡ r.name) × ((f r).namespace ≡ r.namespace))
    → All IsPlaced rows
    → All IsPlaced (set_row p f rows)
set_row-IsPlaced p f [] h v = tt
set_row-IsPlaced p f (r ∷ rows) h (v, vs) = elim (Bool-cases (p r)) [
  | inl e ↦ rw e (rw ((h r).0, (h r).1) (v, set_row-IsPlaced p f rows h vs))
  | inr e ↦ rw e (v, set_row-IsPlaced p f rows h vs)
]

update_row-Rows : (plans : Bool) (t : Tenant) (id : String) → KeepsRows (update_row plans t id)
unfolding update_row write_kept
update_row-Rows plans t id now db v = elim (Option-cases (kept_edit t)) [
  | inr (s, e) ↦
      rw (e, update_row)
        (v.0, set_row-IsPlaced (live_with_id id) _ db.tenants (λ r. (refl, refl)) v.1)
  | inl e ↦ elim (Bool-cases (plans || any (live_with_id id) db.tenants)) [
    | inl f ↦ rw (e, update_row) (rw f v)
    | inr f ↦ rw (e, update_row) (rw f v)
  ]
]

mark_deleted-Rows : (id : String) → KeepsRows (mark_deleted id)
unfolding mark_deleted
mark_deleted-Rows id now db v =
    (v.0, set_row-IsPlaced (live_with_id id) _ db.tenants (λ r. (refl, refl)) v.1)

select_row-Rows : {A : Type 0} (o : Database → Option A) → KeepsRows (λ now d. select_row (o d) d)
select_row-Rows o now db v = elim (Option-cases (o db)) [
  | inl e ↦ rw (e, select_row) v
  | inr (a, e) ↦ rw (e, select_row) v
]

without-Rows :
    (id user : String)
    → KeepsRows {A = Unit {0}}
        (λ now d. (ok tt, record d { members = keep (λ m. not (is_member id user m)) d.members }))
without-Rows id user now db v = (All-keep HasRole HasRole _ db.members (λ m e h. h) v.0, v.1)

upsert_kept-Rows :
    (user role id : String)
    → (role ≡ "admin") ⊎ (role ≡ "operator")
    → KeepsRows (upsert_kept user role id)
unfolding upsert_kept
upsert_kept-Rows user role id p now db v = elim (Bool-cases (any (is_member id user) db.members)) [
  | inl h ↦ rw (h, upsert_kept) (All-of_map HasRole _ db.members changed v.0, v.1)
  | inr h ↦ elim (Bool-cases (not (any (λ r. r.id == id) db.tenants))) [
    | inl k ↦ rw (h, k, upsert_kept) v
    | inr k ↦ rw (h, k, upsert_kept) ((p, v.0), v.1)
  ]
]
  where
    changed :
        (m : MemberRow)
        → HasRole m
        → HasRole (if is_member id user m then record m { role = role } else m)
    changed m h = elim (Bool-cases (is_member id user m)) [ inl e ↦ rw e p | inr e ↦ rw e h ]

-- The column of the role keeps a role that fits it.
kept_role :
    (user role : String) (kept : String × String)
    → varchar 20 role ≡ some role
    → kept_member user role ≡ some kept
    → kept.1 ≡ role
unfolding kept_member
kept_role user role kept f e = elim (Option-cases (varchar 255 user)) [
  | inl a ↦ absurd (ground (arith, rw (a, kept_member) at e))
  | inr (u, a) ↦
      sym (ap (λ o. elim o [ none ↦ role | some k ↦ k.1 ]) (rw f at (rw (a, kept_member) at e)))
]

kept-HasRole :
    (user role : String) (kept : String × String)
    → (role ≡ "admin") ⊎ (role ≡ "operator")
    → kept_member user role ≡ some kept
    → (kept.1 ≡ "admin") ⊎ (kept.1 ≡ "operator")
unfolding varchar
kept-HasRole user role kept (inl a) e =
    inl (kept_role user role kept (subst (λ r. varchar 20 r ≡ some r) (sym a) refl) e ∙ a)
kept-HasRole user role kept (inr a) e =
    inr (kept_role user role kept (subst (λ r. varchar 20 r ≡ some r) (sym a) refl) e ∙ a)

upsert_member-Rows :
    (user role id : String)
    → (role ≡ "admin") ⊎ (role ≡ "operator")
    → KeepsRows (upsert_member user role id)
unfolding upsert_member
upsert_member-Rows user role id p now db v = elim (Option-cases (kept_member user role)) [
  | inl e ↦ rw (e, upsert_member) v
  | inr (kept, e) ↦
      rw (e, upsert_member)
        (upsert_kept-Rows kept.0 kept.1 id (kept-HasRole user role kept p e) now db v)
]

abbrev tenant_row : String → Database → Option Tenant
tenant_row id d = scanned_row (find (live_with_id id) d.tenants)

abbrev named_row : String → Database → Option Tenant
named_row name d = scanned_row (find (live_with_name name) d.tenants)

abbrev member_role : String → String → Database → Option String
member_role user id d = role_of (find (is_member id user) d.members)

run-Rows :
    (pg : Postgres) (call : Call) (db : Database) → IsApiCall call → Rows db → Rows (run pg call db)
unfolding run create_tenant update_tenant get_tenant_by_id get_tenant_by_name list_tenants
    delete_tenant list_members get_member_role add_member remove_member
run-Rows pg (create t) db p v =
    by_id-Rows pg t.uid (insert_tenant t) db (λ i. insert_tenant-Rows t i p) v
run-Rows pg (Kept.update t) db p v =
    by_id-Rows pg t.uid (update_row (pg.plans_values db.statements) t) db
      (update_row-Rows (pg.plans_values db.statements) t) v
run-Rows pg (Kept.get_by_id id) db p v =
    by_id-Rows pg id (λ i now d. select_row (tenant_row i d) d) db
      (λ i. select_row-Rows (tenant_row i)) v
run-Rows pg (Kept.get_by_name name) db p v =
    exec-Rows pg (λ now d. select_row (named_row name d) d) db (select_row-Rows (named_row name)) v
run-Rows pg Kept.list db p v =
    exec-Rows pg (λ now d. (ok (map scanned (keep is_live d.tenants)), d)) db (λ now d h. h) v
run-Rows pg (Kept.delete id) db p v = by_id-Rows pg id mark_deleted db mark_deleted-Rows v
run-Rows pg (Kept.hard_delete id) db p v = absurd p
run-Rows pg (Kept.members_of id) db p v =
    by_id-Rows pg id (λ i now d. (ok (map member_of (keep (λ m. m.tenant_id == i) d.members)), d))
      db (λ i now d h. h) v
run-Rows pg (Kept.role_in id user) db p v =
    by_id-Rows pg id (λ i now d. select_row (member_role user i d) d) db
      (λ i. select_row-Rows (member_role user i)) v
run-Rows pg (add id user role) db p v =
    by_id-Rows pg id (upsert_member user role) db (λ i. upsert_member-Rows user role i p) v
run-Rows pg (Kept.remove id user) db p v =
    by_id-Rows pg id
      (λ i now d. (ok tt, record d { members = keep (λ m. not (is_member i user m)) d.members })) db
      (λ i. without-Rows i user) v

Calls-IsSound : (pg : Postgres) {db db' : Database} → Calls pg db db' → IsSound db → IsSound db'
Calls-IsSound pg no_call v = v
Calls-IsSound pg (then_call {db} call p c) v =
    Calls-IsSound pg c
      (record { valid = run-IsValid pg call db v.valid; rows = run-Rows pg call db p v.rows })

-- From a database of which the following holds, and however the API is used, by whichever sequence of
-- requests, and whether the statements are answered or not, it holds after it: the constraints of the schema hold, each member is an admin or an operator, and each tenant's
-- namespace is what its column keeps of `tenant-` and the tenant's name.
pub serve_all-IsSound :
    (s : Server) (reqs : List Request) (state : State)
    → IsSound state.database
    → IsSound (serve_all s reqs state).database
unfolding serve_all
serve_all-IsSound s [] state v = v
serve_all-IsSound s (req ∷ reqs) state v =
    serve_all-IsSound s reqs (serve s req state).1
      (Calls-IsSound s.postgres (serve-Calls s req state) v)
