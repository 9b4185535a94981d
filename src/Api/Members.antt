-- ===== src/Api/Members.antt =====
-- internal/handlers/members.go. A body that cannot be decoded is `none`.
use k8s_mtp.Common.{ℕ, String, not, ◌&&◌, Option, none, some, map, ◌==◌, if◌then◌else◌}
use k8s_mtp.Store.{Postgres, ok, err, get_tenant_by_id}
use k8s_mtp.Store.Members
use k8s_mtp.Store.Members.{Member}
use k8s_mtp.Api.{
  AddMemberRequest, MemberResponse, one_member, many_members, no_body, http_error, Handler,
}
use k8s_mtp.Api.Tenants.{lookup_failed, tenant_not_found}

unfoldable pub insert_member : Postgres → String → AddMemberRequest → Handler
insert_member pg id req db =
    let (r, db') = Members.add_member pg id req.user_id req.role db in
    elim r [
      | err e ↦ (http_error "{\"error\": \"error adding the member\"}" 500, db')
      | ok u ↦ (
        record {
          status = 201;
          body = one_member (record { user_id = req.user_id; role = req.role; created_at = "" });
        },
        db',
      )
    ]

-- What follows when the tenant was found.
unfoldable pub add_to_found : Postgres → String → Option AddMemberRequest → Handler
unfolding insert_member
add_to_found pg id none db =
    (http_error "{\"error\": \"error decoding the add member request\"}" 400, db)
add_to_found pg id (some req) db =
    if not (req.role == "admin") && not (req.role == "operator")
    then (http_error "{\"error\": \"member has the wrong role\"}" 400, db)
    else insert_member pg id req db

unfoldable pub add_member : Postgres → String → Option AddMemberRequest → Handler
unfolding add_to_found
add_member pg id req db =
    let (r, db') = get_tenant_by_id pg id db in
    elim r [
      | err e ↦ (lookup_failed, db')
      | ok none ↦ (tenant_not_found, db')
      | ok (some t) ↦ add_to_found pg id req db'
    ]

unfoldable pub remove_member : Postgres → String → String → Handler
remove_member pg id user db =
    let (r, db') = Members.remove_member pg id user db in
    elim r [
      | err e ↦ (http_error "{\"error\": \"error removing the member\"}" 500, db')
      | ok u ↦ (record { status = 204; body = no_body }, db')
    ]

-- `rfc3339` is how `time.Format` writes a time.
abbrev pub member_response : (ℕ → String) → Member → MemberResponse
member_response rfc3339 m = record {
  user_id = m.user_id;
  role = m.role;
  created_at = rfc3339 m.created_at;
}

unfoldable pub list_members : Postgres → (ℕ → String) → String → Handler
list_members pg rfc3339 id db =
    let (r, db') = Members.list_members pg id db in
    elim r [
      | err e ↦ (http_error "{\"error\": \"error getting the members\"}" 500, db')
      | ok members ↦ (
        record { status = 200; body = many_members (map (member_response rfc3339) members) },
        db',
      )
    ]
