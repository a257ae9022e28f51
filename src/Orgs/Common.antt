-- ===== src/Orgs/Common.antt =====
-- server/service/orgs/org.go and projects.go: the helpers that the handlers share.
use text.Mathlib.Text.{◌==◌ as str_eq}
use trustyca.Base.{ℕ, String, Bool, Option, none, some, ◌∷◌, ◌==◌, if◌then◌else◌}
use trustyca.Base.Status.{
  Result, ok, err, grpc, wrapped, invalid_argument, not_found, failed_precondition, ◌>>=◌,
}
use trustyca.Db.Model.{Org, Project, inactive, status_eq}
use trustyca.Db.Tables.{State, EventType, get_org}
use trustyca.Authctx.Access.{
  TrustyCtx, Authorizer, Answer, granted, refused, access_denied, insufficient_role,
  org_not_selected, unavailable, denied,
}

abbrev pub invalid : {A : Type 0} → String → Result A
invalid message = err (grpc invalid_argument message)

-- tokenOrg
unfoldable pub token_org : TrustyCtx → Result ℕ
token_org tctx = if tctx.org_id == 0 then denied "org not selected" else ok tctx.org_id

abbrev parsed : String → Option ℕ → Result ℕ
parsed message none = invalid message
parsed message (some id) = ok id

-- xdb.ParseID, with the error of a handler
abbrev pub parse_required_id : (String → Option ℕ) → String → String → Result ℕ
parse_required_id parse_id val message = parsed message (parse_id val)

-- parseOptionalID
unfoldable pub parse_optional_id : (String → Option ℕ) → String → Result ℕ
parse_optional_id parse_id val =
    if str_eq val "" then ok 0 else parsed "invalid project ID" (parse_id val)

-- getActiveOrg
unfoldable pub get_active_org : (String → Bool) → ℕ → ℕ → State → Result Org
get_active_org down page org_id s = get_org page down org_id s >>= λ org.
    if status_eq org.status inactive
    then err (grpc failed_precondition "org is deleted")
    else ok org

abbrev visible_project : Answer Project → Result (Option Project)
visible_project (granted p) = ok (some p)
visible_project (refused access_denied) = err (grpc not_found "project not found")
visible_project (refused insufficient_role) = err (wrapped "unable to find project")
visible_project (refused org_not_selected) = err (wrapped "unable to find project")
visible_project (refused (unavailable _)) = err (wrapped "unable to find project")

-- getProject
unfoldable pub get_project : Authorizer → ℕ → ℕ → Result (Option Project)
get_project authorizer org_id project_id =
    if project_id == 0 then ok none else visible_project (authorizer.project org_id project_id)

-- InvalidateUser, InvalidateProject and Emit, as records of the state
abbrev pub mark_user : ℕ → State → State
mark_user user_id s = record s { invalidated_users = user_id ∷ s.invalidated_users }

abbrev pub mark_project : ℕ → State → State
mark_project project_id s = record s { invalidated_projects = project_id ∷ s.invalidated_projects }

abbrev pub emit : EventType → ℕ → ℕ → ℕ → State → State
emit kind org_id project_id reference s = record s {
  events =
      record { kind = kind; org_id = org_id; project_id = project_id; reference = reference }
      ∷ s.events;
}
