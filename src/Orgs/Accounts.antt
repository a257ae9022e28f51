-- ===== src/Orgs/Accounts.antt =====
-- server/service/orgs/org.go: the handlers of orgs.
use trustyca.Base.{ℕ, String, Bool, ◌==◌, if◌then◌else◌}
use trustyca.Base.Status.{Result, ok, err, grpc, unauthenticated, ◌>>=◌}
use trustyca.Db.Model.{status_unknown, active, inactive, Org, Project}
use trustyca.Db.Tables.{State, Call, get_org, org_created, org_updated, org_deleted}
use trustyca.Db.Tenants.{register_org, update_org}
use trustyca.Authctx.Access.{TrustyCtx}
use trustyca.Orgs.Common.{token_org, mark_user, emit}

module _ (page : ℕ) (down : String → Bool) (random_alias : String) (valid_org : Org → Bool)
    (valid_project : Project → Bool) where
  -- RegisterOrg
  unfoldable pub register_org_call : TrustyCtx → String → String → Call Org
  register_org_call tctx name description s =
      if tctx.user_id == 0
      then err (grpc unauthenticated "user is required")
      else (register_org page down random_alias valid_org valid_project
            (record { id = 0; alias = ""; name = name; description = description; status = active })
            tctx.user_id s
          >>= λ (org, t). ok (org, emit org_created org.id 0 org.id (mark_user tctx.user_id t)))

  -- GetOrg
  unfoldable pub get_org_call : TrustyCtx → State → Result Org
  get_org_call tctx s = token_org tctx >>= λ org_id. get_org page down org_id s

  -- UpdateOrg
  unfoldable pub update_org_call : TrustyCtx → String → String → Call Org
  update_org_call tctx name description s = token_org tctx >>= λ org_id.
      update_org page down random_alias valid_org valid_project
        (record { id = org_id; name = name; description = description; status = status_unknown }) s
      >>= λ (org, t). ok (org, emit org_updated org.id 0 org.id t)

  -- DeleteOrg
  unfoldable pub delete_org_call : TrustyCtx → Call Org
  delete_org_call tctx s = token_org tctx >>= λ org_id.
      update_org page down random_alias valid_org valid_project
        (record { id = org_id; name = ""; description = ""; status = inactive }) s
      >>= λ (org, t). ok (org, emit org_deleted org.id 0 org.id (mark_user tctx.user_id t))
