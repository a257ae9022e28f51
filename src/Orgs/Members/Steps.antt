-- ===== src/Orgs/Members/Steps.antt =====
-- The calls that a DeleteMember that succeeds has made.
use text.Mathlib.Text.{◌==◌ as str_eq}
use trustyca.Base.{ℕ, String, ◌≡◌, ◌≢◌, Bool, Option, inl, inr, arith, ◌==◌, Bool-cases}
use trustyca.Base.Status.{Result, Done, ok, ◌>>=◌, bind_iff}
use trustyca.Db.Model.{MembershipInfo}
use trustyca.Db.Tables.{State}
use trustyca.Authctx.Grants.{Grants}
use trustyca.Authctx.Access.{TrustyCtx, Authorizer, denied}
use trustyca.Orgs.Common.{token_org, parse_optional_id, invalid}
use trustyca.Orgs.Members.{MemberRequest, check_grantable}
use trustyca.Orgs.Members.Changes.{find_member, check_last_owner, remove_member, delete_member}

module _ (parse_id : String → Option ℕ) (to_lower : String → String) (max_email now page : ℕ)
    (down : String → Bool) (authorizer : Authorizer) where
  -- the rest of DeleteMember after each of its calls
  abbrev checked_then : TrustyCtx → State → ℕ → MembershipInfo → Result (Done × State)
  checked_then tctx s p member =
      check_last_owner parse_id to_lower max_email now page down authorizer tctx.org_id member s
      >>= λ _.
          remove_member parse_id to_lower max_email now page down authorizer tctx.org_id p member s

  abbrev granted_then : TrustyCtx → State → ℕ → MembershipInfo → Result (Done × State)
  granted_then tctx s p member = check_grantable authorizer tctx tctx.org_id p member.role >>= λ _.
      checked_then tctx s p member

  abbrev found_then : TrustyCtx → MemberRequest → State → ℕ → Result (Done × State)
  found_then tctx req s p =
      find_member parse_id to_lower max_email now page down authorizer tctx.org_id p req.user_id ""
        s
      >>= granted_then tctx s p

  -- what a DeleteMember that succeeds has done
  abbrev pub DeleteSteps :
      TrustyCtx → MemberRequest → State → State → Done → ℕ → MembershipInfo → Type 0
  DeleteSteps tctx req s t d p member =
      (find_member parse_id to_lower max_email now page down authorizer tctx.org_id p req.user_id ""
          s
        ≡ ok member)
      × ((g : Grants) × (check_grantable authorizer tctx tctx.org_id p member.role ≡ ok g))
      × (check_last_owner parse_id to_lower max_email now page down authorizer tctx.org_id member s
          ≡ ok tt)
      × (remove_member parse_id to_lower max_email now page down authorizer tctx.org_id p member s
          ≡ ok (d, t))

  pub delete_member-steps :
      (tctx : TrustyCtx) (req : MemberRequest) (s t : State) (d : Done)
      → delete_member parse_id to_lower max_email now page down authorizer tctx req s ≡ ok (d, t)
      → (tctx.org_id ≢ 0)
        × ((p : ℕ) × (member : MembershipInfo) × (parse_optional_id parse_id req.project_id ≡ ok p)
            × DeleteSteps tctx req s t d p member)
  unfolding delete_member token_org
  delete_member-steps tctx req s t d h = elim (Bool-cases (tctx.org_id == 0)) [
    | inl none_chosen ↦ absurd (refuse "org not selected" (rw none_chosen at h))
    | inr chosen ↦ elim (Bool-cases (str_eq req.user_id "")) [
      | inl unnamed ↦ absurd (refuse_invalid (rw (chosen, unnamed) at h))
      | inr named ↦
          let (p, read, after_id) =
            (bind_iff (parse_optional_id parse_id req.project_id) (found_then tctx req s) (d, t)).0
              (rw (chosen, named) at h) in
          let (member, f, after_find) =
            (bind_iff
                (find_member parse_id to_lower max_email now page down authorizer tctx.org_id p
                  req.user_id "" s)
                (granted_then tctx s p) (d, t)).0
              after_id in
          let (g, e, after_grant) =
            (bind_iff (check_grantable authorizer tctx tctx.org_id p member.role)
                (λ _. checked_then tctx s p member) (d, t)).0
              after_find in
          let (_, k, removed) =
            (bind_iff
                (check_last_owner parse_id to_lower max_email now page down authorizer tctx.org_id
                  member s)
                (λ _.
                  remove_member parse_id to_lower max_email now page down authorizer tctx.org_id p
                    member s)
                (d, t)).0
              after_grant in
          (λ e. ground arith, (p, member, read, (f, (g, e), k, removed)))
    ]
  ]
    where
      refuse : (m : String) → ◌≡◌ {A = Result (Done × State)} (denied m) (ok (d, t)) → ⊥
      refuse m e = cc

      refuse_invalid : ◌≡◌ {A = Result (Done × State)} (invalid "invalid user ID") (ok (d, t)) → ⊥
      refuse_invalid e = cc
