-- ===== src/Orgs/Members/Demote.antt =====
-- server/service/orgs/members.go: ChangeMemberRole and the owners of an org.
use trustyca.Base.{
  ℕ, String, ◌≡◌, sym, ap, ◌∙◌, ◌≢◌, ◌⊎◌, inl, inr, Bool, false, ◌||◌, Option, List, [], ◌∷◌, arith,
  ◌==◌, if◌then◌else◌, map, any, Any, Any-map, Bool-cases,
}
use trustyca.Base.Status.{Result, Done, ok, err, grpc, not_found, ◌>>=◌, bind_iff, ok-injective}
use trustyca.Db.Model.{MembershipInfo}
use trustyca.Db.Tables.{State, update_member_role, set_role, is_row, no_error, get_user}
use trustyca.Authctx.Role.{Role, none_role, role_eq}
use trustyca.Authctx.Grants.Rows.{IsGrant, UniqueRows}
use trustyca.Authctx.Access.{TrustyCtx, Authorizer, denied}
use trustyca.Orgs.Common.{token_org, parse_optional_id, invalid, get_active_org, get_project}
use trustyca.Orgs.Members.{MemberRequest, check_grantable}
use trustyca.Orgs.Members.Changes.{find_member, check_last_owner, change_role, change_member_role}
use trustyca.Orgs.Members.Rows.{IsOwner, IsOtherOwner}
use trustyca.Orgs.Members.LastOwner.{FoundIn, find_member-row, check_last_owner-other}

module _ {A : Type 0} where
  Any-changed :
      (P : A → Type 0) (f : A → A) (xs : List A)
      → ((x : A) → P x → f x ≡ x)
      → Any P xs
      → Any P (map f xs)
  Any-changed P f (x ∷ xs) kept (inl h) = inl (rw (kept x h) h)
  Any-changed P f (x ∷ xs) kept (inr a) = inr (Any-changed P f xs kept a)
  Any-changed P f [] kept a = absurd a

set_role-other :
    (org p user_id : ℕ) (role : Role) (x : MembershipInfo)
    → ((x.project_id ≢ p) ⊎ (x.user_id ≢ user_id))
    → set_role org p user_id role x ≡ x
unfolding set_role is_row
set_role-other org p user_id role x (inl other) =
    let apart : (x.project_id == p) ≡ false = ground arith in ground arith
set_role-other org p user_id role x (inr other) =
    let apart : (x.user_id == user_id) ≡ false = ground arith in ground arith

module _ (parse_id : String → Option ℕ) (to_lower : String → String) (max_email now page : ℕ)
    (down : String → Bool) (authorizer : Authorizer) where
  -- the rows that ChangeMemberRole leaves
  update_member_role-rows :
      (org p user_id : ℕ) (role : Role) (s t : State) (d : Done)
      → update_member_role page down org p user_id role s ≡ ok (d, t)
      → t.members ≡ map (set_role org p user_id role) s.members
  unfolding update_member_role
  update_member_role-rows org p user_id role s t d h =
      let (_, _, f) =
        (bind_iff
            (no_error
              (down "UpdateMemberRole" || org == 0 || user_id == 0 || role_eq role none_role))
            (λ _. updated) (d, t)).0
          h in
      elim (Bool-cases (any (is_row org p user_id) s.members)) [
        | inl there ↦ sym (ap (λ x. x.1.members) (ok-injective _ (d, t) (rw there at f)))
        | inr absent ↦ absurd (refuse (rw absent at f))
      ]
    where
      updated : Result (Done × State)
      updated =
          if any (is_row org p user_id) s.members
          then ok (tt, record s { members = map (set_role org p user_id role) s.members })
          else err (grpc not_found "not found")

      refuse : ◌≡◌ {A = Result (Done × State)} (err (grpc not_found "not found")) (ok (d, t)) → ⊥
      refuse e = cc

  change_role-rows :
      (org p : ℕ) (role : Role) (member m : MembershipInfo) (s t : State)
      → change_role parse_id to_lower max_email now page down authorizer org p role member s
        ≡ ok (m, t)
      → t.members ≡ map (set_role org p member.user_id role) s.members
  unfolding change_role
  change_role-rows org p role member m s t h =
      let (_, _, h1) = (bind_iff (get_active_org down page org s) _ (m, t)).0 h in
      let (_, _, h2) = (bind_iff (get_project authorizer org p) _ (m, t)).0 h1 in
      let (_, _, h3) = (bind_iff (get_user page down member.user_id s) _ (m, t)).0 h2 in
      let ((d, v), e, h4) =
        (bind_iff (update_member_role page down org p member.user_id role s) _ (m, t)).0 h3 in
      sym (ap (λ x. x.1.members) (ok-injective _ (m, t) h4))
      ∙ update_member_role-rows org p member.user_id role s v d e

  -- The rows of a change leave an owner, where the check of the last owner passed.
  changed-IsOwner :
      (org p : ℕ) (role : Role) (member : MembershipInfo) (s : State)
      → org ≢ 0
      → UniqueRows s.members
      → Any (IsOwner org) s.members
      → FoundIn parse_id to_lower max_email now page down authorizer org p member s.members
      → check_last_owner parse_id to_lower max_email now page down authorizer org member s ≡ ok tt
      → Any (IsOwner org) (map (set_role org p member.user_id role) s.members)
  changed-IsOwner org p role member s chosen u owned there k = elim (Bool-cases (p == 0)) [
    | inr scoped ↦
        Any-changed (IsOwner org) _ s.members
          (λ x o. set_role-other org p member.user_id role x (inl (λ e. ground arith))) owned
    | inl wide ↦
        let zero_p : p ≡ 0 = ground arith in
        let others =
          check_last_owner-other parse_id to_lower max_email now page down authorizer org p s member
            chosen u owned
            (Any-map _ (λ x. (x ≡ member) × IsGrant org member.user_id 0 member)
              (λ x q. (q.0, (q.1.0, q.1.1, q.1.2 ∙ zero_p))) s.members there)
            k in
        Any-map _ (IsOwner org) (λ x o. o.0) _
          (Any-changed (IsOtherOwner org member.user_id) _ s.members
            (λ x o. set_role-other org p member.user_id role x (inr o.1)) others)
  ]

  -- the rest of ChangeMemberRole after the member is found, and after the project is parsed
  abbrev found_then :
      TrustyCtx → MemberRequest → State → ℕ → MembershipInfo → Result (MembershipInfo × State)
  found_then tctx req s p member =
      if role_eq member.role req.role
      then ok (member, s)
      else (check_grantable authorizer tctx tctx.org_id p member.role >>= λ _.
          check_last_owner parse_id to_lower max_email now page down authorizer tctx.org_id member s
          >>= λ _.
              change_role parse_id to_lower max_email now page down authorizer tctx.org_id p
                req.role member s)

  abbrev parsed_then : TrustyCtx → MemberRequest → State → ℕ → Result (MembershipInfo × State)
  parsed_then tctx req s p =
      if role_eq req.role none_role
      then invalid "role is required"
      else (check_grantable authorizer tctx tctx.org_id p req.role >>= λ _.
          find_member parse_id to_lower max_email now page down authorizer tctx.org_id p req.user_id
            req.email s
          >>= found_then tctx req s p)

  module _ (tctx : TrustyCtx) (req : MemberRequest) (s t : State) (m : MembershipInfo)
      (chosen : tctx.org_id ≢ 0) (u : UniqueRows s.members)
      (owned : Any (IsOwner tctx.org_id) s.members) where
    found_then-IsOwner :
        (p : ℕ) (member : MembershipInfo)
        → FoundIn parse_id to_lower max_email now page down authorizer tctx.org_id p member
            s.members
        → found_then tctx req s p member ≡ ok (m, t)
        → Any (IsOwner tctx.org_id) t.members
    found_then-IsOwner p member there h = elim (Bool-cases (role_eq member.role req.role)) [
      | inl same ↦ rw (ap (λ x. x.1.members) (sym (ok-injective _ (m, t) (rw same at h)))) owned
      | inr other ↦
          let (_, _, h4) =
            (bind_iff (check_grantable authorizer tctx tctx.org_id p member.role) _ (m, t)).0
              (rw other at h) in
          let (_, k, h5) =
            (bind_iff
                (check_last_owner parse_id to_lower max_email now page down authorizer tctx.org_id
                  member s)
                _ (m, t)).0
              h4 in
          let rows : t.members ≡ map (set_role tctx.org_id p member.user_id req.role) s.members =
            change_role-rows tctx.org_id p req.role member m s t h5 in
          rw rows (changed-IsOwner tctx.org_id p req.role member s chosen u owned there k)
    ]

    parsed_then-IsOwner :
        (p : ℕ) → parsed_then tctx req s p ≡ ok (m, t) → Any (IsOwner tctx.org_id) t.members
    parsed_then-IsOwner p h = elim (Bool-cases (role_eq req.role none_role)) [
      | inl no_role ↦ absurd (refuse (rw no_role at h))
      | inr some_role ↦
          let (_, _, h2) =
            (bind_iff (check_grantable authorizer tctx tctx.org_id p req.role) _ (m, t)).0
              (rw some_role at h) in
          let (member, f, h3) =
            (bind_iff
                (find_member parse_id to_lower max_email now page down authorizer tctx.org_id p
                  req.user_id req.email s)
                (found_then tctx req s p) (m, t)).0
              h2 in
          found_then-IsOwner p member
            (find_member-row parse_id to_lower max_email now page down authorizer tctx.org_id p
              req.user_id req.email s member chosen f)
            h3
    ]
      where
        refuse :
            ◌≡◌ {A = Result (MembershipInfo × State)} (invalid "role is required") (ok (m, t)) → ⊥
        refuse e = cc

  -- ChangeMemberRole leaves an org that has an owner with an owner, where the rows of the members
  -- are unique for an org, a project and a user.
  pub change_member_role-IsOwner :
      (tctx : TrustyCtx) (req : MemberRequest) (s t : State) (m : MembershipInfo)
      → UniqueRows s.members
      → Any (IsOwner tctx.org_id) s.members
      → change_member_role parse_id to_lower max_email now page down authorizer tctx req s
        ≡ ok (m, t)
      → Any (IsOwner tctx.org_id) t.members
  unfolding change_member_role token_org
  change_member_role-IsOwner tctx req s t m u owned h = elim (Bool-cases (tctx.org_id == 0)) [
    | inl none_chosen ↦ absurd (refuse "org not selected" (rw none_chosen at h))
    | inr selected ↦
        let (p, _, h1) =
          (bind_iff (parse_optional_id parse_id req.project_id) (parsed_then tctx req s) (m, t)).0
            (rw selected at h) in
        parsed_then-IsOwner tctx req s t m (λ e. ground arith) u owned p h1
  ]
    where
      refuse :
          (message : String)
          → ◌≡◌ {A = Result (MembershipInfo × State)} (denied message) (ok (m, t))
          → ⊥
      refuse message e = cc
