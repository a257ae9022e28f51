-- ===== src/Authctx/Access/Services.antt =====
-- Who may call the admin and the status services.
use Prim.Native.String.{◌++◌}
use text.Mathlib.Text.{starts_with}
use text.Mathlib.TextEquality.{starts_with_iff}
use text.Mathlib.TextLemmas.{append_assoc}
use trustyca.Base.{
  ℕ, String, ◌≡◌, sym, ◌∙◌, ◌↔◌, ◌⊎◌, inl, inr, true, false, Option, arith, Bool-cases,
}
use trustyca.Base.Status.{Result, Done, ok, err, grpc, permission_denied}
use trustyca.Authctx.Access.{
  TrustyCtx, Request, MethodInfo, Authorizer, check_access, check_service_access, viewer_may_call,
  is_privpb_service, is_service_role, denied,
}

-- A role that may call an action of the admin service: a service role, which for a viewer the
-- action must allow.
abbrev pub Trusted : String → String → Type 0
Trusted app_role action =
    (is_service_role app_role ≡ true)
    × ((starts_with app_role "trustyca-viewer" ≡ false) ⊎ (viewer_may_call action ≡ true))

starts_with-append : (s t u : String) → starts_with s (t ++ u) ≡ true → starts_with s t ≡ true
starts_with-append s t u h =
    let (v, e) = (starts_with_iff s (t ++ u)).0 h in
    (starts_with_iff s t).1 (u ++ v, sym (append_assoc t u v) ∙ e)

admin-is_service_role :
    (s : String) → starts_with s "trustyca-admin" ≡ true → is_service_role s ≡ true
admin-is_service_role s h = starts_with-append s "trustyca-" "admin" h

viewer-is_service_role :
    (s : String) → starts_with s "trustyca-viewer" ≡ true → is_service_role s ≡ true
viewer-is_service_role s h = starts_with-append s "trustyca-" "viewer" h

abbrev refusal : Result Done
refusal = denied "access denied"

check_service_access-cases :
    (r action : String)
    → is_privpb_service action ≡ true
    → ((check_service_access r action ≡ ok tt) × Trusted r action)
      ⊎ ((check_service_access r action ≡ refusal) × (¬ Trusted r action))
unfolding check_service_access
check_service_access-cases r action privpb = elim (Bool-cases (starts_with r "trustyca-viewer")) [
  | inl viewer ↦
      let service = viewer-is_service_role r viewer in
      elim (Bool-cases (viewer_may_call action)) [
        | inl may ↦ inl (ground arith, (service, inr may))
        | inr may_not ↦ inr (ground arith, λ t. elim t.1 [ inl e ↦ cc | inr m ↦ cc ])
      ]
  | inr other ↦ elim (Bool-cases (is_service_role r)) [
    | inl service ↦ inl (ground arith, (service, inl other))
    | inr none_such ↦ elim (Bool-cases (starts_with r "trustyca-admin")) [
      | inl is_admin ↦ absurd (let e = admin-is_service_role r is_admin in cc)
      | inr not_admin ↦ inr (ground arith, λ t. cc)
    ]
  ]
]

module _ (parse_id : String → Option ℕ) (id_string : ℕ → String) (authorizer : Authorizer)
    (method_info : String → Option MethodInfo) (tctx : TrustyCtx) (req : Request)
    (action : String) where
  -- An action of the admin service is accepted exactly for a service role, and for a role of a
  -- trustyca viewer only where the action reads. Every other caller is denied, whatever the
  -- memberships, the scopes or the request are.
  pub check_access-privpb :
      is_privpb_service action ≡ true
      → ((check_access parse_id id_string authorizer method_info tctx req action ≡ ok tt)
          ↔ Trusted tctx.app_role action)
        × ((¬ Trusted tctx.app_role action)
            → check_access parse_id id_string authorizer method_info tctx req action
              ≡ err (grpc permission_denied "access denied"))
  unfolding check_access
  check_access-privpb privpb = elim (check_service_access-cases tctx.app_role action privpb) [
    | inl (e, trusted) ↦ ((λ h. trusted, λ t. rw privpb e), λ n. absurd (n trusted))
    | inr (e, untrusted) ↦ (
      (
        λ h. absurd (let k : refusal ≡ ok tt = sym e ∙ (rw privpb at h) in cc),
        λ t. absurd (untrusted t),
      ),
      λ n. rw privpb e,
    )
  ]
