-- ===== src/Backend/Certs/Revoked.antt =====
-- A revocation by the service is of a certificate that the caller may revoke, and is in the CRLs.
use Prim.Native.String.{len}
use trustyca.Base.{
  ltb, ℕ, String, ◌≡◌, ◌≢◌, ◌⊎◌, inl, inr, sym, ap, ◌∙◌, Bool, true, false, some, ◌==◌, Bool-cases,
  arith, Any,
}
use trustyca.Base.Status.{Result, Error, ok, err, ◌>>=◌, bind_iff, ok-injective}
use trustyca.Db.Cursor.{Codec}
use trustyca.Authctx.Access.{TrustyCtx}
use trustyca.Ca.Rows.{Certificate, RevokedCertificate, is_revoked, max_len_for_name}
use trustyca.Ca.Store.{Store}
use trustyca.Ca.Revocations.{RevokeRequest, revoke_certificate}
use trustyca.Backend.Scope.{TenantScope, row_access, org, request_project}
use trustyca.Backend.Certs.{
  is_already_revoked, is_not_found, RevokeCertificateRequest, RevokedEvent, is_reason,
  find_certificate, revoke_selector, revoke_found, revoked_reply, revoke_error, revoke,
}
use trustyca.Backend.Certs.Found.{find_certificate-scope}

abbrev Reply : Type 0
Reply = RevokedCertificate × RevokedEvent × Store

-- the event of the revocation
abbrev pub event_of : ℕ → RevokedCertificate → RevokedEvent
event_of org_id r = record {
  org_id = org_id;
  project_id = r.project_id;
  reference = r.certificate_id;
}

refuse : {e : Error} {reply : Reply} → ◌≡◌ {A = Result Reply} (err e) (ok reply) → ⊥
refuse h = cc

revoke_error-refused :
    (e : Error) (reply : Reply) → ◌≡◌ {A = Result Reply} (revoke_error e) (ok reply) → ⊥
revoke_error-refused e reply h = elim (Bool-cases (is_already_revoked e)) [
  | inl a ↦ refuse (rw a at h)
  | inr a ↦ elim (Bool-cases (is_not_found e)) [
    | inl b ↦ refuse (rw (a, b) at h)
    | inr b ↦ refuse (rw (a, b) at h)
  ]
]

module _ (scope : TenantScope) (tctx : TrustyCtx) (down : String → Bool) (codec : Codec)
    (has_next : ℕ → ℕ → Bool) (now : ℕ) (s : Store) where
  -- the request to the tables
  abbrev pub request_of : ℕ → RevokeCertificateRequest → Certificate → RevokeRequest
  request_of org_id req row = record {
    certificate_id = row.id;
    org_id = org_id;
    revoked_at = now;
    reason = req.reason;
    reason_text = req.reason_text;
  }

  -- the rest of RevokeCertificate after each of its calls
  abbrev found_row : RevokeCertificateRequest → ℕ → ℕ → Result Certificate
  found_row req org_id project_id =
      find_certificate scope tctx down codec has_next org_id
        (revoke_selector scope tctx down codec has_next req project_id) "/pb.CA/RevokeCertificate" s

  abbrev project_then : RevokeCertificateRequest → ℕ → ℕ → Result Reply
  project_then req org_id project_id =
      found_row req org_id project_id
      >>= revoke_found scope tctx down codec has_next now org_id req s

  abbrev org_then : RevokeCertificateRequest → ℕ → Result Reply
  org_then req org_id = request_project scope tctx org_id req.project_id >>= project_then req org_id

  reply-steps :
      (org_id : ℕ) (res : Result (RevokedCertificate × Store)) (r : RevokedCertificate)
      (event : RevokedEvent) (t : Store)
      → revoked_reply scope tctx down codec has_next org_id res ≡ ok (r, event, t)
      → (res ≡ ok (r, t)) × (event ≡ event_of org_id r)
  reply-steps org_id (err e) r event t h = absurd (revoke_error-refused e _ h)
  reply-steps org_id (ok (q, u)) r event t h =
      let is = ok-injective (q, event_of org_id q, u) (r, event, t) h in
      (ap (λ z. ok (z.0, z.2)) is, sym (ap (λ z. z.1) is) ∙ ap (λ z. event_of org_id z.0) is)

  found-steps :
      (org_id : ℕ) (req : RevokeCertificateRequest) (row : Certificate) (r : RevokedCertificate)
      (event : RevokedEvent) (t : Store)
      → revoke_found scope tctx down codec has_next now org_id req s row ≡ ok (r, event, t)
      → (is_revoked row.status ≡ false)
        × (revoke_certificate down now (request_of org_id req row) s ≡ ok (r, t))
        × (event ≡ event_of org_id r)
  found-steps org_id req row r event t h = elim (Bool-cases (is_revoked row.status)) [
    | inl again ↦ absurd (refuse (rw again at h))
    | inr first ↦
        let (done, event_is) = reply-steps org_id _ r event t (rw first at h) in
        (first, done, event_is)
  ]

  -- A request that revokes a certificate has a reason of RFC 5280 other than the release from
  -- hold; the certificate is a row of the caller's org that was not revoked, in the project that
  -- the request names where it names one, and the caller may call RevokeCertificate on a row of its
  -- project; the tables are those that the revocation of that row leaves, and the event is about it.
  pub revoke-row_access :
      (req : RevokeCertificateRequest) (r : RevokedCertificate) (event : RevokedEvent) (t : Store)
      → revoke scope tctx down codec has_next now (some req) s ≡ ok (r, event, t)
      → (is_reason req.reason ≡ true)
        × (req.reason ≢ 8)
        × ((org_id : ℕ) × (project_id : ℕ) × (row : Certificate) × (org scope tctx req.org_id
              ≡ ok org_id)
            × (request_project scope tctx org_id req.project_id ≡ ok project_id)
            × Any (λ c. c ≡ row) s.certificates
            × (row.org_id ≡ org_id)
            × ((project_id ≡ 0) ⊎ (row.project_id ≡ project_id))
            × (is_revoked row.status ≡ false)
            × (row_access scope tctx org_id row.project_id "/pb.CA/RevokeCertificate"
                  "certificate not found"
                ≡ ok tt)
            × (revoke_certificate down now (request_of org_id req row) s ≡ ok (r, t))
            × (event ≡ event_of org_id r))
  unfolding revoke
  revoke-row_access req r event t h = elim (Bool-cases (is_reason req.reason)) [
    | inr unknown ↦ absurd (refuse (rw unknown at h))
    | inl known ↦ elim (Bool-cases (req.reason == 8)) [
      | inl release ↦ absurd (refuse (rw (known, release) at h))
      | inr reason ↦ elim (Bool-cases (ltb max_len_for_name (len req.reason_text))) [
        | inl long ↦ absurd (refuse (rw (known, reason, long) at h))
        | inr short ↦
            let (org_id, in_org, g) =
              (bind_iff (org scope tctx req.org_id) (org_then req) (r, event, t)).0
                (rw (known, reason, short) at h) in
            let (project_id, in_project, k) =
              (bind_iff (request_project scope tctx org_id req.project_id) (project_then req org_id)
                  (r, event, t)).0
                g in
            let (row, found, e) =
              (bind_iff (found_row req org_id project_id)
                  (revoke_found scope tctx down codec has_next now org_id req s) (r, event, t)).0
                k in
            let (member, same_org, same_project, access) =
              find_certificate-scope scope tctx down codec has_next s org_id
                (revoke_selector scope tctx down codec has_next req project_id)
                "/pb.CA/RevokeCertificate" row found in
            let (first, done, event_is) = found-steps org_id req row r event t e in
            (
              known,
              (λ z. ground arith),
              (
                org_id, project_id, row, in_org, in_project, member, same_org, same_project, first,
                access, done, event_is,
              ),
            )
      ]
    ]
  ]
