-- ===== src/Backend/Profiles/Deleted.antt =====
-- server/service/backend/profile.go: the rows that DeleteProfile deletes.

use trustyca.Base.{
  ℕ, ◌≡◌, inl, inr, refl, sym, ap, String, Bool, true, false, not, ◌||◌, some, ◌∙◌, ◌==◌,
  Bool-cases, Any, Any-map, filter, find?-Any, length,
}
use trustyca.Base.Status.{err-ne-ok, Result, ok, err, ok-injective, bind_iff, after_check}
use trustyca.Authctx.Access.{TrustyCtx}
use trustyca.Db.Tables.{no_error}
use trustyca.Ca.Rows.{CertificateProfile}
use trustyca.Ca.Store.{Store}
use trustyca.Ca.Issuers.{get_profile, delete_profile, deletes_profile}
use trustyca.Ca.Registry.{Authority, State, is_missing}
use trustyca.Ca.Registry.Changes.{found-some}
use trustyca.Backend.Scope.{TenantScope, org, request_project, in_project, parse_id_val, row_access}
use trustyca.Backend.Profiles.{
  Calls, DeleteProfileRequest, Left, profile_found, visible_profile, profile_by_id, invalidate,
  delete_error, deleted_profile, delete_row_of, delete_profile_of,
}

profile_found-ok :
    (o : Result CertificateProfile) (row : CertificateProfile)
    → profile_found o ≡ ok row
    → o ≡ ok row
profile_found-ok (ok y) row e = e
profile_found-ok (err d) row e = elim (Bool-cases (is_missing d)) [
  | inl m ↦ absurd (err-ne-ok row (rw m at e))
  | inr m ↦ absurd (err-ne-ok row (rw m at e))
]

delete_error-ok : {A : Type 0} (o : Result A) (x : A) → delete_error o ≡ ok x → o ≡ ok x
delete_error-ok (ok y) x e = e
delete_error-ok (err d) x e = absurd (err-ne-ok x e)

-- the caller reaches a row by a method: the row is of the table and the org, it is in the project,
-- and its access is granted
abbrev pub Reached : TenantScope → TrustyCtx → ℕ → ℕ → String → Store → CertificateProfile → Type 0
Reached scope tctx org_id project_id method s row =
    Any (λ p. p ≡ row) s.profiles
    × ((row.org_id == org_id) ≡ true)
    × (in_project row.project_id project_id ≡ true)
    × (row_access scope tctx org_id row.project_id method "profile not found" ≡ ok tt)

-- what a deletion leaves: every row less those of the org and the ID, one at least
abbrev pub Removed : ℕ → ℕ → Store → Store → Type 0
Removed org_id id s t =
    (t ≡ record s { profiles = filter (λ p. not (deletes_profile org_id id p)) s.profiles })
    × ((length (filter (deletes_profile org_id id) s.profiles) == 0) ≡ false)

or_false : (b c : Bool) → (not b || not c) ≡ false → (b ≡ true) × (c ≡ true)
or_false true true h = (refl, refl)
or_false true false h = (refl, sym h)
or_false false c h = cc

module _ (scope : TenantScope) (tctx : TrustyCtx) where
  visible_profile-Reached :
      (org_id project_id : ℕ) (method : String) (s : Store) (seen row : CertificateProfile)
      → Any (λ p. p ≡ seen) s.profiles
      → visible_profile scope tctx org_id project_id method seen ≡ ok row
      → Reached scope tctx org_id project_id method s row
  unfolding visible_profile
  visible_profile-Reached org_id project_id method s seen row stored e =
      elim (Bool-cases
        (not (seen.org_id == org_id) || not (in_project seen.project_id project_id))) [
          | inl off ↦ absurd (err-ne-ok row (rw off at e))
          | inr off ↦
              let (_, access, done) =
                (bind_iff (row_access scope tctx org_id seen.project_id method "profile not found")
                    _ row).0
                  (rw off at e) in
              let (own, inside) = or_false _ _ off in
              rw (sym (ok-injective seen row done)) (stored, own, inside, access)
        ]

  profile_by_id-Reached :
      (down : String → Bool) (org_id project_id : ℕ) (id_val method : String) (s : Store)
      (row : CertificateProfile)
      → profile_by_id scope tctx down org_id project_id id_val method s ≡ ok row
      → Reached scope tctx org_id project_id method s row
  unfolding profile_by_id get_profile
  profile_by_id-Reached down org_id project_id id_val method s row e =
      let (id, _, rest) =
        (bind_iff (parse_id_val scope.parse_id "missing profile ID" "invalid profile ID" id_val) _
            row).0
          e in
      let (seen, read, shown) = (bind_iff (profile_found (get_profile down id s)) _ row).0 rest in
      let stored =
        after_check (no_error (down "GetProfile")) _ seen (profile_found-ok _ seen read) in
      visible_profile-Reached org_id project_id method s seen row
        (Any-map _ _ (λ p k. k.0) s.profiles
          (find?-Any (λ p. p.id == id) s.profiles seen (found-some _ seen stored)))
        shown

  module _ {B M : Type 0} (calls : Calls B M) {C D E A P S : Type 0} (a : Authority C D E A P S)
      (has_registry : Bool) where
    -- a deletion: the row that the caller reached is removed, and its resolutions are dropped
    abbrev pub Deletes :
        DeleteProfileRequest → Store → State a → Left scope tctx calls a has_registry → Type 0
    Deletes req s r done =
        (org_id project_id : ℕ) × (row : CertificateProfile) × (org scope tctx req.org_id
          ≡ ok org_id)
        × (request_project scope tctx org_id req.project_id ≡ ok project_id)
        × Reached scope tctx org_id project_id "/pb.CA/DeleteProfile" s row
        × Removed org_id row.id s done.1
        × (done.2
            ≡ invalidate scope tctx calls a has_registry row.org_id row.project_id row.label r)

    delete_row_of-Removed :
        (org_id : ℕ) (s : Store) (r : State a) (row : CertificateProfile)
        (done : Left scope tctx calls a has_registry)
        → delete_row_of scope tctx calls a has_registry org_id s r row ≡ ok done
        → Removed org_id row.id s done.1
          × (done.2
              ≡ invalidate scope tctx calls a has_registry row.org_id row.project_id row.label r)
    unfolding delete_row_of deleted_profile delete_profile
    delete_row_of-Removed org_id s r row done e =
        let (res, ran, rest) =
          (bind_iff (delete_error (delete_profile a.down org_id row.id s)) _ done).0 e in
        let left =
          ok-injective _ _
            (after_check (no_error (a.down "DeleteProfile")) _ res (delete_error-ok _ res ran)) in
        elim (Bool-cases (res.0 == 0)) [
          | inl none_left ↦ absurd (err-ne-ok done (rw none_left at rest))
          | inr some_left ↦
              let same = ok-injective _ _ (rw some_left at rest) in
              (
                (
                  sym (ap (λ q. q.1) same) ∙ sym (ap (λ q. q.1) left),
                  ap (λ q. q.0 == 0) left ∙ some_left,
                ),
                sym (ap (λ q. q.2) same),
              )
        ]

    -- A DeleteProfile that succeeds named an org of the caller and a project of that org, found a
    -- row of the table in both that the caller may delete, removed every profile of that org with
    -- the ID of the row, one at least, changed nothing else of the tables, and dropped the
    -- resolutions of the scope and label of the row, if a registry is configured.
    pub delete_profile_of-Deletes :
        (req : DeleteProfileRequest) (s : Store) (r : State a)
        (done : Left scope tctx calls a has_registry)
        → delete_profile_of scope tctx calls a has_registry (some req) s r ≡ ok done
        → Deletes req s r done
    unfolding delete_profile_of
    delete_profile_of-Deletes req s r done e =
        let (org_id, own, in_org) = (bind_iff (org scope tctx req.org_id) _ done).0 e in
        let (project_id, named, in_it) =
          (bind_iff (request_project scope tctx org_id req.project_id) _ done).0 in_org in
        let (row, read, rest) =
          (bind_iff
              (profile_by_id scope tctx a.down org_id project_id req.id "/pb.CA/DeleteProfile" s) _
              done).0
            in_it in
        let reached =
          profile_by_id-Reached a.down org_id project_id req.id "/pb.CA/DeleteProfile" s row read in
        let removed = delete_row_of-Removed org_id s r row done rest in
        (org_id, project_id, row, own, named, reached, removed.0, removed.1)
