-- ===== src/Ca/Issuers.antt =====
-- internal/db/pgsql/issuer.go and profile.go: the statements on the issuers and the profiles, as
-- functions on the rows. The ID of a row is its primary key.
use Prim.Native.String.{len}
use text.Mathlib.Text.{◌==◌ as str_eq}
use trustyca.Base.{
  any, length, ltb, ℕ, ◌+◌, String, Bool, true, false, not, ◌&&◌, ◌||◌, List, [], ◌∷◌, ◌==◌,
  if◌then◌else◌, filter, find?, map,
}
use trustyca.Base.Status.{Error, Result, ok, err, wrapped, ◌>>=◌}
use trustyca.Db.Model.{active, status_number}
use trustyca.Db.Tables.{found, no_error}
use trustyca.Db.Scopes.{where_tenancy}
use trustyca.Ca.Rows.{
  Issuer, CertificateProfile, AuthorityType, authority_unknown, IssuerStatus, issuer_active,
  issuer_status_number, max_len_for_label, max_len_for_name, validate_tenancy, validate_length,
}
use trustyca.Ca.Store.{Store}

abbrev is_unknown_type : AuthorityType → Bool
is_unknown_type authority_unknown = true
is_unknown_type _ = false

-- validateCertificate; true where it returns no error, as the tests below
unfoldable pub validate_certificate : Issuer → Bool
validate_certificate m =
    validate_length m.ikid max_len_for_label false
    && validate_length m.serial_number max_len_for_label true
    && validate_length m.subject max_len_for_name true
    && validate_length m.issuer max_len_for_name true
    && (len m.sha256 == 64)
    && (not (m.not_before == 0) && not (m.not_after == 0) && ltb m.not_before m.not_after)
    && not (str_eq m.pem "")

-- Issuer.Validate
unfoldable pub issuer_validate : Issuer → Bool
issuer_validate m =
    validate_tenancy m.org_id m.project_id
    && validate_length m.label max_len_for_label true
    && not (is_unknown_type m.type)
    && not (issuer_status_number m.status == 0)
    && validate_length m.skid max_len_for_label true
    && validate_length m.key_provider max_len_for_label true
    && validate_length m.key_id max_len_for_name true
    && (if issuer_status_number m.status == 1
        then not (str_eq m.csr_pem "") && validate_length m.subject max_len_for_name true
        else validate_certificate m)

-- CertificateProfile.Validate
unfoldable pub profile_validate : CertificateProfile → Bool
profile_validate m =
    validate_tenancy m.org_id m.project_id
    && validate_length m.label max_len_for_label true
    && validate_length m.issuer_label max_len_for_label true
    && not (status_number m.status == 0)

-- the WHERE of FindIssuer and of FindProfile
unfoldable pub names_issuer : ℕ → ℕ → String → Issuer → Bool
names_issuer org_id project_id label i =
    where_tenancy org_id project_id i.org_id i.project_id && str_eq i.label label

unfoldable pub names_profile : ℕ → ℕ → String → CertificateProfile → Bool
names_profile org_id project_id label p =
    where_tenancy org_id project_id p.org_id p.project_id && str_eq p.label label

-- UpdateIssuerRequest; the unknown status and the empty config are not set
pub record UpdateIssuerRequest : Type 0 where
  pub id : ℕ
  pub org_id : ℕ
  pub status : IssuerStatus
  pub config : String

-- the SET of UpdateIssuer
unfoldable pub update_columns : UpdateIssuerRequest → ℕ → Issuer → Issuer
update_columns r now i = record i {
  status = if issuer_status_number r.status == 0 then i.status else r.status;
  key_protected = if issuer_status_number r.status == 4 then "" else i.key_protected;
  config = if str_eq r.config "" then i.config else r.config;
  updated_at = now;
}

-- the SET of ActivateIssuer
unfoldable pub activate_columns : Issuer → ℕ → Issuer → Issuer
activate_columns m now i = record i {
  skid = m.skid;
  ikid = m.ikid;
  serial_number = m.serial_number;
  subject = m.subject;
  issuer = m.issuer;
  sha256 = m.sha256;
  not_before = m.not_before;
  not_after = m.not_after;
  pem = m.pem;
  chain_pem = m.chain_pem;
  root_pem = m.root_pem;
  csr_pem = "";
  status = issuer_active;
  updated_at = now;
}

-- the WHERE of ActivateIssuer
unfoldable pub is_pending : Issuer → Issuer → Bool
is_pending m i = (i.id == m.id) && (issuer_status_number i.status == 1) && (i.org_id == m.org_id)

-- the WHERE of UpdateIssuer
unfoldable pub is_updated : UpdateIssuerRequest → Issuer → Bool
is_updated r i = (i.id == r.id) && (i.org_id == r.org_id)

-- the violation of the unique index on the key identifier
abbrev pub unique_issuer_skid : Error
unique_issuer_skid = wrapped "unique_issuer_skid"

-- an UPDATE that returns its row: the row is found, and changed
unfoldable pub update_row : (Issuer → Bool) → (Issuer → Issuer) → Store → Result (Issuer × Store)
update_row selects change s = found (find? selects s.issuers) >>= λ i.
    ok (change i, record s { issuers = map (λ j. if selects j then change j else j) s.issuers })

-- the SET of the upsert of RegisterProfile
unfoldable pub replace_profile : CertificateProfile → ℕ → CertificateProfile → CertificateProfile
replace_profile n now p = record p {
  issuer_label = n.issuer_label;
  status = n.status;
  config = n.config;
  updated_at = now;
}

-- the rows that the upsert leaves, and the row that it returns
abbrev pub put_profile : CertificateProfile → ℕ → List CertificateProfile → List CertificateProfile
put_profile n now [] = n ∷ []
put_profile n now (p ∷ rows) =
    if names_profile n.org_id n.project_id n.label p
    then replace_profile n now p ∷ rows
    else p ∷ put_profile n now rows

abbrev pub stored_profile : CertificateProfile → ℕ → List CertificateProfile → CertificateProfile
stored_profile n now [] = n
stored_profile n now (p ∷ rows) =
    if names_profile n.org_id n.project_id n.label p
    then replace_profile n now p
    else stored_profile n now rows

-- the WHERE of DeleteProfile
unfoldable pub deletes_profile : ℕ → ℕ → CertificateProfile → Bool
deletes_profile org_id id p = (p.org_id == org_id) && (p.id == id)

module _ (down : String → Bool) where
  -- FindIssuer
  unfoldable pub find_issuer_row : ℕ → ℕ → String → Store → Result Issuer
  find_issuer_row org_id project_id label s = no_error (down "FindIssuer") >>= λ _.
      found (find? (names_issuer org_id project_id label) s.issuers)

  -- GetIssuerBySKID
  unfoldable pub get_issuer_by_skid : String → Store → Result Issuer
  get_issuer_by_skid skid s =
      no_error (down "GetIssuerBySKID") >>= λ _. found (find? (λ i. str_eq i.skid skid) s.issuers)

  -- FindProfile
  unfoldable pub find_profile_row : ℕ → ℕ → String → Store → Result CertificateProfile
  find_profile_row org_id project_id label s = no_error (down "FindProfile") >>= λ _.
      found (find? (names_profile org_id project_id label) s.profiles)

  -- UpdateIssuer; whether a config parses is `parses`
  unfoldable pub update_issuer :
      (String → Bool) → ℕ → UpdateIssuerRequest → Store → Result (Issuer × Store)
  update_issuer parses now r s =
      if r.id == 0
      then err (wrapped "issuer ID is required")
      else if (issuer_status_number r.status == 0) && str_eq r.config ""
      then err (wrapped "no changes to update")
      else if not (str_eq r.config "") && not (parses r.config)
      then err (wrapped "invalid config")
      else (no_error (down "UpdateIssuer") >>= λ _.
          update_row (is_updated r) (update_columns r now) s)

  -- ActivateIssuer
  unfoldable pub activate_issuer : ℕ → Issuer → Store → Result (Issuer × Store)
  activate_issuer now m s =
      if m.id == 0
      then err (wrapped "issuer ID is required")
      else (no_error (
            not (issuer_validate (record m { status = issuer_active; csr_pem = "" }))
            || down "ActivateIssuer")
          >>= λ _.
              if any (λ i. not (i.id == m.id) && str_eq i.skid m.skid) s.issuers
              then err unique_issuer_skid
              else update_row (is_pending m) (activate_columns m now) s)

  -- RegisterProfile, where no other row has the ID
  unfoldable pub register_profile :
      ℕ → CertificateProfile → Store → Result (CertificateProfile × Store)
  register_profile now m s =
      let im = record m {
        id = if m.id == 0 then s.next_id else m.id;
        status = if status_number m.status == 0 then active else m.status;
        updated_at = now;
      } in
      no_error (not (profile_validate im) || down "RegisterProfile") >>= λ _. ok (
        stored_profile im now s.profiles,
        record s { profiles = put_profile im now s.profiles; next_id = s.next_id + 1 },
      )

  -- GetProfile
  unfoldable pub get_profile : ℕ → Store → Result CertificateProfile
  get_profile id s =
      no_error (down "GetProfile") >>= λ _. found (find? (λ p. p.id == id) s.profiles)

  -- DeleteProfile, with the number of the deleted rows
  unfoldable pub delete_profile : ℕ → ℕ → Store → Result (ℕ × Store)
  delete_profile org_id id s = no_error (down "DeleteProfile") >>= λ _. ok (
    length (filter (deletes_profile org_id id) s.profiles),
    record s { profiles = filter (λ p. not (deletes_profile org_id id p)) s.profiles },
  )
