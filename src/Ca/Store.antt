-- ===== src/Ca/Store.antt =====
-- internal/db/pgsql: the statements on the issuers, certificates, revocations and CRLs, as functions
-- on the rows. A statement whose name is `down` fails; a transaction that fails leaves the tables
-- as they were.

use text.Mathlib.Text.{◌==◌ as str_eq}
use trustyca.Base.{
  ltb, ℕ, ◌+◌, String, Bool, not, ◌&&◌, ◌||◌, Option, none, some, List, [], ◌∷◌, ◌==◌,
  if◌then◌else◌, filter, find?, map, any,
}
use trustyca.Base.Status.{Result, Done, Error, ok, err, wrapped, ◌>>=◌}
use trustyca.Db.Tables.{found, no_error}
use trustyca.Ca.Rows.{Issuer, CertificateProfile, Certificate, Revoked, Crl, crl_validate}

-- the CA tables, and the next row ID
pub record Store : Type 0 where
  pub issuers : List Issuer
  pub profiles : List CertificateProfile
  pub certificates : List Certificate
  pub revoked : List Revoked
  pub crls : List Crl
  pub next_id : ℕ

-- ErrStaleCrlNumber
abbrev pub stale_crl_number : Error
stale_crl_number = wrapped "crl number is not greater than the issuer's crl number"

-- ErrAlreadyRevoked
abbrev pub already_revoked : Error
already_revoked = wrapped "certificate is already revoked"

-- the WHERE of SetIssuerCrlNumber
unfoldable pub takes_number : ℕ → String → ℕ → Issuer → Bool
takes_number id ikid number i = i.id == id && str_eq i.skid ikid && ltb i.crl_number number

-- the SET of SetIssuerCrlNumber
unfoldable pub set_crl_number : ℕ → String → ℕ → Issuer → Issuer
set_crl_number id ikid number i =
    if takes_number id ikid number i then record i { crl_number = number } else i

-- the upsert of PublishCrl: the CRL of the IKID is replaced, less its row ID, tenancy and issuer
unfoldable pub replace_crl : Crl → Crl → Crl
replace_crl n c = record c {
  crl_number = n.crl_number;
  this_update = n.this_update;
  next_update = n.next_update;
  issuer = n.issuer;
  pem = n.pem;
  locations = n.locations;
}

abbrev pub put_crl : Crl → List Crl → List Crl
put_crl n [] = n ∷ []
put_crl n (c ∷ crls) = if str_eq c.ikid n.ikid then replace_crl n c ∷ crls else c ∷ put_crl n crls

-- the row that the upsert returns
abbrev pub stored_crl : Crl → List Crl → Crl
stored_crl n [] = n
stored_crl n (c ∷ crls) = if str_eq c.ikid n.ikid then replace_crl n c else stored_crl n crls

-- the failures of setIssuerCrlNumber where no row was updated
abbrev pub refused_number : String → Result Issuer → Result (Issuer × Store)
refused_number ikid (err e) = err e
refused_number ikid (ok i) =
    if not (str_eq i.skid ikid)
    then err (wrapped "crl ikid does not match issuer")
    else err stale_crl_number

abbrev pub updated_issuer :
    String → ℕ → Result Issuer → Store → Option Issuer → Result (Issuer × Store)
updated_issuer ikid number other t (some i) = ok (record i { crl_number = number }, t)
updated_issuer ikid number other t none = refused_number ikid other

-- the CRL that PublishCrl stores, from the caller's and the row of its issuer
unfoldable pub crl_of_issuer : ℕ → Crl → Issuer → Crl
crl_of_issuer next_id m i = record m {
  id = if m.id == 0 then next_id else m.id;
  org_id = i.org_id;
  project_id = i.project_id;
  issuer = i.subject;
}

module _ (down : String → Bool) where
  -- GetIssuer
  unfoldable pub get_issuer : ℕ → Store → Result Issuer
  get_issuer id s = no_error (down "GetIssuer") >>= λ _. found (find? (λ i. i.id == id) s.issuers)

  -- setIssuerCrlNumber
  unfoldable pub set_issuer_crl_number : ℕ → String → ℕ → Store → Result (Issuer × Store)
  set_issuer_crl_number id ikid number s = no_error (down "SetIssuerCrlNumber") >>= λ _.
      updated_issuer ikid number (get_issuer id s)
        (record s { issuers = map (set_crl_number id ikid number) s.issuers })
        (find? (takes_number id ikid number) s.issuers)

  -- PublishCrl
  unfoldable pub publish_crl : Crl → Store → Result (Crl × Store)
  publish_crl m s =
      if m.issuer_id == 0
      then err (wrapped "invalid issuer ID")
      else if str_eq m.ikid ""
      then err (wrapped "invalid ikid: required")
      else (set_issuer_crl_number m.issuer_id m.ikid m.crl_number s >>= λ found.
          (let im = crl_of_issuer s.next_id m found.0 in
            no_error (not (crl_validate im) || down "PublishCrl") >>= λ _. ok (
              stored_crl im found.1.crls,
              record found.1 { crls = put_crl im found.1.crls; next_id = s.next_id + 1 },
            )))

  -- GetCrl
  unfoldable pub get_crl : String → Store → Result Crl
  get_crl ikid s =
      no_error (down "GetCrlByIKID") >>= λ _. found (find? (λ c. str_eq c.ikid ikid) s.crls)

  -- GetCrls
  unfoldable pub get_crls : List String → Store → Result (List Crl)
  get_crls [] s = ok []
  get_crls (ikid ∷ ikids) s = no_error (down "GetCrlsByIKIDs") >>= λ _.
      ok (filter (λ c. any (λ k. str_eq k c.ikid) (ikid ∷ ikids)) s.crls)

  -- DeleteCrl, without the number of the deleted rows
  unfoldable pub delete_crl : ℕ → String → Store → Result (Done × Store)
  delete_crl org_id ikid s = no_error (down "DeleteCrl") >>= λ _.
      ok (
        tt,
        record s { crls = filter (λ c. not (c.org_id == org_id && str_eq c.ikid ikid)) s.crls },
      )
