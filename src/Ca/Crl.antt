-- ===== src/Ca/Crl.antt =====
-- internal/ca/crl.go: the CrlPublisher, which signs and stores the CRLs of the issuers.
pub mod Numbers
pub mod Entries
pub mod Listed
pub mod Bounds
pub mod Published
pub mod Counts
pub mod Runs
use trustyca.Base.{
  ltb, ℕ, zero, suc, ◌+◌, String, Bool, true, false, not, ◌&&◌, ◌||◌, Option, none, some, List, [],
  ◌∷◌, ◌++◌, ◌==◌, if◌then◌else◌, length, find?,
}
use text.Mathlib.Text.{◌==◌ as str_eq}
use trustyca.Base.Status.{Result, Done, Error, ok, err, grpc, wrapped, not_found, ◌>>=◌}
use trustyca.Db.Model.{Scope}
use trustyca.Db.Cursor.{Cursor, Codec, new_cursor}
use trustyca.Db.Pages.{Page, collect, convert_all}
use trustyca.Ca.Rows.{
  Issuer, IssuerStatus, issuer_active, issuer_archived, issuer_status_number, Revoked, Crl,
}
use trustyca.Ca.Errors.{issuer_not_active, issuer_has_expired}
use trustyca.Ca.Store.{Store, stale_crl_number, get_issuer, get_crl, publish_crl}
use trustyca.Ca.Revocations.{ListRevokedRequest, list_revoked}

-- big.Int
pub data ℤ : Type 0 where
  pos negsuc : ℕ → ℤ

-- x509.RevocationListEntry; a serial number of the rows may be any integer
pub record Entry : Type 0 where
  pub serial_number : ℤ
  pub revocation_time : ℕ
  pub reason_code : ℕ

-- x509.RevocationList, the fields that buildCrl sets
pub record Template : Type 0 where
  pub number : ℕ
  pub this_update : ℕ
  pub next_update : ℕ
  pub entries : List Entry

-- the issuer that the registry loads: the expiry of its certificate and its CRL expiry
pub record Loaded : Type 0 where
  pub not_after : ℕ
  pub crl_expiry : ℕ

-- CrlPublisher: the statements of the store, the tokens of xdb, the decimal numbers of big.Int, the
-- renewal period of the settings of an issuer, the registry, and x509.CreateRevocationList with the
-- PEM encoding
pub record Publisher : Type 0 where
  pub down : String → Bool
  pub codec : Codec
  pub has_next : ℕ → ℕ → Bool
  pub parse_serial : String → Option ℤ
  pub renewal_of : String → Result ℕ
  pub load : Issuer → Result Loaded
  pub sign : Issuer → Template → Result String

-- crlPageSize
abbrev pub crl_page_size : ℕ
crl_page_size = 1000

-- publishAttempts
abbrev pub publish_attempts : ℕ
publish_attempts = 2

-- CrlStatuses: does an issuer of the status publish CRLs
unfoldable pub publishes : IssuerStatus → Bool
publishes status =
    issuer_status_number status == issuer_status_number issuer_active
    || issuer_status_number status == issuer_status_number issuer_archived

-- expiredAt
unfoldable pub expired_at : ℕ → ℕ → Bool
expired_at not_after now = not (not_after == 0) && not (ltb now not_after)

-- issuerExpired
unfoldable pub issuer_expired : Issuer → ℕ → Bool
issuer_expired row now = expired_at row.not_after now

-- crlDueAt
unfoldable pub crl_due_at : ℕ → ℕ → ℕ → Bool
crl_due_at next_update renewal now = not (ltb (now + renewal) next_update)

-- CrlDue; a nil CRL is none
unfoldable pub crl_due : Option Crl → ℕ → ℕ → Bool
crl_due none renewal now = true
crl_due (some crl) renewal now = crl_due_at crl.next_update renewal now

-- currentCrl: the CRL that was read, or none where it was not found
abbrev pub crl_read : Result Crl → Result (Option Crl)
crl_read (ok crl) = ok (some crl)
crl_read (err (grpc not_found m)) = ok none
crl_read (err e) = err (wrapped "unable to read current CRL")

-- an entry of crlEntries
abbrev pub serial_read : Revoked → Option ℤ → Result Entry
serial_read r none = err (wrapped "invalid serial number of revoked certificate")
serial_read r (some serial) =
    ok (record { serial_number = serial; revocation_time = r.revoked_at; reason_code = r.reason })

-- the request of crlEntries
unfoldable pub revocations_of : String → ℕ → Cursor → ListRevokedRequest
revocations_of ikid now cursor = record {
  org_id = 0;
  platform = false;
  all_orgs = true;
  project_id = 0;
  scope = Scope.undefined;
  ikid = ikid;
  valid_after = some now;
  limit = crl_page_size;
  cursor = cursor;
}

-- the next update of buildCrl
unfoldable pub next_update_at : Loaded → ℕ → ℕ
next_update_at issuer now =
    if ltb issuer.not_after (now + issuer.crl_expiry)
    then issuer.not_after
    else now + issuer.crl_expiry

-- the row of buildCrl
unfoldable pub built_crl : Issuer → Template → String → Crl
built_crl row t pem = record {
  id = 0;
  org_id = row.org_id;
  project_id = row.project_id;
  issuer_id = row.id;
  ikid = row.skid;
  crl_number = t.number;
  this_update = t.this_update;
  next_update = t.next_update;
  issuer = row.subject;
  pem = pem;
  locations = [];
}

module _ (p : Publisher) where
  -- currentCrl
  unfoldable pub current_crl : String → Store → Result (Option Crl)
  current_crl ikid s = crl_read (get_crl p.down ikid s)

  unfoldable pub entry_of : Revoked → Result Entry
  entry_of r = serial_read r (p.parse_serial r.serial_number)

  -- crlEntries, on as much fuel as there are revocations and one more
  unfoldable pub crl_entries : String → ℕ → Store → Result (List Entry)
  crl_entries ikid now s =
      collect p.codec (convert_all entry_of)
        (λ cursor. list_revoked p.down p.codec p.has_next (revocations_of ikid now cursor) s)
        (suc (length s.revoked)) (new_cursor 0)

  -- buildCrl, less the number of the entries
  unfoldable pub build_crl : Loaded → Issuer → ℕ → ℕ → Store → Result Crl
  build_crl issuer row number now s = crl_entries row.skid now s >>= λ entries.
      if not (ltb now (next_update_at issuer now))
      then err issuer_has_expired
      else (let t : Template = record {
        number = number;
        this_update = now;
        next_update = next_update_at issuer now;
        entries = entries;
      } in
          p.sign row t >>= λ pem. ok (built_crl row t pem))

  -- PublishCrl of CrlPublisher, and publish: what they return, with the tables they leave. Before
  -- the n-th attempt from the last stores its CRL, other publishers may change the tables:
  -- `others n`.
  abbrev pub Publishes : Type 0
  Publishes = Result (Option Crl × Bool) × Store

  module _ (others : ℕ → Store → Store) (force : Bool) (renewal now : ℕ) (issuer : Loaded) where
    -- is the error ErrStaleCrlNumber
    abbrev pub is_stale : Error → Bool
    is_stale (wrapped m) = str_eq m "crl number is not greater than the issuer's crl number"
    is_stale (grpc c m) = false

    -- the current CRL after a stale number: it is returned where it is not due
    abbrev pub current_again : (Store → Publishes) → Store → Result (Option Crl) → Publishes
    current_again again s (err e) = (err e, s)
    current_again again s (ok current) =
        if not force && not (crl_due current renewal now) then (ok (current, false), s) else again s

    -- the row after a stale number
    abbrev pub row_again : (Issuer → Store → Publishes) → Store → Result Issuer → Publishes
    row_again again s (err e) = (err (wrapped "unable to read issuer"), s)
    row_again again s (ok row) =
        if not (publishes row.status)
        then (err issuer_not_active, s)
        else current_again (again row) s (current_crl row.skid s)

    -- the outcome of the statement that stores the CRL
    abbrev pub after_store :
        (Issuer → Store → Publishes) → Bool → Issuer → Store → Result (Crl × Store) → Publishes
    after_store again last row s (ok (stored, t)) = (ok (some stored, true), t)
    after_store again last row s (err e) =
        if not (is_stale e) || last
        then (err (wrapped "unable to publish CRL of issuer"), s)
        else row_again again s (get_issuer p.down row.id s)

    abbrev pub after_build :
        (Issuer → Store → Publishes) → Bool → Issuer → Store → Store → Result Crl → Publishes
    after_build again last row s t (err e) = (err e, s)
    after_build again last row s t (ok crl) =
        after_store again last row t (publish_crl p.down crl t)

    -- the loop of publish, on the attempts that are left
    unfoldable pub attempts : ℕ → Issuer → Store → Publishes
    attempts zero row s = (err (wrapped "no attempt"), s)
    attempts (suc left) row s =
        after_build (attempts left) (left == 0) row s (others left s)
          (build_crl issuer row (row.crl_number + 1) now s)

  abbrev pub after_load :
      (ℕ → Store → Store) → Bool → ℕ → ℕ → Issuer → Store → Result Loaded → Publishes
  after_load others force renewal now row s (err e) = (err e, s)
  after_load others force renewal now row s (ok issuer) =
      attempts others force renewal now issuer publish_attempts row s

  abbrev pub after_renewal :
      (ℕ → Store → Store) → Bool → ℕ → Issuer → Option Crl → Store → Result ℕ → Publishes
  after_renewal others force now row current s (err e) = (err e, s)
  after_renewal others force now row current s (ok renewal) =
      if not force && not (crl_due current renewal now)
      then (ok (current, false), s)
      else after_load others force renewal now row s (p.load row)

  -- publish
  unfoldable pub publish : (ℕ → Store → Store) → Bool → ℕ → Issuer → Option Crl → Store → Publishes
  publish others force now row current s =
      if issuer_expired row now
      then (err issuer_has_expired, s)
      else after_renewal others force now row current s (p.renewal_of row.config)

  abbrev pub after_current :
      (ℕ → Store → Store) → Bool → ℕ → Issuer → Store → Result (Option Crl) → Publishes
  after_current others force now row s (err e) = (err e, s)
  after_current others force now row s (ok current) = publish others force now row current s

  -- PublishCrl
  unfoldable pub publish_crl_of : (ℕ → Store → Store) → Bool → ℕ → Issuer → Store → Publishes
  publish_crl_of others force now row s =
      if not (publishes row.status)
      then (err issuer_not_active, s)
      else after_current others force now row s (current_crl row.skid s)
