-- ===== src/Ca/Registry/Tests.antt =====
-- A registry whose caches keep one entry each, an issuer of an org, and its profile.
use mathlib.Core.Option.{some-injective}
use text.Mathlib.Text.{◌==◌ as str_eq}
use text.Mathlib.TextEquality.{eq_iff}
use trustyca.Base.{
  ℕ, ◌≡◌, ◌≢◌, ◌↔◌, inl, inr, refl, sym, ap, ◌∙◌, String, Bool, true, false, ◌&&◌, Option, none,
  some, [], ◌∷◌, ◌==◌, ==_iff, if◌then◌else◌, Bool-cases, Any,
}
use trustyca.Base.Status.{ok}
use trustyca.Base.Status.{ok}
use text.Mathlib.Text.{◌==◌ as str_eq}
use text.Mathlib.TextEquality.{eq_iff}
use trustyca.Db.Model.{active}
use trustyca.Db.Scopes.{
  where_tenancy, set_org_scope, where_org_scope, set_project_scope, where_project_scope,
}
use trustyca.Ca.Rows.{Issuer, CertificateProfile, issuer_archived}
use trustyca.Ca.Store.{Store}
use trustyca.Ca.Tests.{issuer_1, up}
use trustyca.Ca.Issuers.{
  is_updated, names_issuer, names_profile, find_issuer_row, find_profile_row, UpdateIssuerRequest,
  update_issuer, update_row, update_columns,
}
use trustyca.Ca.Registry.Lookup.{find_profile, find_issuer, invalidate_issuer}
use trustyca.Ca.Registry.Build.{delegated, keep_issuer, build, entry}
use trustyca.Ca.Registry.Resolve.{
  profile_name, add_profile, resolved, resolve_row, resolve, issuer_by_skid,
}
use trustyca.Ca.Registry.Coherent.{
  Coherent, CacheLaws, issuer_rows, profile_rows, issuer_answer, profile_answer,
}
use trustyca.Ca.Registry.Signs.{DistinctIds, Signs, resolve-Signs}
use trustyca.Ca.Registry.Answers.{find-answers}
use trustyca.Ca.Registry.Runs.{start, resolves, updates, Run-Coherent}
use trustyca.Ca.Registry.BySkid.{HasSkid, issuer_by_skid-HasSkid}
use trustyca.Ca.Registry.{
  IssuerEntry, ResolveRequest, Resolution, Authority, State, newer, profile_binds, requested_label,
}
use trustyca.Ca.Registry.Labels.{scoped}
use trustyca.Ca.Registry.{Lru, ScopeKey}
use trustyca.Ca.Registry.Labels.{LruLaws}

-- a cache of one entry
module _ {K V : Type 0} (eq : K → K → Bool) where
  abbrev pub get_one : Option (K × V) → K → Option V
  get_one none k = none
  get_one (some (j, v)) k = if eq j k then some v else none

  abbrev pub remove_one : Option (K × V) → K → Option (K × V)
  remove_one none k = none
  remove_one (some (j, v)) k = if eq j k then none else some (j, v)

  abbrev pub one : Lru (Option (K × V)) K V
  one = record {
    get = λ c k. (get_one c k, c);
    add = λ c k v. some (k, v);
    remove = remove_one;
    keys = λ c. elim c [ none ↦ [] | some e ↦ e.0 ∷ [] ];
    values = λ c. elim c [ none ↦ [] | some e ↦ e.1 ∷ [] ];
    purge = λ c. none;
  }

true-ne-false : true ≡ false → ⊥
true-ne-false h = cc

module _ {K V : Type 0} (eq : K → K → Bool) (same : (j k : K) → (eq j k ≡ true) ↔ (j ≡ k)) where
  none-some : (v : V) → ◌≡◌ {A = Option V} none (some v) → ⊥
  none-some v h = cc

  got : (j k : K) (v w : V) → get_one eq (some (j, v)) k ≡ some w → (j ≡ k) × (v ≡ w)
  got j k v w h = elim (Bool-cases (eq j k)) [
    | inl e ↦ ((same j k).0 e, some-injective v w (rw e at h))
    | inr e ↦ absurd (none-some w (rw e at h))
  ]

  remove_law :
      (c : Option (K × V)) (k j : K) (w : V)
      → get_one eq (remove_one eq c k) j ≡ some w
      → (k ≢ j) × (get_one eq c j ≡ some w)
  remove_law none k j w h = absurd (none-some w h)
  remove_law (some (i, v)) k j w h = elim (Bool-cases (eq i k)) [
    | inl e ↦ absurd (none-some w (rw e at h))
    | inr e ↦ (
      (λ s. true-ne-false (sym ((same i k).1 ((got i j v w (rw e at h)).0 ∙ sym s)) ∙ e)),
      (rw e at h),
    )
  ]

  keys_law :
      (c : Option (K × V)) (k : K) (w : V)
      → get_one eq c k ≡ some w
      → Any (λ j. j ≡ k) ((one eq).keys c)
  keys_law none k w h = absurd (none-some w h)
  keys_law (some (j, v)) k w h = inl (got j k v w h).0

  values_law :
      (c : Option (K × V)) (w : V)
      → Any (λ v. v ≡ w) ((one eq).values c)
      → (k : K) × (get_one eq c k ≡ some w)
  values_law none w h = absurd h
  values_law (some (j, v)) w (inl h) = (j, rw ((same j j).1 refl) (ap some h))
  values_law (some (j, v)) w (inr h) = absurd h

  one-laws : LruLaws (one {V = V} eq)
  one-laws = record {
    get-get = λ c k j w h. h;
    get-add = λ c k j v w h. inl (got k j v w h);
    get-remove = remove_law;
    get-keys = keys_law;
    get-values = values_law;
  }

abbrev pub key_eq : ScopeKey → ScopeKey → Bool
key_eq j k = (j.org_id == k.org_id) && (j.project_id == k.project_id) && str_eq j.label k.label

abbrev key_path :
    (j k : ScopeKey) → j.org_id ≡ k.org_id → j.project_id ≡ k.project_id → j.label ≡ k.label → j ≡ k
key_path j k e f g = λ i. record { org_id = e i; project_id = f i; label = g i }

both : (b c : Bool) → (b && c) ≡ true → (b ≡ true) × (c ≡ true)
both true true h = (refl, refl)
both true false h = cc
both false c h = cc

key_eq_lem : (j k : ScopeKey) → (key_eq j k ≡ true) ↔ (j ≡ k)
key_eq_lem j k = (
  λ h.
      (let (front, g) =
          both ((j.org_id == k.org_id) && (j.project_id == k.project_id)) (str_eq j.label k.label)
            h in
        let (e, f) = both (j.org_id == k.org_id) (j.project_id == k.project_id) front in
        key_path j k ((==_iff _ _).0 e) ((==_iff _ _).0 f) ((eq_iff _ _).0 g)),
  λ h.
      rw
        (
          (==_iff _ _).1 (ap (λ q. q.org_id) h),
          (==_iff _ _).1 (ap (λ q. q.project_id) h),
          (eq_iff j.label k.label).1 (ap (λ q. q.label) h),
        )
        refl,
)

abbrev pub Slot : Type 0 → Type 0 → Type 0
Slot K V = Option (K × V)

abbrev pub authority :
    Authority
      (Slot ℕ IssuerEntry)
      (Slot ScopeKey Issuer)
      (Slot ScopeKey CertificateProfile)
      String
      String
      Unit
authority = record {
  entries = one (λ j k. j == k);
  labels = one key_eq;
  profiles = one key_eq;
  down = up;
  settings = λ row. ok (record { delegated_ocsp_profile = ""; allowed_profiles = [] });
  authority_profile = λ p. ok p.config;
  signer = λ row. ok tt;
  create = λ row cfg responder key. ok row.skid;
  profile_of = λ i name. none;
  add_profile = λ i name p. i;
  key_hash = λ i alg. i;
  name_hash = λ i alg. i;
  encode_hex = λ h. h;
  id_string = λ n. "1";
  format_int = λ n. "0";
}

pub authority-laws : CacheLaws authority
authority-laws =
    (one-laws (λ j k. j == k) ==_iff, one-laws key_eq key_eq_lem, one-laws key_eq key_eq_lem)

abbrev pub tls : CertificateProfile
tls = record {
  id = 5;
  org_id = 7;
  project_id = 0;
  label = "tls";
  issuer_label = "ca";
  status = active;
  config = "{}";
  updated_at = 30;
}

abbrev pub rows : Store
rows = record {
  issuers = issuer_1 ∷ [];
  profiles = tls ∷ [];
  certificates = [];
  revoked = [];
  crls = [];
  next_id = 100;
}

abbrev pub empty : State authority
empty = record { issuers = none; issuer_labels = none; profiles = none; created = [] }

pub empty-Coherent : Coherent authority rows empty
empty-Coherent = (λ id e h. cc, λ k m h. cc, λ k p h. cc)

pub rows-DistinctIds : DistinctIds rows
rows-DistinctIds i j hi hj e = alone hi ∙ sym (alone hj)
  where
    alone : {k : Issuer} → Any (λ q. q ≡ k) (issuer_1 ∷ []) → k ≡ issuer_1
    alone (inl h) = sym h
    alone (inr h) = absurd h

abbrev request : ResolveRequest
request = record { org_id = 7; project_id = 3; profile = "tls"; issuer_label = "" }

abbrev resolution : Resolution String
resolution = record {
  issuer = 0;
  row = issuer_1;
  profile_row = tls;
  profile = "{}";
  profile_name = "1@0";
}

abbrev alone : State authority → State authority
alone r = r

resolved_request : (resolve authority rows alone request empty).0 ≡ ok resolution
unfolding resolve find_profile find_issuer requested_label resolve_row entry build delegated
    keep_issuer resolved profile_binds add_profile profile_name newer find_profile_row
    find_issuer_row names_profile names_issuer where_tenancy set_org_scope where_org_scope
    set_project_scope where_project_scope
resolved_request = refl

resolve-Signs_example :
    Coherent authority rows (resolve authority rows alone request empty).1
    × ((res : Resolution String)
        → (resolve authority rows alone request empty).0 ≡ ok res
        → Signs authority rows request res)
resolve-Signs_example =
    resolve-Signs authority rows authority-laws alone (λ r h. h) request empty rows-DistinctIds
      empty-Coherent

find-answers_example :
    ((find_issuer authority rows 7 3 "ca" empty).0
      ≡ issuer_answer (scoped (issuer_rows rows) 7 3 "ca"))
    × ((find_profile authority rows 7 3 "ca" empty).0
        ≡ profile_answer (scoped (profile_rows rows) 7 3 "ca"))
find-answers_example = find-answers authority rows 7 3 "ca" empty refl refl empty-Coherent

abbrev archive : UpdateIssuerRequest
archive = record { id = 1; org_id = 7; status = issuer_archived; config = "" }

abbrev pub archived_1 : Issuer
archived_1 = record issuer_1 { status = issuer_archived; updated_at = 60 }

abbrev pub archived_rows : Store
archived_rows = record rows { issuers = archived_1 ∷ [] }

archived : update_issuer up (λ c. true) 60 archive rows ≡ ok (archived_1, archived_rows)
unfolding update_issuer update_row update_columns is_updated
archived = refl

Run-Coherent_example :
    DistinctIds archived_rows
    × Coherent authority archived_rows
        (invalidate_issuer authority archived_1 (resolve authority rows alone request empty).1)
Run-Coherent_example =
    Run-Coherent authority authority-laws rows empty archived_rows
      (invalidate_issuer authority archived_1 (resolve authority rows alone request empty).1)
      (updates (resolves start alone (λ r h. h) request) (λ c. true) 60 archive archived_rows
        archived_1 archived)
      rows-DistinctIds empty-Coherent

issuer_by_skid-HasSkid_example :
    Coherent authority rows (issuer_by_skid authority rows alone "k1" empty).1
    × ((found : ℕ × Issuer)
        → (issuer_by_skid authority rows alone "k1" empty).0 ≡ ok found
        → HasSkid rows "k1" found.1)
issuer_by_skid-HasSkid_example =
    issuer_by_skid-HasSkid authority authority-laws rows rows-DistinctIds alone (λ r h. h) "k1"
      empty empty-Coherent
