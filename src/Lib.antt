-- ===== src/Lib.antt =====
-- The authorization, the tenancy and the revocation core of trustyca.
--
-- trustyca is a certificate authority for many orgs. A caller reaches a service with a token; the
-- interceptor of the server asks internal/authctx whether the call is allowed. The verdict comes
-- from the role names that the method allows, from the scopes of the token, and from the grants of
-- the user, which the authorizer reads from the membership table through a cache.
--
-- The files and what they model:
--   Authctx/Role: internal/authctx/roles.go. The roles, their names and the roles that each may
--     assume.
--   Authctx/Scopes: internal/authctx/scopes.go. The scopes of API keys.
--   Authctx/Grants: internal/authctx/grants.go. The grants of one user in one org, built from the
--     rows of the membership table, and the roles they give.
--   Authctx/Access: internal/authctx/authz.go and allowed.go. CheckAccess and methodAllowed. A
--     call of the Go code that returns an error is a Result (Base/Status).
--   Authctx/Authorizer: internal/authctx/authorizer.go. The authorizer over its cache; each
--     operation returns the cache it leaves.
--   Authctx/Members, Authctx/Allowed: what the parts give together.
--   Db/Model: internal/db/model/member.go. The rows and the slices of rows.
--   Db/Scopes: internal/db/pgsql/query/scope.go. The predicates on the org and project of a row.
--   Db/Tables, Db/Tenants: internal/db/pgsql/member.go, invite.go, user.go, org.go and project.go,
--     with their statements in query. Each statement is a function on the rows.
--   Db/Cursor, Db/Pages: internal/db/pgsql/query/cursor.go and listRows of provider.go. The cursors,
--     and the pages of a list by id.
--   Ca/Rows, Ca/Store, Ca/Revocations: the rows of internal/db/model and the statements of
--     internal/db/pgsql/issuer.go, certificate.go, revoked.go and crl.go.
--   Ca/Crl: internal/ca/crl.go. The publisher of the CRLs; Ca/Crl/Counts is CountCrls, Ca/Crl/Runs
--     is a page of a run.
--   Ca/Issuers, Ca/Expiry: the rest of internal/db/pgsql/issuer.go, profile.go and certificate.go.
--   Ca/Registry: internal/ca/registry.go. Lookup has FindProfile and FindIssuer with the calls that
--     drop entries, Build the entries, Resolve the lookups of a request.
--   Tasks/CertStatus: server/tasks/certstatus. MaxBatches is the fuel of its batches.
--   Backend/Scope, Backend/Certs, Backend/Issuers, Backend/Profiles, Backend/Parents:
--     server/service/backend/scope.go, cert.go, issuer.go, profile.go and the resolve of signer.go.
--   Orgs/Members, Orgs/Members/Changes: server/service/orgs/members.go.
--   Orgs/Projects, Orgs/Accounts, Orgs/Common: server/service/orgs/projects.go and org.go.
--   Text: the functions of the packages strings and unicode that the code calls, for ASCII
--     letters and the white space of Unicode.
--   Base: lists, maps, tests on numbers and results.
--
-- Ids are natural numbers, and 0 stands for none, as in the source; a CRL number and a time are
-- natural numbers too, which do not wrap around. A Go map is an association list. The loops are
-- recursions on a list, but for two: the loop of publish runs on the attempts that are left, and
-- the loop that reads a list by pages runs on fuel, one more than the rows, which collect-rows
-- shows to be enough. The codec of ids, the table of the methods, the cache and the database behind
-- the authorizer are parameters; the laws assumed of the cache (an entry is the one set last, or
-- absent; a deleted entry is absent) are the record CacheLaws. The tokens of cursors and the test
-- for a next page are those of xdb, and parameters: CodecLaws says that a token scans into the
-- values it was made of, PagingLaws that a page without a next one is not full and that an empty
-- page has none. A publisher takes as parameters the signature (x509), the decimal numbers of
-- math/big, the renewal period of the settings of an issuer, and what the registry of the issuers
-- loads. Logging and metrics are left out.
--
-- Several publishers work on the same tables: what the others do between the attempts of one is any
-- change of the tables, and the calls of all of them are a sequence of steps. A transaction is one
-- step.
--
-- A handler of the orgs service takes the state of the tables and returns a Result with the state
-- it leaves; an error leaves the state as it was. The handlers run one after the other here: what
-- two of them do at the same time is not modelled. Which statements fail, the page of a list, the
-- length limit of an email, strings.ToLower, random aliases and the checks of the rows of orgs and
-- projects are parameters. The verdicts on calls are stated for the authorizer without its cache
-- (`direct`), which check_role-Agrees compares with the one of the code. Not modelled are the pages
-- of the orgs and projects, the walk of the publisher over the pages of issuers, the registration of
-- issuers and certificates, the responder and the login. The registry takes the LRU caches, the
-- conversion of the settings and the profiles, the keys and the authority of xpki as parameters;
-- LruLaws says that an entry is the one added last, or absent. What other callers do to a registry
-- while one waits for a lock is any change
-- that keeps its caches coherent with the rows.
mod Base
pub mod Text
pub mod Authctx
pub mod Db
pub mod Ca
pub mod Backend
pub mod Tasks
pub mod Orgs
