-- ===== src/Authctx/Scopes.antt =====
-- internal/authctx/scopes.go: the scopes of API keys and of scoped tokens.
pub mod Coverage
use text.Mathlib.Text.{◌==◌, starts_with}
use trustyca.Base.{String, Bool, ◌&&◌, ◌||◌, List, [], ◌∷◌, ◌++◌, if◌then◌else◌, any, all, not}
use trustyca.Text.{trim_space, ends_with_star, drop_last}
use trustyca.Text.Split.{split}

-- KnownScopes
abbrev pub known_scopes : List String
known_scopes =
    "org:read" ∷ "project:read" ∷ "ca:read" ∷ "ca:write" ∷ "certs:read" ∷ "certs:issue"
    ∷ "certs:revoke" ∷ []

-- DefaultAPIKeyScopes
abbrev pub default_api_key_scopes : List String
default_api_key_scopes = "org:read" ∷ "project:read" ∷ "ca:read" ∷ []

-- the inner loop of ParseScopes
unfoldable pub trimmed_parts : List String → List String
trimmed_parts [] = []
trimmed_parts (s ∷ parts) =
    let rest = trimmed_parts parts in if trim_space s == "" then rest else trim_space s ∷ rest

-- ParseScopes
unfoldable pub parse_scopes : List String → List String
unfolding trimmed_parts
parse_scopes [] = []
parse_scopes (v ∷ values) = trimmed_parts (split b',' v) ++ parse_scopes values

-- one round of HasScope, over a granted scope that is trimmed
unfoldable pub scope_covers : String → String → Bool
scope_covers g scope =
    (g == scope || g == "*") || (ends_with_star g && starts_with scope (drop_last g))

-- HasScope
unfoldable pub has_scope : List String → String → Bool
has_scope granted scope = any (λ g. scope_covers (trim_space g) scope) granted

-- HasScopes
unfoldable pub has_scopes : List String → List String → Bool
has_scopes granted required = all (has_scope granted) required

-- IsKnownScope
unfoldable pub is_known_scope : String → Bool
is_known_scope scope =
    scope == "*"
    || any (λ k. k == scope || (ends_with_star scope && starts_with k (drop_last scope)))
        known_scopes
