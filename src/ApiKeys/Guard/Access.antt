-- ===== src/ApiKeys/Guard/Access.antt =====
-- What a request that passes the guards has shown.
use billing_api.Common.{
  ℕ, ◌≤◌, ◌≡◌, ◌≢◌, ◌⊎◌, inl, inr, refl, Bool, true, List, [], ◌∷◌, Memᴰ, All, Option, none, some,
  or_option, Text, codes, eq_text, eq_text_sound, includes-Mem, find, find-Mem, ok, Option-cases,
  Result-cases, arith,
}
use billing_api.ApiKeys.{
  ApiKey, ApiKeyEnvironment, live, test, active, validate_api_key, prefix_of, find_by_prefix,
}
use billing_api.ApiKeys.Guard

-- What a request says in a path parameter, or in a field of its body where the parameter is missing or
-- empty.
abbrev pub Says : Option Text → Option Text → Text → Type 0
Says param field t =
    (t ≢ []) × ((param ≡ some t) ⊎ (((param ≡ none) ⊎ (param ≡ some [])) × (field ≡ some t)))

Says-read :
    (param field : Option Text) (t : Text)
    → Says param field t
    → or_option (Guard.read_string param) (Guard.read_string field) ≡ some t
Says-read param field [] (filled, said) = absurd (filled refl)
Says-read param field (c ∷ t) (filled, inl e) = rw e refl
Says-read param field (c ∷ t) (filled, inr (inl gone, e)) = rw (gone, e) refl
Says-read param field (c ∷ t) (filled, inr (inr blank, e)) = rw (blank, e) refl

read_string-some : (o : Option Text) (t : Text) → Guard.read_string o ≡ some t → o ≡ some t
read_string-some none t e = cc
read_string-some (some []) t e = cc
read_string-some (some (c ∷ s)) t e = e

-- A key of the table that argon2 accepts the text for, which is neither revoked nor expired; its use is
-- recorded.
abbrev pub IsValidKey : (Text → Text → Bool) → ℕ → List ApiKey → Text → ApiKey → Type 0
IsValidKey verify now keys raw key =
    (k : ApiKey) × Memᴰ k keys
    × (verify k.key_hash raw ≡ true)
    × (k.status ≡ active)
    × ((t : ℕ) → k.expires_at ≡ some t → now ≤ t)
    × (key ≡ record k { last_used_at = some now })

validate_api_key-IsValidKey :
    (verify : Text → Text → Bool) (now : ℕ) (keys : List ApiKey) (raw : Text) (key : ApiKey)
    → validate_api_key verify now raw keys ≡ ok key
    → IsValidKey verify now keys raw key
unfolding validate_api_key
validate_api_key-IsValidKey verify now keys raw key e = elim (Option-cases (prefix_of raw)) [
  | inl missing ↦ absurd (ground arith)
  | inr (prefix, read) ↦ elim (Option-cases (find_by_prefix prefix keys)) [
    | inl missing ↦ absurd (ground arith)
    | inr (k, found) ↦ (
      k,
      (find-Mem (λ x. eq_text x.key_prefix prefix) keys k found).0,
      ground arith,
      ground arith,
      λ t ends. ground arith,
      ground arith,
    )
  ]
]

-- The checks that a request has passed.
passed :
    (verify : Text → Text → Bool) (now : ℕ) (keys : List ApiKey) (companies : List Guard.Company)
    (r : Guard.Request) (key : ApiKey)
    → Guard.authenticate_request verify now keys companies r ≡ ok key
    → (raw : Text) × (r.x_api_key ≡ some raw)
      × (validate_api_key verify now raw keys ≡ ok key)
      × (Guard.assert_company_authorization companies r key ≡ ok tt)
      × (Guard.assert_environment_authorization r key ≡ ok tt)
unfolding Guard.authenticate_request
passed verify now keys companies r key e = elim (Option-cases (Guard.read_string r.x_api_key)) [
  | inl missing ↦ absurd (ground arith)
  | inr (raw, found) ↦ elim (Result-cases (validate_api_key verify now raw keys)) [
    | inr (refused, why) ↦ absurd (ground arith)
    | inl (k, valid) ↦ elim (Result-cases (Guard.assert_company_authorization companies r k)) [
      | inr (refused, why) ↦ absurd (ground arith)
      | inl (u, company) ↦ elim (Result-cases (Guard.assert_environment_authorization r k)) [
        | inr (refused, why) ↦ absurd (ground arith)
        | inl (v, environment) ↦
            (raw, read_string-some r.x_api_key raw found, ground arith, ground arith, ground arith)
      ]
    ]
  ]
]

-- An active company of the tenant of a key, to which the key is assigned.
abbrev pub IsAssigned : List Guard.Company → ApiKey → Text → Type 0
IsAssigned companies key id =
    (c : Guard.Company) × Memᴰ c companies
    × (c.id ≡ id)
    × (c.tenant_id ≡ key.tenant_id)
    × (c.is_active ≡ true)
    × Memᴰ key.id c.authorized_api_keys

assert_company-Authorized :
    (companies : List Guard.Company) (r : Guard.Request) (key : ApiKey) (id : Text)
    → Guard.assert_company_authorization companies r key ≡ ok tt
    → Guard.company_of r ≡ some id
    → IsAssigned companies key id
unfolding Guard.assert_company_authorization
assert_company-Authorized companies r key id e named =
    elim (Option-cases (find (Guard.is_authorized key id) companies)) [
      | inl missing ↦ absurd (ground arith)
      | inr (c, found) ↦
          let (member, holds) = find-Mem (Guard.is_authorized key id) companies c found in
          (
            c,
            member,
            eq_text_sound c.id id (ground arith),
            eq_text_sound c.tenant_id key.tenant_id (ground arith),
            ground arith,
            includes-Mem c.authorized_api_keys key.id (ground arith),
          )
    ]

-- Test keys are for the sandbox and live keys for production.
abbrev pub IsOfKey : ApiKey → Text → Type 0
IsOfKey key environment =
    ((key.environment ≡ test) × (environment ≡ codes "SANDBOX"))
    ⊎ ((key.environment ≡ live) × (environment ≡ codes "PRODUCTION"))

expected_environment-IsOfKey : (key : ApiKey) → IsOfKey key (Guard.expected_environment key)
expected_environment-IsOfKey key = elim (environment-cases key.environment) [
  | inl t ↦ inl (t, rw t refl)
  | inr l ↦ inr (l, rw l refl)
]
  where
    environment-cases : (e : ApiKeyEnvironment) → (e ≡ test) ⊎ (e ≡ live)
    environment-cases test = inl refl
    environment-cases live = inr refl

assert_environment-Authorized :
    (r : Guard.Request) (key : ApiKey) (environment : Text)
    → Guard.assert_environment_authorization r key ≡ ok tt
    → Guard.environment_of r ≡ some environment
    → IsOfKey key environment
unfolding Guard.assert_environment_authorization
assert_environment-Authorized r key environment e named =
    rw (eq_text_sound environment (Guard.expected_environment key) (ground arith))
      (expected_environment-IsOfKey key)

includes_all-All :
    (scopes required : List Text)
    → Guard.includes_all scopes required ≡ true
    → All (λ s. Memᴰ s scopes) required
includes_all-All scopes [] e = tt
includes_all-All scopes (s ∷ required) e =
    (includes-Mem scopes s (ground arith), includes_all-All scopes required (ground arith))

check_scopes-Authorized :
    (required : List Text) (key : ApiKey)
    → Guard.check_scopes required (some key) ≡ ok tt
    → All (λ s. Memᴰ s key.scopes) required
unfolding Guard.check_scopes
check_scopes-Authorized [] key e = tt
check_scopes-Authorized (s ∷ required) key e =
    includes_all-All key.scopes (s ∷ required) (ground arith)

-- A request that passes both guards has in its header the text of a key of the table, which is active,
-- not past its end and accepted by argon2; a company that it names, in the path or else in the body,
-- is active, of the key's tenant and assigned to the key; an environment that it names so is the
-- sandbox for a test key and production for a live one; and the key has every scope that the endpoint
-- declares.
pub guards-Authorized :
    (verify : Text → Text → Bool) (now : ℕ) (keys : List ApiKey) (companies : List Guard.Company)
    (r : Guard.Request) (required : List Text) (key : ApiKey)
    → Guard.authenticate_request verify now keys companies r ≡ ok key
    → Guard.check_scopes required (some key) ≡ ok tt
    → ((raw : Text) × (r.x_api_key ≡ some raw) × IsValidKey verify now keys raw key)
      × ((id : Text) → Says r.company_param r.company_field id → IsAssigned companies key id)
      × ((environment : Text)
          → Says r.environment_param r.environment_field environment
          → IsOfKey key environment)
      × All (λ s. Memᴰ s key.scopes) required
guards-Authorized verify now keys companies r required key passes scoped =
    let (raw, sent, valid, company, environment) = passed verify now keys companies r key passes in
    (
      (raw, sent, validate_api_key-IsValidKey verify now keys raw key valid),
      λ id named.
          assert_company-Authorized companies r key id company
            (Says-read r.company_param r.company_field id named),
      λ name named.
          assert_environment-Authorized r key name environment
            (Says-read r.environment_param r.environment_field name named),
      check_scopes-Authorized required key scoped,
    )
