-- ===== src/Connection/Rotation.antt =====
-- The secrets of a connection and its cached token.
use billing_api.Common.{
  ℕ, ◌+◌, ◌<◌, ◌≡◌, ◌∙◌, ap, ◌⊎◌, inl, inr, refl, Bool, false, not, ◌&&◌, List, ◌∷◌, Option, none,
  some, Text, eq_text, eq_text_self, Result, ok, err, Bool-cases, Option-cases, ◌==◌, if_both,
  arith,
}
use billing_api.FiscalDocument.{ServiceError, is_present}
use billing_api.Connection

-- The row's credentials are stored.
abbrev pub Resolves :
    Option Connection.HaciendaConnection → List (Text × Connection.HaciendaCredentials) → Type 0
Resolves none secrets = Unit {0}
Resolves (some c) secrets =
    (credentials : Connection.HaciendaCredentials) × (Connection.secret_of c.secret_reference
        secrets
      ≡ some credentials)

-- Another secret does not take away the one of the row.
Resolves-store :
    (row : Option Connection.HaciendaConnection) (reference : Text)
    (credentials : Connection.HaciendaCredentials)
    (secrets : List (Text × Connection.HaciendaCredentials))
    → Resolves row secrets
    → Resolves row ((reference, credentials) ∷ secrets)
Resolves-store none reference credentials secrets h = tt
Resolves-store (some c) reference credentials secrets (old, e) =
    elim (Bool-cases (eq_text reference c.secret_reference)) [
      | inl same ↦ (credentials, ground arith)
      | inr other ↦ (old, ground arith)
    ]

save-row :
    (c : Connection.HaciendaConnection) (expected : Option ℕ)
    (row : Option Connection.HaciendaConnection)
    → ((Connection.save c expected row).1 ≡ row)
      ⊎ ((row' : Connection.HaciendaConnection) × ((Connection.save c expected row).1 ≡ some row')
          × (row'.secret_reference ≡ c.secret_reference))
unfolding Connection.save
save-row c none none = inr (c, refl, refl)
save-row c none (some old) = inl refl
save-row c (some expected) none = inl refl
save-row c (some expected) (some old) = elim (Bool-cases (old.updated_at == expected)) [
  | inl current ↦ inr (Connection.overwrite c old, ground arith, refl)
  | inr stale ↦ inl (ground arith)
]

-- What a save leaves is the row that it met or the one that it wrote.
commit-row :
    (c : Connection.HaciendaConnection) (expected : Option ℕ) (keeps_token : Bool)
    (event : Connection.ConnectionEvent) (w : Connection.World)
    → let r = Connection.commit c expected keeps_token event w in
      (r.1.secrets ≡ w.secrets)
      × ((r.1.row ≡ w.row)
          ⊎ ((row' : Connection.HaciendaConnection) × (r.1.row ≡ some row')
              × (row'.secret_reference ≡ c.secret_reference)))
unfolding Connection.commit Connection.save
commit-row c expected keeps_token event w = (
  ground arith,
  elim (save-row c expected w.row) [
    | inl kept ↦ inl (ground arith)
    | inr (row', written, e) ↦ elim (Bool-cases (Connection.save c expected w.row).0) [
      | inl saved ↦ inr (row', ground arith, e)
      | inr lost ↦ inl (ground arith)
    ]
  ],
)

-- A world that a save leaves still has the secret of its row.
commit-Resolves :
    (c : Connection.HaciendaConnection) (expected : Option ℕ) (keeps_token : Bool)
    (event : Connection.ConnectionEvent) (w : Connection.World)
    → Resolves w.row w.secrets
    → Resolves (some c) w.secrets
    → let r = Connection.commit c expected keeps_token event w in Resolves r.1.row r.1.secrets
commit-Resolves c expected keeps_token event w old new =
    let r = Connection.commit c expected keeps_token event w in
    let (es, er) = commit-row c expected keeps_token event w in
    elim er [
      | inl kept ↦ rw (es, kept) old
      | inr (row', written, same_reference) ↦
          rw (es, written)
            (new.0, ap (λ x. Connection.secret_of x w.secrets) same_reference ∙ new.1)
    ]

build_connection-secret_reference :
    (now : ℕ) (id : Text) (command : Connection.ConfigureConnectionCommand)
    (existing : Option Connection.HaciendaConnection) (reference : Text)
    → (Connection.build_connection now id command existing reference).secret_reference ≡ reference
unfolding Connection.build_connection Connection.configure
build_connection-secret_reference now id command none reference = refl
build_connection-secret_reference now id command (some existing) reference = ground arith

-- The row and the secrets of an outcome.
abbrev Kept : Connection.Outcome → Type 0
Kept r = Resolves r.1.row r.1.secrets

-- If the credentials of the row are stored, or there is no row, when configureConnection starts, and
-- again after what other processes do meanwhile, then so it is when it ends: on success, on every error
-- and on a lost race.
pub configure_connection-Resolves :
    (now : ℕ) (others : Connection.World → Connection.World) (id reference : Text)
    (command : Connection.ConfigureConnectionCommand) (w : Connection.World)
    → Resolves w.row w.secrets
    → Resolves (others w).row (others w).secrets
    → let after = (Connection.configure_connection now others id reference command w).1 in
      Resolves after.row after.secrets
unfolding Connection.configure_connection Connection.store_connection
configure_connection-Resolves now others id reference command w here there =
    if_both Kept (Connection.has_status Connection.is_disabled w.row)
      (err (Connection.thrown "HACIENDA_CONNECTION_DISABLED"), w) _ here
      (if_both Kept (not (is_present command.username) && not (is_present command.password))
        (err Connection.missing, w) _ here
        (stored (Connection.new_credentials command w.row w.secrets)))
  where
    stored :
        (r : Result ServiceError Connection.HaciendaCredentials)
        → Kept (Connection.store_if_had now others id reference command w.row r w)
    stored (err e) = here
    stored (ok credentials) =
        let w₁ : Connection.World = record (others w) {
          secrets = (reference, credentials) ∷ (others w).secrets;
        } in
        let c = Connection.build_connection now id command w.row reference in
        commit-Resolves c (Connection.version w.row) false (Connection.rotated w.row) w₁
          (Resolves-store (others w).row reference credentials (others w).secrets there)
          (
            credentials,
            ap (λ x. Connection.secret_of x w₁.secrets)
                  (build_connection-secret_reference now id command w.row reference)
                ∙ ground (arith, eq_text_self reference),
          )

-- A token that accessToken returns is cached, and every later call until the safety margin before
-- its end returns it again, without the identity provider and with the world as it is.
pub access_token_reused :
    (now later margin : ℕ)
    (authenticate again : Connection.HaciendaCredentials → Option Connection.HaciendaTokenResult)
    (reference other : Text) (w w' : Connection.World) (t : Text)
    → Connection.access_token now margin authenticate reference w ≡ (some t, w')
    → (token : Connection.HaciendaTokenResult) × (w'.token ≡ some token)
      × (token.access_token ≡ t)
      × (later + margin < token.expires_at
          → Connection.access_token later margin again other w' ≡ (some t, w'))
unfolding Connection.access_token Connection.get_token
access_token_reused now later margin authenticate again reference other w w' t e =
    elim (Option-cases w'.token) [
      | inl missing ↦ absurd (ground arith)
      | inr (token, cached) ↦ (token, cached, ground arith, λ early. ground arith)
    ]
