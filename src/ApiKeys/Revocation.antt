-- ===== src/ApiKeys/Revocation.antt =====
-- What a revocation of an API key brings about, and what a use that overlaps it undoes.
use billing_api.Common.{
  ℕ, ◌≡◌, refl, Bool, true, List, [], ◌∷◌, some, Text, eq_text, ok, err, arith,
}
use billing_api.ApiKeys.{
  ApiKey, active, key_revoked, is_revoked, revoke, save, overwrite, find_by_prefix, find_by_id,
  prefix_of, validate_api_key, authenticate, revoke_api_key,
}

find-save-id :
    (k row : ApiKey) (table : List ApiKey)
    → find_by_id k.id table ≡ some row
    → find_by_id k.id (save k table) ≡ some (overwrite k row)
unfolding save
find-save-id k row [] h = cc
find-save-id k row (x ∷ rest) h = ground (arith, find-save-id k row rest)

find-prefix :
    (p : Text) (row : ApiKey) (table : List ApiKey)
    → find_by_prefix p table ≡ some row
    → eq_text row.key_prefix p ≡ true
find-prefix p row [] h = cc
find-prefix p row (x ∷ rest) h = ground (arith, find-prefix p row rest)

find-id :
    (i : Text) (row : ApiKey) (table : List ApiKey)
    → find_by_id i table ≡ some row
    → eq_text row.id i ≡ true
find-id i row [] h = cc
find-id i row (x ∷ rest) h = ground (arith, find-id i row rest)

-- The row of a saved key, looked up by its prefix.
find-save-prefix :
    (k row : ApiKey) (p : Text) (table : List ApiKey)
    → find_by_id k.id table ≡ some row
    → find_by_prefix p table ≡ some row
    → find_by_prefix p (save k table) ≡ some (overwrite k row)
unfolding save
find-save-prefix k row p [] h g = cc
find-save-prefix k row p (x ∷ rest) h g = ground (
  arith,
  find-save-prefix k row p rest,
  find-prefix p row (x ∷ rest) g,
  find-id k.id row (x ∷ rest) h,
)

revoke-id : (by : Text) (now : ℕ) (k : ApiKey) → (revoke by now k).id ≡ k.id
unfolding revoke
revoke-id by now k = ground arith

revoke-revoked :
    (by : Text) (now : ℕ) (k : ApiKey) → is_revoked (overwrite (revoke by now k) k) ≡ true
unfolding revoke
revoke-revoked by now k = ground arith

module _ (verify : Text → Text → Bool) where
  validate-revoked :
      (now : ℕ) (raw p : Text) (row : ApiKey) (table : List ApiKey)
      → prefix_of raw ≡ some p
      → find_by_prefix p table ≡ some row
      → is_revoked row ≡ true
      → validate_api_key verify now raw table ≡ err key_revoked
  unfolding validate_api_key
  validate-revoked now raw p row table e f r = ground arith

  validate-active :
      (now : ℕ) (raw : Text) (key : ApiKey) (table : List ApiKey)
      → validate_api_key verify now raw table ≡ ok key
      → key.status ≡ active
  unfolding validate_api_key
  validate-active now raw key table h = ground arith

  revoked-row :
      (tenant_id by : Text) (now : ℕ) (p : Text) (row : ApiKey) (before after : List ApiKey)
      → find_by_id row.id before ≡ some row
      → find_by_prefix p before ≡ some row
      → revoke_api_key tenant_id row.id by now before ≡ ok after
      → find_by_prefix p after ≡ some (overwrite (revoke by now row) row)
  unfolding revoke_api_key
  revoked-row tenant_id by now p row before after e f h =
      let a : after ≡ save (revoke by now row) before = ground arith in
      rw a (find-save-prefix (revoke by now row) row p before (rw (revoke-id by now row) e) f)

  -- Once a key is revoked, a request that starts afterwards with its prefix is refused as revoked and
  -- changes nothing, whatever the hash, its secret and the clock.
  pub authenticate-revoke_api_key :
      (tenant_id by : Text) (now : ℕ) (raw p : Text) (row : ApiKey) (before after : List ApiKey)
      (later : ℕ)
      → prefix_of raw ≡ some p
      → find_by_id row.id before ≡ some row
      → find_by_prefix p before ≡ some row
      → revoke_api_key tenant_id row.id by now before ≡ ok after
      → authenticate verify later raw after after ≡ (err key_revoked, after)
  unfolding authenticate
  authenticate-revoke_api_key tenant_id by now raw p row before after later e f g h =
      rw
        (validate-revoked later raw p (overwrite (revoke by now row) row) after e
          (revoked-row tenant_id by now p row before after f g h) (revoke-revoked by now row))
        refl

  -- The save of an authentication that has read its key makes the key active in the table that it
  -- meets, also where the key was revoked since it was read.
  pub authenticate_revives :
      (now : ℕ) (raw : Text) (seen store : List ApiKey) (key row : ApiKey)
      → validate_api_key verify now raw seen ≡ ok key
      → find_by_id key.id store ≡ some row
      → (row' : ApiKey) × (find_by_id key.id (authenticate verify now raw seen store).1 ≡ some row')
        × (row'.status ≡ active)
  unfolding authenticate
  authenticate_revives now raw seen store key row h f =
      (overwrite key row, rw h (find-save-id key row store f), validate-active now raw key seen h)
