-- ===== src/Companies/Profiles.antt =====
-- The default activity of a fiscal profile and its legacy code.
use billing_api.Common.{
  Memᴰ, find-Mem, codes, eq_text_sound, eq_text_self, eq_text_other, false, ◌≡◌, ◌≢◌, ◌∙◌, sym, ap,
  inl, inr, refl, Bool, true, List, [], ◌∷◌, some, Text, eq_text, find, ok, Bool-cases,
  Option-cases, Result-cases, length, trim, arith,
}
use billing_api.Companies

-- The code of the profile is the one of its default activity, which is the company's.
abbrev pub Synced : Companies.CompanyTables → Type 0
Synced t =
    (p : Companies.FiscalProfile) (id : Text)
    → t.profile ≡ some p
    → p.default_economic_activity_id ≡ some id
    → (a : Companies.EconomicActivity) × (find (Companies.with_id id) t.activities ≡ some a)
      × (a.code ≡ p.economic_activity_code)

-- A default that is set is an activity of the company with the code of the request, which Hacienda has
-- as active (status "A") and which is enabled for billing, and the profile has its code.
pub set_default_activity-IsDefault :
    (code : Text) (t t' : Companies.CompanyTables)
    → Companies.set_default_activity code t ≡ ok t'
    → (a : Companies.EconomicActivity) × (p : Companies.FiscalProfile) × Memᴰ a t.activities
      × (a.code ≡ code)
      × (a.hacienda_status ≡ codes "A")
      × (a.billing_enabled ≡ true)
      × (t'.profile ≡ some p)
      × (p.default_economic_activity_id ≡ some a.id)
      × (p.economic_activity_code ≡ a.code)
      × (t'.activities ≡ t.activities)
unfolding Companies.set_default_activity
set_default_activity-IsDefault code t t' e =
    elim (Option-cases (find (Companies.with_code code) t.activities)) [
      | inl missing ↦ absurd (ground arith)
      | inr (a, found) ↦ elim (Option-cases t.profile) [
        | inl none_yet ↦ absurd (ground arith)
        | inr (p, has) ↦
            let (member, coded) = find-Mem (Companies.with_code code) t.activities a found in
            (
              a,
              record p {
                default_economic_activity_id = some a.id;
                economic_activity_code = a.code;
              },
              member,
              eq_text_sound a.code code coded,
              eq_text_sound a.hacienda_status (codes "A") (ground arith),
              ground arith,
              ground arith,
              refl,
              refl,
              ground arith,
            )
      ]
    ]

find-enable_in :
    (id other : Text) (enabled : Bool) (activities : List Companies.EconomicActivity)
    (a : Companies.EconomicActivity)
    → find (Companies.with_id id) activities ≡ some a
    → (b : Companies.EconomicActivity) × (find
          (Companies.with_id id)
          (Companies.enable_in other enabled activities)
        ≡ some b)
      × (b.code ≡ a.code)
unfolding Companies.enable_in
find-enable_in id other enabled [] a e = cc
find-enable_in id other enabled (x ∷ xs) a e = elim (Bool-cases (eq_text x.id id)) [
  | inl here ↦ elim (Bool-cases (eq_text x.id other)) [
    | inl changed ↦ (record x { billing_enabled = enabled }, ground arith, ground arith)
    | inr kept ↦ (x, ground arith, ground arith)
  ]
  | inr further ↦
      let (b, found, same) = find-enable_in id other enabled xs a (ground arith) in
      (b, ground arith, same)
]

-- The activity that was found by its code has the flag afterwards.
enable_in-flag :
    (code : Text) (enabled : Bool) (activities : List Companies.EconomicActivity)
    (a : Companies.EconomicActivity)
    → find (Companies.with_code code) activities ≡ some a
    → find (Companies.with_code code) (Companies.enable_in a.id enabled activities)
      ≡ some (record a { billing_enabled = enabled })
unfolding Companies.enable_in
enable_in-flag code enabled [] a e = cc
enable_in-flag code enabled (x ∷ xs) a e = elim (Bool-cases (eq_text x.code code)) [
  | inl here ↦ let same : x ≡ a = ground arith in rw (← same) (ground (arith, eq_text_self x.id))
  | inr further ↦
      let rest = enable_in-flag code enabled xs a (ground arith) in
      elim (Bool-cases (eq_text x.id a.id)) [ inl changed ↦ ground arith | inr kept ↦ ground arith ]
]

-- An activity with another id is as it was.
enable_in-other :
    (id other : Text) (enabled : Bool) (activities : List Companies.EconomicActivity)
    → id ≢ other
    → find (Companies.with_id id) (Companies.enable_in other enabled activities)
      ≡ find (Companies.with_id id) activities
unfolding Companies.enable_in
enable_in-other id other enabled [] ne = refl
enable_in-other id other enabled (x ∷ xs) ne = elim (Bool-cases (eq_text x.id other)) [
  | inl changed ↦
      let missed : eq_text x.id id ≡ false =
        eq_text_other x.id id (λ e. ne (sym e ∙ eq_text_sound x.id other changed)) in
      ground (arith, enable_in-other id other enabled xs ne)
  | inr kept ↦ ground (arith, enable_in-other id other enabled xs ne)
]

create_code-ok :
    (value code : Text)
    → Companies.create_code value ≡ ok code
    → (code ≡ trim value) × (length code ≡ 6)
unfolding Companies.create_code
create_code-ok value code e = ground arith

-- Enabling or disabling an activity gives the activity of that code the flag that was asked for, and
-- leaves its other fields, the activities with another id and the profile as they are; if the profile
-- has the code of its default activity, it still does.
pub set_activity_billing_enabled-flag :
    (code : Text) (enabled : Bool) (t t' : Companies.CompanyTables)
    → Companies.set_activity_billing_enabled code enabled t ≡ ok t'
    → (a : Companies.EconomicActivity) × (find (Companies.with_code code) t.activities ≡ some a)
      × (find (Companies.with_code code) t'.activities
          ≡ some (record a { billing_enabled = enabled }))
      × ((id : Text)
          → id ≢ a.id
          → find (Companies.with_id id) t'.activities ≡ find (Companies.with_id id) t.activities)
      × (t'.profile ≡ t.profile)
      × (Synced t → Synced t')
unfolding Companies.set_activity_billing_enabled
set_activity_billing_enabled-flag code enabled t t' e =
    elim (Option-cases (find (Companies.with_code code) t.activities)) [
      | inl missing ↦ absurd (ground arith)
      | inr (a, found) ↦
          let after : t'.activities ≡ Companies.enable_in a.id enabled t.activities =
            ground arith in
          (
            a,
            found,
            rw after (enable_in-flag code enabled t.activities a found),
            λ id ne. rw after (enable_in-other id a.id enabled t.activities ne),
            ground arith,
            λ synced p id has default.
                let (b, there, same) = synced p id (ground arith) default in
                let (c, later, kept) = find-enable_in id a.id enabled t.activities b there in
                (c, rw after later, kept ∙ same),
          )
    ]

-- An upsert keeps the default of a profile and takes the code of the request.
upsert_fiscal_profile-code :
    (is_email : Text → Bool) (command : Companies.UpsertFiscalProfile)
    (t t' : Companies.CompanyTables) (p : Companies.FiscalProfile)
    → t.profile ≡ some p
    → Companies.upsert_fiscal_profile is_email command t ≡ ok t'
    → (p' : Companies.FiscalProfile) × (t'.profile ≡ some p')
      × (p'.economic_activity_code ≡ trim command.economic_activity_code)
      × (length p'.economic_activity_code ≡ 6)
      × (p'.default_economic_activity_id ≡ p.default_economic_activity_id)
      × (t'.activities ≡ t.activities)
unfolding Companies.upsert_fiscal_profile
upsert_fiscal_profile-code is_email command t t' p has e =
    elim (Result-cases (Companies.create_code command.economic_activity_code)) [
      | inr (refused, why) ↦ absurd (ground arith)
      | inl (code, coded) ↦ elim (Result-cases (Companies.create_address command.address)) [
        | inr (refused, why) ↦ absurd (ground arith)
        | inl (address, addressed) ↦
            elim (Result-cases (Companies.create_contact is_email command.contact)) [
              | inr (refused, why) ↦ absurd (ground arith)
              | inl (contact, reached) ↦
                  let (trims, six) = create_code-ok command.economic_activity_code code coded in
                  (
                    Companies.upserted code (Companies.trimmed command.proveedor_sistemas) address
                        contact (some p),
                    ground arith,
                    trims,
                    six,
                    refl,
                    ground arith,
                  )
            ]
      ]
    ]

-- An upsert of a profile whose default is an activity with another code leaves the two apart.
pub upsert_fiscal_profile_unsyncs :
    (is_email : Text → Bool) (command : Companies.UpsertFiscalProfile)
    (t t' : Companies.CompanyTables) (p : Companies.FiscalProfile) (a : Companies.EconomicActivity)
    → t.profile ≡ some p
    → p.default_economic_activity_id ≡ some a.id
    → find (Companies.with_id a.id) t.activities ≡ some a
    → trim command.economic_activity_code ≢ a.code
    → Companies.upsert_fiscal_profile is_email command t ≡ ok t'
    → ¬ Synced t'
upsert_fiscal_profile_unsyncs is_email command t t' p a has default found differs e synced =
    let (p', stored, coded, six, kept, activities) =
      upsert_fiscal_profile-code is_email command t t' p has e in
    let (b, there, same) = synced p' a.id stored (kept ∙ default) in
    let b_is_a : b ≡ a = ground arith in differs (sym coded ∙ sym same ∙ ap (λ x. x.code) b_is_a)
