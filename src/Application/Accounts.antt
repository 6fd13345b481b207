-- ===== src/Application/Accounts.antt =====
-- backend/src/booking-application/booking-application.service.ts: `tenantDisplayName` and
-- `ensureApplicantAccount`, the account that someone who applies without one gets.
use Prim.Native.Char.{code}
use pfe.Base.{
  ℕ, Bool, true, false, Option, none, some, String, ◌==◌, if◌then◌else◌, or_else, str_eq, trimmed,
  nonempty,
}
use pfe.Prisma.{Prisma}
use pfe.Service.{internal_error, pure, reads, reads_or, writes, Call, ◌>>=◌, ◌>>◌}
use pfe.Roles.{tenant_admin}
use pfe.Schema.{Db, Action, Tenant, User, BookingApplication, password_reset}
use pfe.Billing.{send}
use pfe.Property.Slugs.{to_slug, unique_slug}

-- `email.split('@')[0]`
unfoldable pub local_part : String → String
local_part String.[] = String.[]
local_part (String.◌∷◌ c s) =
    let rest = local_part s in if code c == 64 then String.[] else String.◌∷◌ c rest

-- `a || b` on texts, where the empty one counts as missing.
abbrev or_text : Option String → String → String
or_text a b = or_else (nonempty a) b

-- `tenantDisplayName`
unfoldable pub tenant_display_name : BookingApplication → String
unfolding local_part
tenant_display_name app =
    let name =
      or_text (trimmed app.guest_name) (
        or_text (elim app.guest_email [ none ↦ none | some e ↦ some (local_part e) ])
          "Applicant") in
    if str_eq app.applicant_type "COMPANY" then or_text (trimmed app.company_name) name else name

-- `user.email === email`
abbrev pub has_email : String → User → Bool
has_email email u = elim u.email [ none ↦ false | some e ↦ str_eq e email ]

module _ ⦃P : Prisma⦄ where
  open P use {find_first, create, update}

  -- `bookingApplication.update` by id.
  abbrev pub update_application : ℕ → (BookingApplication → BookingApplication) → Db → Db
  update_application id f s = record s {
    booking_applications = update (λ a. a.id == id) f s.booking_applications;
  }

  -- The organisation and the administrator that an applicant without an account gets; `fallback` is
  -- the slug of a name without a letter or a digit. The search for a slug always ends with one.
  unfoldable pub create_account : Call → String → String → BookingApplication → Action User
  create_account call fallback email app = do
    let name = tenant_display_name app
    slug ←
        reads_or internal_error (λ s.
          unique_slug (λ (t : Tenant). t.slug) (λ t. true) (to_slug 48 fallback name) s.tenants)
    let tenant : Tenant = record {
      id = call.uuid 0;
      name = name;
      slug = slug;
      contact_email = some email;
    }
    writes (λ s. record s { tenants = create tenant s.tenants })
    let user : User = record {
      id = call.uuid 1;
      tenant_id = tenant.id;
      role = tenant_admin;
      email = some email;
      phone_number = trimmed app.guest_phone;
      is_active = true;
      created_at = call.now;
    }
    writes (λ s. record s { users = create user s.users })
    pure user

  -- `ensureApplicantAccount`
  unfoldable pub ensure_applicant_account : Call → String → BookingApplication → Action ℕ
  unfolding create_account
  ensure_applicant_account call email app = do
    existing ← reads (λ s. find_first (has_email email) s.users)
    elim existing [
      | some u ↦ do
        writes (update_application app.id (λ a. record a { user_id = some u.id }))
        pure u.id
      | none ↦ do
        user ← create_account call "tenant" email app
        writes (update_application app.id (λ a. record a { user_id = some user.id }))
        writes (send (some email) password_reset user.id)
        pure user.id
    ]
