-- ===== src/Promotion.antt =====
-- backend/src/promotion-code/promotion-code.service.ts: the codes of an organisation and their use.
-- An amount is in millionths of the currency, a percentage in millionths of a percent.
use pfe.Base.{
  ℕ, ◌+◌, ◌-◌, ◌*◌, ◌/◌, Bool, true, false, not, ◌&&◌, ◌||◌, Option, none, some, String, str_eq,
  ◌==◌, ltb, leb, if◌then◌else◌, or_else, is_some, nonempty, ℤ, pos, negsuc,
}
use pfe.Prisma.{Prisma}
use pfe.Service.{
  Result, ok, throw, bad_request, not_found, conflict, pure, reads, reads_or, throw_if, throw_error,
  writes, Call, ◌>>=◌, ◌>>◌,
}
use pfe.Roles.{AuthUser, is_role, super_admin}
use pfe.Schema.{Db, Action, PromotionCode, DiscountType, is_percentage}
pub mod Redeem
pub mod Owners
pub mod Discount
pub mod Renaming
pub mod Unique
mod Tests

-- `scopeFor`
unfoldable pub scope_for : AuthUser → PromotionCode → Bool
scope_for user p = is_role user.role super_admin || p.tenant_id == user.tenant_id

-- `assertDiscountIsSane`
unfoldable pub is_sane : DiscountType → ℕ → Bool
is_sane type discount = not (is_percentage type && ltb 100000000 discount)

pub record CreatePromotionCodeDto : Type 0 where
  pub code : String
  pub description : Option String
  pub discount_type : DiscountType
  pub discount : ℕ
  pub max_uses : Option ℕ
  pub valid_from : Option ℕ
  pub valid_until : Option ℕ
  pub is_active : Option Bool

-- Two options nested: a nullable column that may be left out.
pub record UpdatePromotionCodeDto : Type 0 where
  pub code : Option String
  pub description : Option (Option String)
  pub discount_type : Option DiscountType
  pub discount : Option ℕ
  pub max_uses : Option (Option ℕ)
  pub valid_from : Option (Option ℕ)
  pub valid_until : Option (Option ℕ)
  pub is_active : Option Bool

unfoldable pub new_code : Call → ℕ → CreatePromotionCodeDto → PromotionCode
new_code call tenant_id dto = record {
  id = call.uuid 0;
  tenant_id = tenant_id;
  code = dto.code;
  description = dto.description;
  discount = dto.discount;
  discount_type = dto.discount_type;
  valid_from = dto.valid_from;
  valid_until = dto.valid_until;
  max_uses = dto.max_uses;
  used_count = 0;
  is_active = or_else dto.is_active true;
}

-- The columns that `update` writes.
unfoldable pub updated_code : UpdatePromotionCodeDto → PromotionCode → PromotionCode
updated_code dto p = record p {
  code = or_else dto.code p.code;
  description = or_else dto.description p.description;
  discount_type = or_else dto.discount_type p.discount_type;
  discount = or_else dto.discount p.discount;
  max_uses = or_else dto.max_uses p.max_uses;
  is_active = or_else dto.is_active p.is_active;
  valid_from = or_else dto.valid_from p.valid_from;
  valid_until = or_else dto.valid_until p.valid_until;
}

-- `promo.max_uses === null`, or a count that is below it.
unfoldable pub is_below : Option ℕ → ℕ → Bool
is_below none used = true
is_below (some max_uses) used = ltb used max_uses

-- The dates and the flag that `validate` looks at.
unfoldable pub is_running : ℕ → PromotionCode → Bool
is_running now p =
    p.is_active
    && elim p.valid_from [ none ↦ true | some from ↦ leb from now ]
    && elim p.valid_until [ none ↦ true | some until ↦ leb now until ]

-- `Number(x.toFixed(2))`
unfoldable pub to_cents : ℕ → ℕ
to_cents x = (x + 5000) / 10000 * 10000

-- `finalAmount`
unfoldable pub final_amount : DiscountType → ℕ → ℕ → ℕ
final_amount type discount amount =
    to_cents
      (if is_percentage type then amount - amount * discount / 100000000 else amount - discount)

pub record Applied : Type 0 where
  pub code : String
  pub original_amount : ℕ
  pub discount_type : DiscountType
  pub discount : ℕ
  pub discounted_amount : ℕ
  pub saved : ℕ

unfoldable pub applied : PromotionCode → ℕ → Applied
applied p amount =
    let final = final_amount p.discount_type p.discount amount in
    record {
      code = p.code;
      original_amount = amount;
      discount_type = p.discount_type;
      discount = p.discount;
      discounted_amount = final;
      saved = to_cents (amount - final);
    }

-- The use that `apply` consumes.
unfoldable pub used_once : PromotionCode → PromotionCode
used_once p = record p { used_count = p.used_count + 1 }

-- The `where` of the statement that consumes a use of the code as it was read.
unfoldable pub is_consumable : PromotionCode → PromotionCode → Bool
is_consumable read p = p.id == read.id && p.is_active && is_below read.max_uses p.used_count

module _ ⦃P : Prisma⦄ where
  open P use {find_first, count, create, update, delete}

  -- The code of an organisation with a text.
  abbrev pub find_code : ℕ → String → Db → Option PromotionCode
  find_code tenant_id code s =
      find_first (λ p. p.tenant_id == tenant_id && str_eq p.code code) s.promotion_codes

  abbrev pub find_promotion : ℕ → Db → Option PromotionCode
  find_promotion id s = find_first (λ p. p.id == id) s.promotion_codes

  -- PromotionCodeService.create. The id 0 is the empty text, which `writeTenantFor` refuses.
  unfoldable pub create_code : Call → AuthUser → CreatePromotionCodeDto → Action PromotionCode
  create_code call user dto = do
    throw_if (user.tenant_id == 0) bad_request
    throw_if (not (is_sane dto.discount_type dto.discount)) bad_request
    existing ← reads (find_code user.tenant_id dto.code)
    throw_if (is_some existing) conflict
    let promo = new_code call user.tenant_id dto
    writes (λ s. record s { promotion_codes = create promo s.promotion_codes })
    pure promo

  -- `findOne`
  unfoldable pub find_one_code : AuthUser → ℕ → Action PromotionCode
  find_one_code user id =
      reads_or not_found (λ s. find_first (λ p. p.id == id && scope_for user p) s.promotion_codes)

  -- `findByCode`
  unfoldable pub find_by_code : AuthUser → String → Action PromotionCode
  find_by_code user code =
      reads_or not_found
        (λ s. find_first (λ p. str_eq p.code code && scope_for user p) s.promotion_codes)

  -- The check of `update` on a new text for the code.
  unfoldable pub check_new_code : PromotionCode → Option String → Action (Unit {0})
  check_new_code current code = elim (nonempty code) [
    | none ↦ pure tt
    | some text ↦ do
      clash ← reads (find_code current.tenant_id text)
      throw_if (not (str_eq text current.code) && is_some clash) conflict
  ]

  -- PromotionCodeService.update
  unfoldable pub update_code : AuthUser → ℕ → UpdatePromotionCodeDto → Action (Unit {0})
  update_code user id dto = do
    current ← find_one_code user id
    throw_if
        (not (
          is_sane (or_else dto.discount_type current.discount_type)
            (or_else dto.discount current.discount)))
        bad_request
    check_new_code current dto.code
    writes (λ s. record s {
      promotion_codes = update (λ p. p.id == current.id) (updated_code dto) s.promotion_codes;
    })

  -- PromotionCodeService.remove
  unfoldable pub remove_code : AuthUser → ℕ → Action (Unit {0})
  remove_code user id = do
    promo ← find_one_code user id
    writes (λ s. record s { promotion_codes = delete (λ p. p.id == promo.id) s.promotion_codes })

  -- PromotionCodeService.validate
  unfoldable pub validate : Call → AuthUser → String → Action PromotionCode
  validate call user code = do
    promo ← find_by_code user code
    throw_if (not (is_running call.now promo)) bad_request
    throw_if (not (is_below promo.max_uses promo.used_count)) bad_request
    pure promo

  -- The conditional statement of `apply`: it counts the rows that it changes.
  unfoldable pub consume : PromotionCode → Action ℕ
  consume read = do
    consumed ← reads (λ s. count (is_consumable read) s.promotion_codes)
    writes (λ s. record s {
      promotion_codes = update (is_consumable read) used_once s.promotion_codes;
    })
    pure consumed

  -- PromotionCodeService.apply
  unfoldable pub apply : Call → AuthUser → String → ℤ → Action Applied
  apply call user code (negsuc _) = throw_error bad_request
  apply call user code (pos amount) = do
    promo ← validate call user code
    consumed ← consume promo
    throw_if (consumed == 0) bad_request
    pure (applied promo amount)
