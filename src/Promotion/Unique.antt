-- ===== src/Promotion/Unique.antt =====
-- backend/src/promotion-code/promotion-code.service.ts: the texts of an organisation's codes stay
-- distinct, whatever is done to its codes.
use pfe.Base.{
  ℕ, ◌≡◌, ◌⊎◌, inl, inr, refl, sym, ◌∙◌, not, String, arith, find-none, find_by_key, All-map,
  Pairwise-select, Pointwise-Pairwise, modify-Pointwise_all, modify-Pointwise,
  modify-Pairwise_found, select, ℤ, pos, negsuc, ◌==◌, or_else, subst,
}
use pfe.Prisma.{Prisma}
use pfe.Service.{Result-cases, Call, final}
use pfe.Roles.{AuthUser}
use pfe.Schema.{Db, PromotionCode}
use pfe.Promotion
use pfe.Promotion.Redeem.{HasDistinctCodes, consume-rows, validate-final}
use pfe.Promotion.Renaming.{HasText, find_one_code-cases, update-final}
use pfe.Promotion.Owners.{IsSameCode, HasUniqueCodes, create_code-HasUniqueCodes, code_differs}

-- What a user may do to the codes.
pub data Edit : Type 0 where
  creating : Call → Promotion.CreatePromotionCodeDto → Edit
  updating : ℕ → Promotion.UpdatePromotionCodeDto → Edit
  removing : ℕ → Edit
  applying : Call → String → ℤ → Edit

-- An update that gives a text gives one that is not empty.
abbrev pub IsNamed : Edit → Type 0
IsNamed (updating id dto) = HasText dto
IsNamed _ = Unit

-- The same text for the same organisation.
abbrev KeepsCode : PromotionCode → PromotionCode → Type 0
KeepsCode a b = (a.tenant_id ≡ b.tenant_id) × (a.code ≡ b.code)

KeepsCode-IsSameCode :
    (a b c d : PromotionCode)
    → KeepsCode a b
    → KeepsCode c d
    → ¬ (IsSameCode a c)
    → ¬ (IsSameCode b d)
KeepsCode-IsSameCode a b c d (t, u) (v, w) apart (e, f) = apart (t ∙ e ∙ sym v, u ∙ f ∙ sym w)

module _ ⦃P : Prisma⦄ where
  open P use {rows, update, delete}

  unfoldable pub edit : AuthUser → Edit → Db → Db
  edit user (creating call dto) s = final (Promotion.create_code call user dto s)
  edit user (updating id dto) s = final (Promotion.update_code user id dto s)
  edit user (removing id) s = final (Promotion.remove_code user id s)
  edit user (applying call code amount) s = final (Promotion.apply call user code amount s)

  consume-HasUniqueCodes :
      (read : PromotionCode) (s : Db)
      → HasUniqueCodes s
      → HasUniqueCodes (final (Promotion.consume read s))
  unfolding Promotion.used_once
  consume-HasUniqueCodes read s unique = rw consume-rows (
      Pointwise-Pairwise KeepsCode (λ a b. ¬ (IsSameCode a b))
        (λ a b c d k l. KeepsCode-IsSameCode a b c d k l)
        (modify-Pointwise_all (λ (a : PromotionCode). a.id) KeepsCode (λ a. (refl, refl))
          (Promotion.is_consumable read) Promotion.used_once (λ a. (refl, refl))
          (rows s.promotion_codes))
        unique)

  apply-final :
      (call : Call) (user : AuthUser) (code : String) (amount : ℤ) (s : Db)
      → (final (Promotion.apply call user code amount s) ≡ s)
        ⊎ ((p : PromotionCode) × (final (Promotion.apply call user code amount s)
              ≡ final (Promotion.consume p s)))
  unfolding Promotion.apply
  apply-final call user code (negsuc _) s = inl refl
  apply-final call user code (pos amount) s =
      let same = validate-final call user code s in
      elim (Result-cases (Promotion.validate call user code s).0) [
        | inl (p, read) ↦ inr (p, ground arith)
        | inr (e, refused) ↦ inl (ground arith)
      ]

  remove-final :
      (user : AuthUser) (id : ℕ) (s : Db)
      → (final (Promotion.remove_code user id s) ≡ s)
        ⊎ ((p : PromotionCode) × (rows (final (Promotion.remove_code user id s)).promotion_codes
              ≡ select (λ (r : PromotionCode). not (r.id == p.id)) (rows s.promotion_codes)))
  unfolding Promotion.remove_code
  remove-final user id s = elim (find_one_code-cases user id s) [
    | inl missing ↦ inl (ground arith)
    | inr (p, found, opened) ↦
        let removed : final (Promotion.remove_code user id s)
            ≡ record s { promotion_codes = delete (λ r. r.id == p.id) s.promotion_codes } =
          ground arith in
        inr (p, rw removed (P.rows-delete _ _))
  ]

  update-HasUniqueCodes :
      (user : AuthUser) (id : ℕ) (dto : Promotion.UpdatePromotionCodeDto) (s : Db)
      → HasText dto
      → HasDistinctCodes s
      → HasUniqueCodes s
      → HasUniqueCodes (final (Promotion.update_code user id dto s))
  unfolding Promotion.updated_code
  update-HasUniqueCodes user id dto s named distinct unique =
      elim (update-final user id dto s named) [
        | inl still ↦ subst HasUniqueCodes (sym still) unique
        | inr (p, found, written, text) ↦
            let by_id =
              find_by_key (λ (r : PromotionCode). r.id) _ (rows s.promotion_codes) p distinct
                found in
            rw written (elim text [
              | inl stays ↦
                  Pointwise-Pairwise KeepsCode (λ a b. ¬ (IsSameCode a b))
                    (λ a b c d k l. KeepsCode-IsSameCode a b c d k l)
                    (modify-Pointwise (λ (a : PromotionCode). a.id) KeepsCode (λ a. (refl, refl))
                      p.id (Promotion.updated_code dto) (rows s.promotion_codes) p distinct by_id
                      (refl, sym stays))
                    unique
              | inr free ↦
                  modify-Pairwise_found (λ (a : PromotionCode). a.id) (Promotion.updated_code dto)
                    (λ a b. ¬ (IsSameCode a b)) p.id (rows s.promotion_codes) p
                    (λ a b apart (e, f). apart (sym e, sym f)) distinct by_id
                    (All-map
                      (λ r differs (e, f).
                        code_differs r p.tenant_id (or_else dto.code p.code) differs e f)
                      (rows s.promotion_codes)
                      (find-none _ (rows s.promotion_codes)
                        (sym (P.find_first-rows _ s.promotion_codes) ∙ free)))
                    unique
            ])
      ]

  -- Whatever a user does to codes, created, updated, removed or applied, no organisation comes to have
  -- two codes with the same text, if none had. The ids are distinct, and an update that gives a text
  -- gives one that is not empty.
  pub edit-HasUniqueCodes :
      (user : AuthUser) (e : Edit) (s : Db)
      → IsNamed e
      → HasDistinctCodes s
      → HasUniqueCodes s
      → HasUniqueCodes (edit user e s)
  unfolding edit
  edit-HasUniqueCodes user (creating call dto) s named distinct unique =
      create_code-HasUniqueCodes call user dto s unique
  edit-HasUniqueCodes user (updating id dto) s named distinct unique =
      update-HasUniqueCodes user id dto s named distinct unique
  edit-HasUniqueCodes user (removing id) s named distinct unique = elim (remove-final user id s) [
    | inl still ↦ subst HasUniqueCodes (sym still) unique
    | inr (p, kept) ↦
        rw kept (Pairwise-select (λ a b. ¬ (IsSameCode a b)) _ (rows s.promotion_codes) unique)
  ]
  edit-HasUniqueCodes user (applying call code amount) s named distinct unique =
      elim (apply-final call user code amount s) [
        | inl still ↦ subst HasUniqueCodes (sym still) unique
        | inr (p, consumed) ↦
            subst HasUniqueCodes (sym consumed) (consume-HasUniqueCodes p s unique)
      ]
