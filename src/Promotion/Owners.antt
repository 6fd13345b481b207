-- ===== src/Promotion/Owners.antt =====
-- backend/src/promotion-code/promotion-code.service.ts: an organisation and the codes of others.
use pfe.Base.{
  ℕ, ◌<◌, ◌≡◌, ◌≢◌, ◌⊎◌, inl, inr, sym, ◌∙◌, true, false, ◌&&◌, none, some, subst, String, str_eq,
  eq_iff, arith, find-some, find-none, find_of_All, All, All-map, Pairwise, Pairwise-append_one,
  Option-cases, ℤ, pos, negsuc, ◌==◌,
}
use pfe.Prisma.{Prisma}
use pfe.Service.{ok, throw, not_found, Result-cases, Call, final}
use pfe.Roles.{AuthUser, super_admin}
use pfe.Schema.{Db, PromotionCode}
use pfe.Promotion
use pfe.Promotion.Redeem.{validate-found}

-- Two codes of one organisation have the same text.
abbrev pub IsSameCode : PromotionCode → PromotionCode → Type 0
IsSameCode a b = (a.tenant_id ≡ b.tenant_id) × (a.code ≡ b.code)

module _ ⦃P : Prisma⦄ where
  open P use {rows, create}

  -- No organisation has two codes with the same text.
  abbrev pub HasUniqueCodes : Db → Type 0
  HasUniqueCodes s = Pairwise (λ a b. ¬ (IsSameCode a b)) (rows s.promotion_codes)

  pub code_differs :
      (p : PromotionCode) (tenant_id : ℕ) (code : String)
      → ((p.tenant_id == tenant_id) && str_eq p.code code) ≡ false
      → p.tenant_id ≡ tenant_id
      → p.code ≡ code
      → ⊥
  code_differs p tenant_id code differs same text =
      let equal : str_eq p.code code ≡ true = (eq_iff p.code code).1 text in ground arith

  -- `create` adds the new code or changes nothing.
  create_code-final :
      (call : Call) (user : AuthUser) (dto : Promotion.CreatePromotionCodeDto) (s : Db)
      → Promotion.find_code user.tenant_id dto.code s ≡ none
      → (final (Promotion.create_code call user dto s) ≡ s)
        ⊎ (final (Promotion.create_code call user dto s) ≡ record s {
          promotion_codes = create (Promotion.new_code call user.tenant_id dto) s.promotion_codes;
        })
  unfolding Promotion.create_code
  create_code-final call user dto s fresh = ground arith

  -- Creating a code keeps the texts of an organisation's codes distinct, however it ends.
  pub create_code-HasUniqueCodes :
      (call : Call) (user : AuthUser) (dto : Promotion.CreatePromotionCodeDto) (s : Db)
      → HasUniqueCodes s
      → HasUniqueCodes (final (Promotion.create_code call user dto s))
  unfolding Promotion.create_code Promotion.new_code
  create_code-HasUniqueCodes call user dto s unique =
      elim (Option-cases (Promotion.find_code user.tenant_id dto.code s)) [
        | inl none_yet ↦
            let fresh =
              find-none _ (rows s.promotion_codes)
                (sym (P.find_first-rows _ s.promotion_codes) ∙ none_yet) in
            let added =
              Pairwise-append_one (λ a b. ¬ (IsSameCode a b)) (rows s.promotion_codes)
                (Promotion.new_code call user.tenant_id dto) unique
                (All-map
                  (λ p differs same. code_differs p user.tenant_id dto.code differs same.0 same.1)
                  (rows s.promotion_codes) fresh) in
            elim (create_code-final call user dto s none_yet) [
              | inl still ↦ subst HasUniqueCodes (sym still) unique
              | inr grown ↦ subst HasUniqueCodes (sym grown) (rw P.rows-create added)
            ]
        | inr (p, there) ↦
            let still : final (Promotion.create_code call user dto s) ≡ s = ground arith in
            subst HasUniqueCodes (sym still) unique
      ]

  find_one_code_of_other :
      (user : AuthUser) (id : ℕ) (s : Db)
      → user.role ≢ super_admin
      → All
          (λ (p : PromotionCode). p.id ≡ id → p.tenant_id ≢ user.tenant_id)
          (rows s.promotion_codes)
      → Promotion.find_one_code user id s ≡ (throw not_found, s)
  unfolding Promotion.find_one_code Promotion.scope_for
  find_one_code_of_other user id s owner others =
      let hidden =
        find_of_All (λ (p : PromotionCode). p.id == id && Promotion.scope_for user p)
          (rows s.promotion_codes)
          (All-map (λ p other. ground arith) (rows s.promotion_codes) others) in
      let nothing =
        P.find_first-rows (λ (p : PromotionCode). p.id == id && Promotion.scope_for user p)
          s.promotion_codes
        ∙ hidden in
      ground arith

  -- A code of another organisation reads as missing: neither an update nor a removal by its id
  -- writes anything, and both throw the error of an unknown id. Only the platform's owner is exempt.
  pub code_of_other :
      (user : AuthUser) (id : ℕ) (dto : Promotion.UpdatePromotionCodeDto) (s : Db)
      → user.role ≢ super_admin
      → All
          (λ (p : PromotionCode). p.id ≡ id → p.tenant_id ≢ user.tenant_id)
          (rows s.promotion_codes)
      → (Promotion.update_code user id dto s ≡ (throw not_found, s))
        × (Promotion.remove_code user id s ≡ (throw not_found, s))
  unfolding Promotion.update_code Promotion.remove_code
  code_of_other user id dto s owner others =
      let hidden = find_one_code_of_other user id s owner others in (ground arith, ground arith)

  validate-own :
      (call : Call) (user : AuthUser) (code : String) (s : Db) (p : PromotionCode)
      → user.role ≢ super_admin
      → (Promotion.validate call user code s).0 ≡ ok p
      → (p.tenant_id ≡ user.tenant_id)
        × (p.code ≡ code)
        × (Promotion.is_running call.now p ≡ true)
        × ((m : ℕ) → p.max_uses ≡ some m → p.used_count < m)
  unfolding Promotion.validate Promotion.scope_for Promotion.is_below Promotion.find_by_code
  validate-own call user code s p owner read =
      let passes =
        find-some _ (rows s.promotion_codes) p (validate-found call user code s p read) in
      (ground arith, (eq_iff p.code code).0 (ground arith), ground arith, λ m limit. ground arith)

  -- A code that `apply` accepts from anyone but the platform owner is one of the user's organisation,
  -- with the text asked for; it is active, within its dates and below its limit when it is read.
  pub apply-own :
      (call : Call) (user : AuthUser) (code : String) (amount : ℤ) (s s' : Db)
      (r : Promotion.Applied)
      → user.role ≢ super_admin
      → Promotion.apply call user code amount s ≡ (ok r, s')
      → (p : PromotionCode) × ((Promotion.validate call user code s).0 ≡ ok p)
        × (p.tenant_id ≡ user.tenant_id)
        × (p.code ≡ code)
        × (Promotion.is_running call.now p ≡ true)
        × ((m : ℕ) → p.max_uses ≡ some m → p.used_count < m)
  unfolding Promotion.apply
  apply-own call user code (negsuc n) s s' r owner done = ground arith
  apply-own call user code (pos amount) s s' r owner done =
      elim (Result-cases (Promotion.validate call user code s).0) [
        | inl (p, read) ↦
            let (own, text, running, below) = validate-own call user code s p owner read in
            (p, read, own, text, running, below)
        | inr (e, refused) ↦ ground arith
      ]
