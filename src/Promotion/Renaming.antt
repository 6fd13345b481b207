-- ===== src/Promotion/Renaming.antt =====
-- backend/src/promotion-code/promotion-code.service.ts: `update`, and the text that it writes.
use pfe.Base.{
  ℕ, ◌≡◌, ◌⊎◌, inl, inr, refl, sym, ◌∙◌, ◌&&◌, Option, none, some, String, str_eq, eq_iff, arith,
  find, modify, Option-cases, Bool-cases, ◌==◌, nonempty, or_else,
}
use pfe.Prisma.{Prisma}
use pfe.Service.{ok, throw, not_found, conflict, final}
use pfe.Roles.{AuthUser}
use pfe.Schema.{Db, PromotionCode}
use pfe.Promotion

-- An update that gives a text gives one that is not empty.
abbrev pub HasText : Promotion.UpdatePromotionCodeDto → Type 0
HasText dto = (text : String) → dto.code ≡ some text → nonempty dto.code ≡ some text

none-some : {A : Type 0} (o : Option A) (a : A) → o ≡ none → o ≡ some a → ⊥
none-some o a e f = cc

some-injective : {A : Type 0} {a b : A} → some a ≡ some b → a ≡ b
some-injective e = cc

module _ ⦃P : Prisma⦄ where
  open P use {rows, update}

  pub find_one_code-cases :
      (user : AuthUser) (id : ℕ) (s : Db)
      → (Promotion.find_one_code user id s ≡ (throw not_found, s))
        ⊎ ((p : PromotionCode) × (find
                (λ (r : PromotionCode). (r.id == id) && Promotion.scope_for user r)
                (rows s.promotion_codes)
              ≡ some p)
            × (Promotion.find_one_code user id s ≡ (ok p, s)))
  unfolding Promotion.find_one_code
  find_one_code-cases user id s =
      elim (Option-cases (
        P.find_first (λ (r : PromotionCode). (r.id == id) && Promotion.scope_for user r)
          s.promotion_codes)) [
            | inl missing ↦ inl (ground arith)
            | inr (p, found) ↦ inr (p, sym (P.find_first-rows _ _) ∙ found, ground arith)
          ]

  -- The check of a new text throws, or there is no text to check, or the text stays or is free.
  check_new_code-cases :
      (current : PromotionCode) (code : Option String) (s : Db)
      → (Promotion.check_new_code current code s ≡ (throw conflict, s))
        ⊎ ((Promotion.check_new_code current code s ≡ (ok tt, s))
            × ((nonempty code ≡ none)
                ⊎ ((text : String) × (nonempty code ≡ some text)
                    × ((text ≡ current.code)
                        ⊎ (Promotion.find_code current.tenant_id text s ≡ none)))))
  unfolding Promotion.check_new_code
  check_new_code-cases current code s = elim (Option-cases (nonempty code)) [
    | inl none_given ↦ inr (ground arith, inl none_given)
    | inr (text, given) ↦ elim (Option-cases (Promotion.find_code current.tenant_id text s)) [
      | inl free ↦ inr (ground arith, inr (text, given, inr free))
      | inr (p, taken) ↦ elim (Bool-cases (str_eq text current.code)) [
        | inl same ↦ inr (ground arith, inr (text, given, inl ((eq_iff text current.code).0 same)))
        | inr other ↦ inl (ground arith)
      ]
    ]
  ]

  -- The text that an update writes stays or was free, where the update names one or none.
  updated-text :
      (dto : Promotion.UpdatePromotionCodeDto) (current : PromotionCode) (s : Db)
      → HasText dto
      → (nonempty dto.code ≡ none)
        ⊎ ((text : String) × (nonempty dto.code ≡ some text)
            × ((text ≡ current.code) ⊎ (Promotion.find_code current.tenant_id text s ≡ none)))
      → (or_else dto.code current.code ≡ current.code)
        ⊎ (Promotion.find_code current.tenant_id (or_else dto.code current.code) s ≡ none)
  updated-text dto current s named checked = elim (Option-cases dto.code) [
    | inl none_given ↦ inl (rw none_given refl)
    | inr (text, given) ↦ elim checked [
      | inl empty ↦ absurd (none-some (nonempty dto.code) text empty (named text given))
      | inr (t, some_given, fine) ↦
          let same : t ≡ text = some-injective (sym some_given ∙ named text given) in
          elim fine [
            | inl stays ↦ inl (rw given (sym same ∙ stays))
            | inr free ↦ inr (rw given (rw same at free))
          ]
    ]
  ]

  -- An update writes nothing, or the row of a code whose text stays or was free.
  pub update-final :
      (user : AuthUser) (id : ℕ) (dto : Promotion.UpdatePromotionCodeDto) (s : Db)
      → HasText dto
      → (final (Promotion.update_code user id dto s) ≡ s)
        ⊎ ((current : PromotionCode) × (find
                (λ (p : PromotionCode). (p.id == id) && Promotion.scope_for user p)
                (rows s.promotion_codes)
              ≡ some current)
            × (rows (final (Promotion.update_code user id dto s)).promotion_codes
                ≡ modify
                    (λ (p : PromotionCode). p.id == current.id)
                    (Promotion.updated_code dto)
                    (rows s.promotion_codes))
            × ((or_else dto.code current.code ≡ current.code)
                ⊎ (Promotion.find_code current.tenant_id (or_else dto.code current.code) s ≡ none)))
  unfolding Promotion.update_code
  update-final user id dto s named = elim (find_one_code-cases user id s) [
    | inl missing ↦ inl (ground arith)
    | inr (p, found, opened) ↦ elim (check_new_code-cases p dto.code s) [
      | inl clash ↦ inl (ground arith)
      | inr (passed, checked) ↦
          elim (Bool-cases (
            Promotion.is_sane (or_else dto.discount_type p.discount_type)
              (or_else dto.discount p.discount))) [
                | inl sane ↦
                    let updated : final (Promotion.update_code user id dto s) ≡ record s {
                      promotion_codes =
                          update (λ r. r.id == p.id) (Promotion.updated_code dto) s.promotion_codes;
                    } =
                      ground arith in
                    inr (
                      p,
                      found,
                      rw updated (P.rows-update _ _ _),
                      updated-text dto p s named checked,
                    )
                | inr insane ↦ inl (ground arith)
              ]
    ]
  ]
