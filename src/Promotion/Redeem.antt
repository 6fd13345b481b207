-- ===== src/Promotion/Redeem.antt =====
-- backend/src/promotion-code/promotion-code.service.ts: redeeming a code. `apply` reads the code and
-- then consumes a use in one statement; other requests may run in between.
use pfe.Base.{
  ℕ, ◌-◌, ◌≤◌, ◌≡◌, ◌≢◌, inl, inr, refl, sym, ◌∙◌, Bool, true, Option, none, some, List, [], ◌∷◌,
  String, arith, if◌then◌else◌, find, modify, All, All-map, All-modify, Pairwise,
  Pointwise-Pairwise, modify-Pointwise_all, subst, str_eq, ◌&&◌, Option-cases, Bool-cases, pos,
  ◌==◌,
}
use pfe.Prisma.{Prisma}
use pfe.Service.{ok, throw, Result-cases, Call, final}
use pfe.Roles.{AuthUser}
use pfe.Schema.{Db, PromotionCode}
use pfe.Promotion

-- A code is used at most as often as it allows.
abbrev pub IsWithin : PromotionCode → Type 0
IsWithin p = (m : ℕ) → p.max_uses ≡ some m → p.used_count ≤ m

-- The stored codes allow what a code allowed when it was read.
abbrev pub Agrees : List PromotionCode → PromotionCode → Type 0
Agrees rows read = All (λ (p : PromotionCode). p.id ≡ read.id → p.max_uses ≡ read.max_uses) rows

used_once-IsWithin :
    (read p : PromotionCode)
    → (p.id ≡ read.id → p.max_uses ≡ read.max_uses)
    → IsWithin p
    → Promotion.is_consumable read p ≡ true
    → IsWithin (Promotion.used_once p)
unfolding Promotion.is_consumable Promotion.used_once Promotion.is_below
used_once-IsWithin read p agrees within hit m allows =
    let same : p.max_uses ≡ read.max_uses = agrees (ground arith) in ground arith

modify-IsWithin :
    (read : PromotionCode) (xs : List PromotionCode)
    → Agrees xs read
    → All IsWithin xs
    → All IsWithin (modify (Promotion.is_consumable read) Promotion.used_once xs)
modify-IsWithin read [] agrees within = tt
modify-IsWithin read (x ∷ xs) (agree, agrees) (w, within) = (
  elim (Bool-cases (Promotion.is_consumable read x)) [
    | inl hit ↦ rw hit (used_once-IsWithin read x agree w hit)
    | inr miss ↦ rw miss w
  ],
  modify-IsWithin read xs agrees within,
)

-- A statement for one code keeps what another request has read true.
modify-Agrees :
    (read other : PromotionCode) (xs : List PromotionCode)
    → Agrees xs other
    → Agrees (modify (Promotion.is_consumable read) Promotion.used_once xs) other
unfolding Promotion.used_once
modify-Agrees read other xs agrees =
    All-modify (λ (p : PromotionCode). p.id ≡ other.id → p.max_uses ≡ other.max_uses)
      (Promotion.is_consumable read) Promotion.used_once (λ p hit q. q) xs agrees

-- Distinct ids: a code that a search finds is the only one with its id.
found-Agrees :
    (q : PromotionCode → Bool) (xs : List PromotionCode) (read : PromotionCode)
    → Pairwise (λ (a b : PromotionCode). a.id ≢ b.id) xs
    → find q xs ≡ some read
    → Agrees xs read
found-Agrees q [] read distinct found = tt
found-Agrees q (x ∷ xs) read (apart, distinct) found = elim (Bool-cases (q x)) [
  | inl hit ↦
      let first : x ≡ read = ground arith in
      (λ same. rw first refl, All-map (λ p ne same. absurd (ne (rw first (sym same)))) xs apart)
  | inr miss ↦
      let later : find q xs ≡ some read = ground arith in
      let stored : (x.id ≢ read.id) = find-apart q xs read x.id apart later in
      (λ same. absurd (stored same), found-Agrees q xs read distinct later)
]
  where
    find-apart :
        (r : PromotionCode → Bool) (ys : List PromotionCode) (b : PromotionCode) (i : ℕ)
        → All (λ (p : PromotionCode). i ≢ p.id) ys
        → find r ys ≡ some b
        → i ≢ b.id
    find-apart r [] b i h e = ground arith
    find-apart r (y ∷ ys) b i (ne, h) e = ground (arith, find-apart r ys b i h)

-- A step of some request: it reads a code, or it consumes a use of the k-th code that was read.
pub data Step : Type 0 where
  reading : Call → AuthUser → String → Step
  consuming : ℕ → Step

abbrev pub pick : ℕ → List PromotionCode → Option PromotionCode
pick k [] = none
pick k (x ∷ xs) = if k == 0 then some x else pick (k - 1) xs

pick-All :
    (F : PromotionCode → Type 0) (k : ℕ) (xs : List PromotionCode) (p : PromotionCode)
    → All F xs
    → pick k xs ≡ some p
    → F p
pick-All F k [] p h e = ground arith
pick-All F k (x ∷ xs) p (f, h) e = elim (Bool-cases (k == 0)) [
  | inl here ↦ let first : x ≡ p = ground arith in subst F first f
  | inr there ↦ pick-All F (k - 1) xs p h (ground arith)
]

module _ ⦃P : Prisma⦄ where
  open P use {rows}

  -- The database, and the codes that requests have read so far.
  pub record Redemptions : Type 0 where
    pub db : Db
    pub waiting : List PromotionCode

  abbrev pub step : Step → Redemptions → Redemptions
  step (reading call user code) r = elim ((Promotion.validate call user code r.db).0) [
    | throw e ↦ r
    | ok promo ↦ record r { waiting = promo ∷ r.waiting }
  ]
  step (consuming k) r = elim (pick k r.waiting) [
    | none ↦ r
    | some promo ↦ record r { db = final (Promotion.consume promo r.db) }
  ]

  abbrev pub run : List Step → Redemptions → Redemptions
  run [] r = r
  run (x ∷ xs) r = run xs (step x r)

  -- The ids of the codes are distinct.
  abbrev pub HasDistinctCodes : Db → Type 0
  HasDistinctCodes s = Pairwise (λ (a b : PromotionCode). a.id ≢ b.id) (rows s.promotion_codes)

  abbrev pub IsSafe : Redemptions → Type 0
  IsSafe r =
      HasDistinctCodes r.db
      × All IsWithin (rows r.db.promotion_codes)
      × All (Agrees (rows r.db.promotion_codes)) r.waiting

  pub validate-found :
      (call : Call) (user : AuthUser) (code : String) (s : Db) (p : PromotionCode)
      → (Promotion.validate call user code s).0 ≡ ok p
      → find
          (λ (q : PromotionCode). str_eq q.code code && Promotion.scope_for user q)
          (rows s.promotion_codes)
        ≡ some p
  unfolding Promotion.validate Promotion.find_by_code
  validate-found call user code s p read = sym (P.find_first-rows _ _) ∙ ground arith

  pub consume-rows :
      (read : PromotionCode) (s : Db)
      → rows (final (Promotion.consume read s)).promotion_codes
        ≡ modify (Promotion.is_consumable read) Promotion.used_once (rows s.promotion_codes)
  unfolding Promotion.consume
  consume-rows read s = P.rows-update _ _ _

  consume-IsSafe :
      (read : PromotionCode) (r : Redemptions)
      → IsSafe r
      → Agrees (rows r.db.promotion_codes) read
      → IsSafe (record r { db = final (Promotion.consume read r.db) })
  unfolding Promotion.used_once
  consume-IsSafe read r (distinct, within, agrees) agree = rw consume-rows (
    Pointwise-Pairwise (λ a b. a.id ≡ b.id) (λ (a b : PromotionCode). a.id ≢ b.id)
        (λ a b c d e f ne g. ne (e ∙ g ∙ sym f))
        (modify-Pointwise_all (λ (a : PromotionCode). a.id) (λ a b. a.id ≡ b.id) (λ a. refl)
          (Promotion.is_consumable read) Promotion.used_once (λ a. refl)
          (rows r.db.promotion_codes))
        distinct,
    modify-IsWithin read (rows r.db.promotion_codes) agree within,
    All-map (λ other. modify-Agrees read other (rows r.db.promotion_codes)) r.waiting agrees,
  )

  step-IsSafe : (x : Step) (r : Redemptions) → IsSafe r → IsSafe (step x r)
  step-IsSafe (reading call user code) r safe =
      elim (Result-cases (Promotion.validate call user code r.db).0) [
        | inl (p, read) ↦
            let agree =
              found-Agrees _ (rows r.db.promotion_codes) p safe.0
                (validate-found call user code r.db p read) in
            let moved : step (reading call user code) r ≡ record r { waiting = p ∷ r.waiting } =
              ground arith in
            subst IsSafe (sym moved) (safe.0, safe.1, (agree, safe.2))
        | inr (e, refused) ↦
            let still : step (reading call user code) r ≡ r = ground arith in
            subst IsSafe (sym still) safe
      ]
  step-IsSafe (consuming k) r safe = elim (Option-cases (pick k r.waiting)) [
    | inl missing ↦
        let still : step (consuming k) r ≡ r = ground arith in subst IsSafe (sym still) safe
    | inr (p, picked) ↦
        let moved : step (consuming k) r ≡ record r { db = final (Promotion.consume p r.db) } =
          ground arith in
        subst IsSafe (sym moved) (
          consume-IsSafe p r safe
            (pick-All (Agrees (rows r.db.promotion_codes)) k r.waiting p safe.2 picked))
  ]

  -- No code is used more often than it allows, however the requests that redeem codes are
  -- interleaved: ids being distinct, and no code being over its limit at first.
  pub run-IsSafe : (xs : List Step) (r : Redemptions) → IsSafe r → IsSafe (run xs r)
  run-IsSafe [] r safe = safe
  run-IsSafe (x ∷ xs) r safe = run-IsSafe xs (step x r) (step-IsSafe x r safe)

  pub validate-final :
      (call : Call) (user : AuthUser) (code : String) (s : Db)
      → final (Promotion.validate call user code s) ≡ s
  unfolding Promotion.validate Promotion.find_by_code
  validate-final call user code s = ground arith

  -- One request alone is the two steps in a row: it leaves the database that they leave.
  pub apply-run :
      (call : Call) (user : AuthUser) (code : String) (amount : ℕ) (s : Db)
      → final (Promotion.apply call user code (pos amount) s)
        ≡ (run (reading call user code ∷ consuming 0 ∷ []) (record { db = s; waiting = [] })).db
  unfolding Promotion.apply
  apply-run call user code amount s =
      let same = validate-final call user code s in
      elim (Result-cases (Promotion.validate call user code s).0) [
        | inl (p, read) ↦ ground arith
        | inr (e, refused) ↦ ground arith
      ]
