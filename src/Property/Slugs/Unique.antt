-- ===== src/Property/Slugs/Unique.antt =====
-- backend/src/building/building.service.ts and space/space.service.ts: the slug found in a table is
-- free there.
use Prim.Native.Nat.{zero, suc}
use pfe.Base.{
  ℕ, ◌≡◌, refl, sym, ap, ◌∙◌, Bool, false, ◌&&◌, some, String, str_eq, List, [], ◌∷◌, map, arith,
  any, select, length, find, is_some, All,
}
use pfe.Prisma.{Prisma}
use pfe.Property.Slugs.{numbered, free_slug, unique_slug}
use pfe.Property.Slugs.Laws.{free_slug-found}

free_slug_ext :
    (taken taken' : String → Bool)
    → ((s : String) → taken s ≡ taken' s)
    → (base : String) (rounds : ℕ) (slug : String) (i : ℕ)
    → free_slug taken base rounds slug i ≡ free_slug taken' base rounds slug i
unfolding free_slug
free_slug_ext taken taken' same base zero slug i = refl
free_slug_ext taken taken' same base (suc rounds) slug i =
    rw (same slug, free_slug_ext taken taken' same base rounds (numbered base i) (suc i)) refl

module _ {R : Type 0} (slug_of : R → String) (searched : R → Bool) where
  slugs : List R → List String
  slugs rs = map slug_of (select searched rs)

  find-slugs :
      (s : String) (rs : List R)
      → any (λ x. str_eq x s) (slugs rs)
        ≡ is_some (find (λ r. searched r && str_eq (slug_of r) s) rs)
  unfolding slugs
  find-slugs s [] = refl
  find-slugs s (r ∷ rs) = ground (arith, find-slugs s rs)

  length-slugs : (rs : List R) → length (slugs rs) ≡ length (select searched rs)
  unfolding slugs
  length-slugs [] = refl
  length-slugs (r ∷ rs) = ground (arith, length-slugs rs)

  -- No row that was searched has the text.
  free-All :
      (s : String) (rs : List R)
      → any (λ x. str_eq x s) (slugs rs) ≡ false
      → All (λ r. (searched r && str_eq (slug_of r) s) ≡ false) rs
  unfolding slugs
  free-All s [] h = tt
  free-All s (r ∷ rs) h = (ground arith, free-All s rs (ground arith))

  module _ ⦃P : Prisma⦄ where
    open P use {Table, rows}

    -- The search for a slug ends, and no row that was searched has the slug found.
    pub unique_slug-free :
        (base : String) (t : Table R)
        → (slug : String) × (unique_slug slug_of searched base t ≡ some slug)
          × All (λ r. (searched r && str_eq (slug_of r) slug) ≡ false) (rows t)
    unfolding unique_slug
    unique_slug-free base t =
        let (slug, found, free) = free_slug-found (slugs (rows t)) base in
        let rounds : length (slugs (rows t)) ≡ P.count searched t =
          length-slugs (rows t) ∙ sym (P.count-rows searched t) in
        let same =
          free_slug_ext (λ s. any (λ x. str_eq x s) (slugs (rows t)))
            (λ s. is_some (P.find_first (λ r. searched r && str_eq (slug_of r) s) t))
            (λ s. find-slugs s (rows t) ∙ ap is_some (sym (P.find_first-rows _ t))) base
            (suc (P.count searched t)) base 2 in
        (slug, sym same ∙ rw rounds at found, free-All slug (rows t) free)
