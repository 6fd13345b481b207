-- ===== src/Prisma.antt =====
-- The Prisma client, which the services call and the repository does not implement. It is a
-- parameter: a type of tables, the calls that the services make, and what each call returns or
-- writes, stated on the rows that the table holds.
use pfe.Base.{
  ℕ, ◌≡◌, Bool, not, Option, List, [], ◌∷◌, ◌++◌, length, find, select, modify, first_by,
}

-- `p` is the `where` clause of a call. `update` and `delete` stand for the unique and for the
-- `Many` forms; Prisma rejects a unique form that matches no row, and so the services' models
-- look the row up before. `findUnique` and `findFirst` are `find_first`.
pub record Prisma : Type 1 where
  pub Table : Type 0 → Type 0
  pub rows : {R : Type 0} → Table R → List R
  pub find_first : {R : Type 0} → (R → Bool) → Table R → Option R
  pub find_first_asc : {R : Type 0} → (R → ℕ) → (R → Bool) → Table R → Option R
  pub find_many : {R : Type 0} → (R → Bool) → Table R → List R
  pub count : {R : Type 0} → (R → Bool) → Table R → ℕ
  pub create : {R : Type 0} → R → Table R → Table R
  pub update : {R : Type 0} → (R → Bool) → (R → R) → Table R → Table R
  pub delete : {R : Type 0} → (R → Bool) → Table R → Table R
  pub find_first-rows : {R : Type 0} (p : R → Bool) (t : Table R) → find_first p t ≡ find p (rows t)
  pub find_first_asc-rows :
      {R : Type 0} (key : R → ℕ) (p : R → Bool) (t : Table R)
      → find_first_asc key p t ≡ first_by key (select p (rows t))
  pub find_many-rows : {R : Type 0} (p : R → Bool) (t : Table R) → find_many p t ≡ select p (rows t)
  pub count-rows :
      {R : Type 0} (p : R → Bool) (t : Table R) → count p t ≡ length (select p (rows t))
  pub rows-create : {R : Type 0} (r : R) (t : Table R) → rows (create r t) ≡ rows t ++ (r ∷ [])
  pub rows-update :
      {R : Type 0} (p : R → Bool) (f : R → R) (t : Table R)
      → rows (update p f t) ≡ modify p f (rows t)
  pub rows-delete :
      {R : Type 0} (p : R → Bool) (t : Table R)
      → rows (delete p t) ≡ select (λ r. not (p r)) (rows t)
