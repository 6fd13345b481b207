-- ===== src/Tables.antt =====
-- Lookups after a change of a table, for rows with a numeric key.
use pfe.Base.{
  ℕ, ◌≡◌, ◌≢◌, refl, sym, ap, ◌∙◌, Bool, true, none, some, List, [], ◌∷◌, arith, find, All-map,
  modify, find-some, find-modify, All, ◌==◌, ==_refl, find-append_none, not, select-All,
  select-append, length-append, find_of_All, select_ext, length, ◌+◌, if◌then◌else◌,
}
use pfe.Prisma.{Prisma}

-- Where no row has the key, the rows with another key are found as before.
find-modify_ne {ℓ} :
    {R : Type ℓ} (key : R → ℕ) (i j : ℕ) (f : R → R) (xs : List R)
    → ((r : R) → key (f r) ≡ key r)
    → i ≢ j
    → find (λ r. key r == j) (modify (λ r. key r == i) f xs) ≡ find (λ r. key r == j) xs
find-modify_ne key i j f [] keep ne = refl
find-modify_ne key i j f (x ∷ xs) keep ne =
    ground (arith, keep x, find-modify_ne key i j f xs keep ne)

module _ ⦃P : Prisma⦄ {R : Type 0} where
  open P use {Table, rows, find_first, update, create, find_first-rows, rows-update, rows-create}

  -- The row with a key, after a change of the rows with that key which keeps keys.
  pub find_first-update :
      (key : R → ℕ) (id : ℕ) (f : R → R) (t : Table R) (b : R)
      → ((r : R) → key (f r) ≡ key r)
      → find_first (λ r. key r == id) t ≡ some b
      → find_first (λ r. key r == id) (update (λ r. key r == id) f t) ≡ some (f b)
  find_first-update key id f t b keep found =
      let stored : find (λ r. key r == id) (rows t) ≡ some b = sym (find_first-rows _ _) ∙ found in
      let hit : (key b == id) ≡ true = find-some (λ r. key r == id) (rows t) b stored in
      rw (find_first-rows, rows-update)
        (find-modify (λ r. key r == id) (λ r. key r == id) f (λ r. ap (λ (i : ℕ). i == id) (keep r))
            (rows t) b stored
          ∙ rw hit)

  -- The row with another key.
  pub find_first-update_ne :
      (key : R → ℕ) (i j : ℕ) (f : R → R) (t : Table R)
      → ((r : R) → key (f r) ≡ key r)
      → i ≢ j
      → find_first (λ r. key r == j) (update (λ r. key r == i) f t) ≡ find_first (λ r. key r == j) t
  find_first-update_ne key i j f t keep ne =
      find_first-rows _ _
      ∙ rw rows-update (find-modify_ne key i j f (rows t) keep ne)
      ∙ sym (find_first-rows _ t)

  -- The row that was just added, if its key is new.
  pub find_first-create :
      (key : R → ℕ) (b : R) (t : Table R)
      → All (λ r. key r ≢ key b) (rows t)
      → find_first (λ r. key r == key b) (create b t) ≡ some b
  find_first-create key b t fresh =
      rw (find_first-rows, rows-create)
        (find-append_none (λ r. key r == key b) (rows t) b
          (All-map (λ r ne. ground arith) (rows t) fresh) (==_refl (key b)))

module _ ⦃P : Prisma⦄ {R : Type 0} where
  open P use {Table, rows, find_first, find_many, count, create, delete}

  -- Every row that a query returns passes its test.
  pub find_many-All : (p : R → Bool) (t : Table R) → All (λ r. p r ≡ true) (find_many p t)
  find_many-All p t = rw P.find_many-rows (select-All p (rows t))

  pub count-create :
      (p : R → Bool) (r : R) (t : Table R)
      → count p (create r t) ≡ count p t + (if p r then 1 else 0)
  count-create p r t =
      rw
        (P.count-rows p (create r t), P.count-rows p t, P.rows-create, select-append, length-append)
        (ground arith)

  -- A row is not found after it was deleted.
  pub find_first-delete : (p : R → Bool) (t : Table R) → find_first p (delete p t) ≡ none
  find_first-delete p t =
      rw (P.find_first-rows, P.rows-delete)
        (find_of_All p _ (All-map (λ r e. ground arith) _ (select-All (λ r. not (p r)) (rows t))))

  -- Tests that agree on every row select the same rows, and as many.
  pub find_many_ext :
      (p q : R → Bool) → ((r : R) → p r ≡ q r) → (t : Table R) → find_many p t ≡ find_many q t
  find_many_ext p q same t =
      rw (P.find_many-rows p t, P.find_many-rows q t) (select_ext p q same (rows t))

  pub count-find_many : (p : R → Bool) (t : Table R) → count p t ≡ length (find_many p t)
  count-find_many p t = rw (P.count-rows p t, P.find_many-rows p t) refl
