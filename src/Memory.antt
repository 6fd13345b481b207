-- ===== src/Memory.antt =====
-- Tables kept as lists: the laws of `Prisma` can be met, and the models run on it.
use pfe.Base.{refl, not, List, [], ◌∷◌, ◌++◌, length, find, select, modify, first_by}
use pfe.Prisma.{Prisma}

instance abbrev pub memory : Prisma
memory = record {
  Table = List;
  rows = λ t. t;
  find_first = λ p t. find p t;
  find_first_asc = λ key p t. first_by key (select p t);
  find_many = λ p t. select p t;
  count = λ p t. length (select p t);
  create = λ r t. t ++ (r ∷ []);
  update = λ p f t. modify p f t;
  delete = λ p t. select (λ r. not (p r)) t;
  find_first-rows = λ p t. refl;
  find_first_asc-rows = λ key p t. refl;
  find_many-rows = λ p t. refl;
  count-rows = λ p t. refl;
  rows-create = λ r t. refl;
  rows-update = λ p f t. refl;
  rows-delete = λ p t. refl;
}
