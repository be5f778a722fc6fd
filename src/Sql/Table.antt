-- ===== src/Sql/Table.antt =====
-- A table with a text primary key, as the list of its rows in the order in which they are scanned.
use director_orson_callan_kr.Base.{
  ℕ, suc, Bytes, ◌≡◌, refl, Bool, Option, none, some, List, [], ◌∷◌, arith, str_eq, str_eq_iff,
  if◌then◌else◌,
}

abbrev pub Table {ℓ} : Type ℓ → Type ℓ
Table V = List (Bytes × V)

module _ {ℓ} {V : Type ℓ} where
  -- SELECT … WHERE key=k
  unfoldable pub find : Bytes → Table V → Option V
  find k [] = none
  find k ((j, v) ∷ t) = if str_eq j k then some v else find k t

  -- INSERT … ON CONFLICT(key) DO UPDATE: a row that is there is merged with the new one.
  unfoldable pub upsert : Bytes → V → (V → V) → Table V → Table V
  upsert k v merge [] = (k, v) ∷ []
  upsert k v merge ((j, w) ∷ t) =
      if str_eq j k then (j, merge w) ∷ t else (j, w) ∷ upsert k v merge t

  -- UPDATE … WHERE key=k
  unfoldable pub update : Bytes → (V → V) → Table V → Table V
  update k f [] = []
  update k f ((j, v) ∷ t) = (j, if str_eq j k then f v else v) ∷ update k f t

  -- DELETE … WHERE key=k
  unfoldable pub remove : Bytes → Table V → Table V
  remove k [] = []
  remove k ((j, v) ∷ t) = let rest = remove k t in if str_eq j k then rest else (j, v) ∷ rest

  -- UPDATE of the rows that pass a test
  unfoldable pub update_where : (V → Bool) → (V → V) → Table V → Table V
  update_where p f [] = []
  update_where p f ((j, v) ∷ t) = (j, if p v then f v else v) ∷ update_where p f t

  -- DELETE of the rows that pass a test
  unfoldable pub remove_where : (V → Bool) → Table V → Table V
  remove_where p [] = []
  remove_where p ((j, v) ∷ t) = let rest = remove_where p t in if p v then rest else (j, v) ∷ rest

  -- SELECT COUNT(*) of the rows that pass a test
  unfoldable pub count_where : (V → Bool) → Table V → ℕ
  count_where p [] = 0
  count_where p ((j, v) ∷ t) = let rest = count_where p t in if p v then suc rest else rest

  pub find-upsert :
      (k j : Bytes) (v : V) (merge : V → V) (t : Table V)
      → find j (upsert k v merge t) ≡ (
          if str_eq k j
          then (elim (find k t) [ none ↦ some v | some w ↦ some (merge w) ])
          else find j t)
  unfolding find upsert
  find-upsert k j v merge [] = refl
  find-upsert k j v merge ((i, w) ∷ t) =
      ground (arith, str_eq_iff i k, str_eq_iff i j, str_eq_iff k j, find-upsert k j v merge t)

  pub find-update :
      (k j : Bytes) (f : V → V) (t : Table V)
      → find j (update k f t)
        ≡ (elim (find j t) [ none ↦ none | some v ↦ some (if str_eq k j then f v else v) ])
  unfolding find update
  find-update k j f [] = refl
  find-update k j f ((i, w) ∷ t) =
      ground (arith, str_eq_iff i k, str_eq_iff i j, str_eq_iff k j, find-update k j f t)

  pub find-remove :
      (k j : Bytes) (t : Table V) → find j (remove k t) ≡ (if str_eq k j then none else find j t)
  unfolding find remove
  find-remove k j [] = ground arith
  find-remove k j ((i, w) ∷ t) =
      ground (arith, str_eq_iff i k, str_eq_iff i j, str_eq_iff k j, find-remove k j t)

  pub find-update_where :
      (j : Bytes) (p : V → Bool) (f : V → V) (t : Table V)
      → find j (update_where p f t)
        ≡ (elim (find j t) [ none ↦ none | some v ↦ some (if p v then f v else v) ])
  unfolding find update_where
  find-update_where j p f [] = refl
  find-update_where j p f ((i, w) ∷ t) = ground (arith, find-update_where j p f t)
