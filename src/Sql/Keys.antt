-- ===== src/Sql/Keys.antt =====
-- A primary key: no two rows of a table have one key.
use director_orson_callan_kr.Base.{
  Bytes, ◌≡◌, refl, Bool, false, none, some, [], ◌∷◌, arith, str_eq, str_eq_iff, Bool-cases, inl,
  inr,
}
use director_orson_callan_kr.Sql.Table.{
  Table, find, upsert, update, remove, update_where, remove_where, find-upsert, find-update,
  find-remove, find-update_where,
}

module _ {ℓ} {V : Type ℓ} where
  abbrev pub IsKeyed : Table V → Type ℓ
  IsKeyed [] = Unit
  IsKeyed ((k, v) ∷ t) = (find k t ≡ none) × IsKeyed t

  pub find-remove_where :
      (j : Bytes) (p : V → Bool) (t : Table V) (v : V)
      → find j t ≡ some v
      → p v ≡ false
      → find j (remove_where p t) ≡ some v
  unfolding find remove_where
  find-remove_where j p [] v h k = h
  find-remove_where j p ((i, w) ∷ t) v h k = ground (arith, find-remove_where j p t v)

  pub find-none-remove_where :
      (j : Bytes) (p : V → Bool) (t : Table V) → find j t ≡ none → find j (remove_where p t) ≡ none
  unfolding find remove_where
  find-none-remove_where j p [] h = h
  find-none-remove_where j p ((i, w) ∷ t) h = ground (arith, find-none-remove_where j p t)

  pub upsert-IsKeyed :
      (k : Bytes) (v : V) (merge : V → V) (t : Table V) → IsKeyed t → IsKeyed (upsert k v merge t)
  unfolding upsert find
  upsert-IsKeyed k v merge [] h = (refl, tt)
  upsert-IsKeyed k v merge ((j, w) ∷ t) h = elim (Bool-cases (str_eq j k)) [
    | inl e ↦ rw e h
    | inr e ↦ rw e (
      ground (arith, find-upsert k j v merge t, str_eq_iff j k, str_eq_iff k j, h.0),
      upsert-IsKeyed k v merge t h.1,
    )
  ]

  pub update-IsKeyed : (k : Bytes) (f : V → V) (t : Table V) → IsKeyed t → IsKeyed (update k f t)
  unfolding update find
  update-IsKeyed k f [] h = tt
  update-IsKeyed k f ((j, w) ∷ t) h =
      (ground (arith, find-update k j f t, h.0), update-IsKeyed k f t h.1)

  pub remove-IsKeyed : (k : Bytes) (t : Table V) → IsKeyed t → IsKeyed (remove k t)
  unfolding remove find
  remove-IsKeyed k [] h = tt
  remove-IsKeyed k ((j, w) ∷ t) h = elim (Bool-cases (str_eq j k)) [
    | inl e ↦ rw e (remove-IsKeyed k t h.1)
    | inr e ↦ rw e (ground (arith, find-remove k j t, h.0), remove-IsKeyed k t h.1)
  ]

  pub update_where-IsKeyed :
      (p : V → Bool) (f : V → V) (t : Table V) → IsKeyed t → IsKeyed (update_where p f t)
  unfolding update_where find
  update_where-IsKeyed p f [] h = tt
  update_where-IsKeyed p f ((j, w) ∷ t) h =
      (ground (arith, find-update_where j p f t, h.0), update_where-IsKeyed p f t h.1)
