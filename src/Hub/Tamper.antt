-- ===== src/Hub/Tamper.antt =====
-- What the hash chain detects, and what it does not.
use mathlib.Core.List.{reverse, reverse-reverse, reverse-cons}
use director_orson_callan_kr.Base.{
  ℕ, Bytes, ◌≡◌, ◌≢◌, refl, sym, ap, ◌∙◌, ◌⊎◌, inl, inr, true, Bool-cases, List, [], ◌∷◌, ◌++◌, map,
  append_assoc, append-nil, arith, length, Lacks, any, str_eq, str_eq_iff, str_eq_refl,
}
use director_orson_callan_kr.Audit.{genesis_hash, chain_hash, chain_input}
use director_orson_callan_kr.Hub.Log.{AuditRow, last_hash, verify_rows}
use director_orson_callan_kr.Hub.Chain.{IsChained, verify_rows-IsChained}

-- What is documented of a hexadecimal SHA-256 digest: 64 digits, none of them a zero byte.
pub record IsHexDigest (digest : Bytes → Bytes) : Type 0 where
  pub len : (s : Bytes) → length (digest s) ≡ 64
  pub no_nul : (s : Bytes) → Lacks 0 (digest s)

-- A text without zero bytes is determined by the input that it begins.
chain_input-injective :
    (a b p q : Bytes)
    → Lacks 0 a
    → Lacks 0 b
    → chain_input a p ≡ chain_input b q
    → (a ≡ b) × (p ≡ q)
chain_input-injective [] [] p q ha hb e = (refl, cc)
chain_input-injective [] (y ∷ b) p q ha hb e = absurd (hb.0 (cc))
chain_input-injective (x ∷ a) [] p q ha hb e = absurd (ha.0 (cc))
chain_input-injective (x ∷ a) (y ∷ b) p q ha hb e =
    let (h, k) = chain_input-injective a b p q ha.1 hb.1 (cc) in (cc, k)

-- The payloads of the rows on top of older ones.
unfoldable pub newest_first : List Bytes → List AuditRow → List Bytes
newest_first ps [] = ps
newest_first ps (row ∷ rows) = newest_first (row.payload ∷ ps) rows

newest_first-reverse :
    (ps : List Bytes) (rows : List AuditRow)
    → newest_first ps rows ≡ reverse (map (λ (row : AuditRow). row.payload) rows) ++ ps
unfolding newest_first
newest_first-reverse ps [] = refl
newest_first-reverse ps (row ∷ rows) =
    newest_first-reverse (row.payload ∷ ps) rows
    ∙ sym
        (append_assoc (reverse (map (λ (row : AuditRow). row.payload) rows)) (row.payload ∷ []) ps)
    ∙ ap (λ l. l ++ ps)
        (sym (reverse-cons row.payload (map (λ (row : AuditRow). row.payload) rows)))

module _ (digest : Bytes → Bytes) where
  -- The hash of the last of the payloads, which are listed from the newest to the oldest.
  unfoldable pub head_hash : List Bytes → Bytes
  head_hash [] = genesis_hash
  head_hash (p ∷ ps) = chain_hash digest (head_hash ps) p

  last_hash-head_hash :
      (rows : List AuditRow) (ps : List Bytes) (prev : Bytes)
      → prev ≡ head_hash ps
      → IsChained digest prev rows
      → last_hash prev rows ≡ head_hash (newest_first ps rows)
  unfolding last_hash head_hash newest_first
  last_hash-head_hash [] ps prev e h = e
  last_hash-head_hash (row ∷ rows) ps prev e h =
      last_hash-head_hash rows (row.payload ∷ ps) row.entry_hash
        (h.1 ∙ ap (λ b. chain_hash digest b row.payload) e) h.2

-- What ChainHash hashes for the payloads, which are listed from the newest to the oldest.
unfoldable pub chain_inputs : (Bytes → Bytes) → List Bytes → List Bytes
unfolding head_hash
chain_inputs digest [] = []
chain_inputs digest (p ∷ ps) = chain_input (head_hash digest ps) p ∷ chain_inputs digest ps

-- Two different texts, one hashed for each list of payloads, with one digest.
abbrev pub IsCollision : (Bytes → Bytes) → List Bytes → List Bytes → Bytes → Bytes → Type 0
IsCollision digest ps qs x y =
    (any (str_eq x) (chain_inputs digest ps) ≡ true)
    × (any (str_eq y) (chain_inputs digest qs) ≡ true)
    × (x ≢ y)
    × (digest x ≡ digest y)

abbrev pub Collides : (Bytes → Bytes) → List Bytes → List Bytes → Type 0
Collides digest ps qs = (x : Bytes) × (y : Bytes) × IsCollision digest ps qs x y

Collides-cons :
    (digest : Bytes → Bytes) (p q : Bytes) (ps qs : List Bytes)
    → Collides digest ps qs
    → Collides digest (p ∷ ps) (q ∷ qs)
unfolding chain_inputs
Collides-cons digest p q ps qs (x, y, c) =
    (x, y, (ground (arith, c.0), ground (arith, c.1), c.2, c.3))

-- Two logs have a collision.
abbrev pub Collision : (Bytes → Bytes) → List AuditRow → List AuditRow → Type 0
Collision digest xs ys = Collides digest (newest_first [] xs) (newest_first [] ys)

payloads_eq :
    (xs ys : List AuditRow)
    → newest_first [] xs ≡ newest_first [] ys
    → map (λ (row : AuditRow). row.payload) xs ≡ map (λ (row : AuditRow). row.payload) ys
payloads_eq xs ys e =
    let px = map (λ (row : AuditRow). row.payload) xs in
    let py = map (λ (row : AuditRow). row.payload) ys in
    let reversed : reverse px ≡ reverse py =
      sym (append-nil (reverse px))
      ∙ sym (newest_first-reverse [] xs)
      ∙ e
      ∙ newest_first-reverse [] ys
      ∙ append-nil (reverse py) in
    sym (reverse-reverse px) ∙ ap reverse reversed ∙ reverse-reverse py

module _ (digest : Bytes → Bytes) (hex : IsHexDigest digest) where
  head_hash-Lacks : (ps : List Bytes) → Lacks 0 (head_hash digest ps)
  unfolding head_hash chain_hash
  head_hash-Lacks [] = omega arith
  head_hash-Lacks (p ∷ ps) = hex.no_nul _

  digest-ne-genesis : (s : Bytes) → digest s ≢ genesis_hash
  digest-ne-genesis s e = absurd (omega (arith, hex.len s, ap (length {A = ℕ}) e))

  head_hash-injective :
      (ps qs : List Bytes)
      → head_hash digest ps ≡ head_hash digest qs
      → (ps ≡ qs) ⊎ Collides digest ps qs
  unfolding head_hash chain_hash chain_inputs
  head_hash-injective [] [] e = inl refl
  head_hash-injective [] (q ∷ qs) e = absurd (digest-ne-genesis _ (sym e))
  head_hash-injective (p ∷ ps) [] e = absurd (digest-ne-genesis _ e)
  head_hash-injective (p ∷ ps) (q ∷ qs) e =
      let x = chain_input (head_hash digest ps) p in
      let y = chain_input (head_hash digest qs) q in
      elim (Bool-cases (str_eq x y)) [
        | inr ne ↦ inr (
          x,
          y,
          (
            rw (str_eq_refl x) refl,
            rw (str_eq_refl y) refl,
            (λ k. cc (ne, (str_eq_iff x y).1 k)),
            e,
          ),
        )
        | inl eq ↦
            (let (heads, payloads) =
                chain_input-injective (head_hash digest ps) (head_hash digest qs) p q
                  (head_hash-Lacks ps) (head_hash-Lacks qs) ((str_eq_iff x y).0 eq) in
              elim (head_hash-injective ps qs heads) [
                | inl same ↦ inl (cc)
                | inr collision ↦ inr (Collides-cons digest p q ps qs collision)
              ])
      ]

  -- The log is tamper-evident: two logs that both verify and end in the same hash hold the same
  -- payloads in the same order, or the digest maps two different texts, one hashed for an entry of
  -- each log, to one hash.
  pub tamper_evident :
      (xs ys : List AuditRow)
      → (verify_rows digest genesis_hash 0 xs).ok_chain ≡ true
      → (verify_rows digest genesis_hash 0 ys).ok_chain ≡ true
      → last_hash genesis_hash xs ≡ last_hash genesis_hash ys
      → (map (λ (row : AuditRow). row.payload) xs ≡ map (λ (row : AuditRow). row.payload) ys)
        ⊎ Collision digest xs ys
  tamper_evident xs ys hx hy e =
      let head =
        λ (rows : List AuditRow) (h : (verify_rows digest genesis_hash 0 rows).ok_chain ≡ true).
          last_hash-head_hash digest rows [] genesis_hash (unfold head_hash in refl)
            (verify_rows-IsChained digest rows genesis_hash 0 h) in
      elim (head_hash-injective (newest_first [] xs) (newest_first [] ys)
        (sym (head xs hx) ∙ e ∙ head ys hy)) [
          | inr collision ↦ inr collision
          | inl same ↦ inl (payloads_eq xs ys same)
        ]
