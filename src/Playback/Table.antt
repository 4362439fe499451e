-- ===== src/Playback/Table.antt =====
-- src/services/playback.rs: what the statements on the table of presets do to the book it makes.
use mathlib.Core.Option
use curator_rs.Prelude.{
  ℕ, ◌≡◌, ◌⊎◌, refl, ap, subst, Bool, false, not, ◌||◌, Bool-cases, inl, inr, some, none, List, [],
  ◌∷◌, ◌++◌, ◌==◌, ==_iff, if◌then◌else◌, keep, member, arith,
}
use curator_rs.Playback.Presets.{PlaybackPreset, PresetRow, is_at, revision_of, update_preset}
use curator_rs.Playback.Spec.{Book, changed_at}

module _ {F : Type 0} where
  abbrev pub ids_of : List (PresetRow F) → List ℕ
  ids_of [] = []
  ids_of (r ∷ rows) = r.id ∷ ids_of rows

  unfoldable pub book_of : List (PresetRow F) → Book F
  book_of [] k = none
  book_of (r ∷ rows) k =
      let rest = book_of rows k in if r.id == k then some (r.revision, r.body) else rest

  -- The primary key: no two rows have the same id.
  abbrev pub HasKeys : List (PresetRow F) → Type 0
  HasKeys [] = Unit
  HasKeys (r ∷ rows) = (member r.id (ids_of rows) ≡ false) × HasKeys rows

  pub revision_of-book :
      (id : ℕ) (rows : List (PresetRow F))
      → ((revision_of id rows ≡ none) × (book_of rows id ≡ none))
        ⊎ ((revision : ℕ) × (p : PlaybackPreset F) × (revision_of id rows ≡ some revision)
            × (book_of rows id ≡ some (revision, p)))
  unfolding revision_of book_of
  revision_of-book id [] = inl (refl, refl)
  revision_of-book id (r ∷ rows) = elim (Bool-cases (r.id == id)) [
    | inl t ↦ inr (r.revision, r.body, rw t refl, rw t refl)
    | inr f ↦ rw f (revision_of-book id rows)
  ]

  pub book-absent :
      (id : ℕ) (rows : List (PresetRow F))
      → member id (ids_of rows) ≡ false
      → book_of rows id ≡ none
  unfolding book_of
  book-absent id [] h = refl
  book-absent id (r ∷ rows) h = ground (arith, book-absent id rows)

  pub book-append :
      (id revision k : ℕ) (p : PlaybackPreset F) (rows : List (PresetRow F))
      → member id (ids_of rows) ≡ false
      → book_of (rows ++ record { id = id; revision = revision; body = p } ∷ []) k
        ≡ changed_at id (some (revision, p)) (book_of rows) k
  unfolding book_of
  book-append id revision k p [] h = ground (arith, ==_iff id k, ==_iff k id)
  book-append id revision k p (r ∷ rows) h =
      ground (arith, ==_iff r.id k, ==_iff id k, ==_iff k id, book-append id revision k p rows)

  pub book-update_preset :
      (id new k : ℕ) (p : PlaybackPreset F) (rows : List (PresetRow F))
      → book_of (update_preset new id p rows) k
        ≡ (if k == id then Option.map (λ old. (new, p)) (book_of rows k) else book_of rows k)
  unfolding book_of update_preset
  book-update_preset id new k p [] = ground arith
  book-update_preset id new k p (r ∷ rows) =
      ground (arith, ==_iff r.id k, ==_iff r.id id, ==_iff k id, book-update_preset id new k p rows)

  ids-update_preset :
      (id new : ℕ) (p : PlaybackPreset F) (rows : List (PresetRow F))
      → ids_of (update_preset new id p rows) ≡ ids_of rows
  unfolding update_preset
  ids-update_preset id new p [] = refl
  ids-update_preset id new p (r ∷ rows) = ground (arith, ids-update_preset id new p rows)

  keep-absent :
      (id revision : ℕ) (rows : List (PresetRow F))
      → member id (ids_of rows) ≡ false
      → keep (λ r. not (is_at id revision r)) rows ≡ rows
  keep-absent id revision [] h = refl
  keep-absent id revision (r ∷ rows) h = ground (arith, keep-absent id revision rows)

  pub book-keep :
      (id revision k : ℕ) (p : PlaybackPreset F) (rows : List (PresetRow F))
      → HasKeys rows
      → book_of rows id ≡ some (revision, p)
      → book_of (keep (λ r. not (is_at id revision r)) rows) k ≡ changed_at id none (book_of rows) k
  unfolding book_of
  book-keep id revision k p [] h e = absurd (cc)
  book-keep id revision k p (r ∷ rows) (h, hs) e = elim (Bool-cases (r.id == id)) [
    | inl t ↦
        let same = (==_iff r.id id).0 t in
        let absent : member id (ids_of rows) ≡ false =
          subst (λ i. member i (ids_of rows) ≡ false) same h in
        ground (
          arith,
          ==_iff r.id k,
          ==_iff k id,
          keep-absent id revision rows absent,
          book-absent id rows absent,
          ap (book_of rows) same,
        )
    | inr f ↦ ground (arith, ==_iff r.id k, ==_iff k id, book-keep id revision k p rows hs)
  ]

  ids-append :
      (rows : List (PresetRow F)) (r : PresetRow F) (k : ℕ)
      → member k (ids_of (rows ++ r ∷ [])) ≡ (member k (ids_of rows) || r.id == k)
  ids-append [] r k = ground arith
  ids-append (x ∷ rows) r k = ground (arith, ids-append rows r k)

  pub HasKeys-append :
      (rows : List (PresetRow F)) (r : PresetRow F)
      → HasKeys rows
      → member r.id (ids_of rows) ≡ false
      → HasKeys (rows ++ r ∷ [])
  HasKeys-append [] r h n = (refl, tt)
  HasKeys-append (x ∷ rows) r (h, hs) n = (
    ground (arith, ids-append rows r x.id, ==_iff r.id x.id, ==_iff x.id r.id),
    HasKeys-append rows r hs (ground arith),
  )

  pub HasKeys-update_preset :
      (id new : ℕ) (p : PlaybackPreset F) (rows : List (PresetRow F))
      → HasKeys rows
      → HasKeys (update_preset new id p rows)
  unfolding update_preset
  HasKeys-update_preset id new p [] h = tt
  HasKeys-update_preset id new p (r ∷ rows) (h, hs) =
      (ground (arith, ids-update_preset id new p rows), HasKeys-update_preset id new p rows hs)

  member-keep_rows :
      (test : PresetRow F → Bool) (k : ℕ) (rows : List (PresetRow F))
      → member k (ids_of rows) ≡ false
      → member k (ids_of (keep test rows)) ≡ false
  member-keep_rows test k [] h = refl
  member-keep_rows test k (r ∷ rows) h = ground (arith, member-keep_rows test k rows)

  pub HasKeys-keep :
      (test : PresetRow F → Bool) (rows : List (PresetRow F))
      → HasKeys rows
      → HasKeys (keep test rows)
  HasKeys-keep test [] h = tt
  HasKeys-keep test (r ∷ rows) (h, hs) = elim (Bool-cases (test r)) [
    | inl t ↦ rw t (member-keep_rows test r.id rows h, HasKeys-keep test rows hs)
    | inr f ↦ rw f (HasKeys-keep test rows hs)
  ]
