-- ===== src/Playback/Stale.antt =====
-- src/services/playback.rs: `save` after other saves and deletions of the same preset.
use curator_rs.Prelude.{
  ℕ, ◌+◌, ◌≤◌, ◌<◌, ◌≡◌, ◌∙◌, refl, sym, ap, subst, Bool, true, false, not, ◌||◌, Bool-cases, inl,
  inr, Option, some, none, List, [], ◌∷◌, ◌==◌, ==_iff, ltb, all, all-append, All, keep, Result, ok,
  err, arith,
}
use curator_rs.Ascii.{trimmed}
use curator_rs.Session.Floats.{Floats}
use curator_rs.Playback.Presets.{
  PlaybackPreset, PresetError, PresetRow, Host, missing, conflict, revision_of, update_preset,
  refused, write_new, write_over, write_preset, save_checked, save, delete, is_at,
}

-- What the pages do to the presets.
pub data Command (F : Type 0) : Type 0 where
  saving : Host → ℕ → PlaybackPreset F → Command F
  deleting : Host → ℕ → ℕ → Command F

-- No preset is created under this id.
unfoldable pub is_sparing : {F : Type 0} → ℕ → Command F → Bool
is_sparing id (saving h new_id p) = not (new_id == id)
is_sparing id (deleting h k revision) = true

-- Each row of this id is newer than the revision.
abbrev is_newer : {F : Type 0} → ℕ → ℕ → PresetRow F → Bool
is_newer id revision r = not (r.id == id) || ltb revision r.revision

all-keep :
    {A : Type 0} (test p : A → Bool) (xs : List A)
    → all test xs ≡ true
    → all test (keep p xs) ≡ true
all-keep test p [] h = refl
all-keep test p (x ∷ xs) h = ground (arith, all-keep test p xs)

module _ {F : Type 0} ⦃fl : Floats F⦄ where
  unfoldable pub run_one : Command F → List (PresetRow F) → List (PresetRow F)
  run_one (saving h new_id p) rows = (save h new_id p rows).1
  run_one (deleting h id revision) rows = (delete h id revision rows).1

  unfoldable pub run_commands : List (Command F) → List (PresetRow F) → List (PresetRow F)
  run_commands [] rows = rows
  run_commands (c ∷ cs) rows = run_commands cs (run_one c rows)

  newer-update_preset :
      (id old new k : ℕ) (p : PlaybackPreset F) (rows : List (PresetRow F))
      → (k ≡ id → old < new)
      → all (is_newer id old) rows ≡ true
      → all (is_newer id old) (update_preset new k p rows) ≡ true
  unfolding update_preset
  newer-update_preset id old new k p [] l h = refl
  newer-update_preset id old new k p (r ∷ rows) l h =
      ground (arith, ==_iff r.id k, ==_iff r.id id, newer-update_preset id old new k p rows l)

  -- After an update every row of the id has its revision.
  update_preset-newer :
      (id old new : ℕ) (p : PlaybackPreset F) (rows : List (PresetRow F))
      → old < new
      → all (is_newer id old) (update_preset new id p rows) ≡ true
  unfolding update_preset
  update_preset-newer id old new p [] l = refl
  update_preset-newer id old new p (r ∷ rows) l =
      ground (arith, update_preset-newer id old new p rows l)

  revision_of-newer :
      (id old revision : ℕ) (rows : List (PresetRow F))
      → all (is_newer id old) rows ≡ true
      → revision_of id rows ≡ some revision
      → old < revision
  unfolding revision_of
  revision_of-newer id old revision [] h e = absurd (cc)
  revision_of-newer id old revision (r ∷ rows) h e =
      ground (arith, revision_of-newer id old revision rows)

  newer-write_over :
      (id old k : ℕ) (p : PlaybackPreset F) (rows : List (PresetRow F)) (o : Option ℕ)
      → revision_of k rows ≡ o
      → all (is_newer id old) rows ≡ true
      → all (is_newer id old) (write_over k p rows o).1 ≡ true
  unfolding write_over
  newer-write_over id old k p rows none e h = h
  newer-write_over id old k p rows (some revision) e h =
      elim (Bool-cases (revision == p.revision)) [
        | inl t ↦ rw t (
            newer-update_preset id old (revision + 1) k _ rows
              (λ same.
                let e' : revision_of id rows ≡ some revision =
                  subst (λ k. revision_of k rows ≡ some revision) same e in
                let newer = revision_of-newer id old revision rows h e' in omega (arith, newer))
              h)
        | inr f ↦ rw f h
      ]

  newer-save_checked :
      (id old new_id : ℕ) (p : PlaybackPreset F) (rows : List (PresetRow F))
      (o : Option PresetError)
      → not (new_id == id) ≡ true
      → all (is_newer id old) rows ≡ true
      → all (is_newer id old) (save_checked o new_id p rows).1 ≡ true
  unfolding save_checked write_preset write_new
  newer-save_checked id old new_id p rows (some e) n h = h
  newer-save_checked id old new_id p rows none n h = written p.id
    where
      written :
          (o : Option ℕ)
          → all
              (is_newer id old)
              (write_preset new_id (record p { name = trimmed p.name }) o rows).1
            ≡ true
      written none = all-append (is_newer id old) rows _ ∙ ground arith
      written (some k) =
          newer-write_over id old k (record p { name = trimmed p.name }) rows (revision_of k rows)
            refl h

  newer-run_one :
      (id old : ℕ) (c : Command F) (rows : List (PresetRow F))
      → is_sparing id c ≡ true
      → all (is_newer id old) rows ≡ true
      → all (is_newer id old) (run_one c rows) ≡ true
  unfolding run_one is_sparing save delete
  newer-run_one id old (saving h new_id p) rows n newer =
      newer-save_checked id old new_id p rows (refused h p) n newer
  newer-run_one id old (deleting h k revision) rows n newer =
      let kept = all-keep (is_newer id old) (λ r. not (is_at k revision r)) rows newer in
      ground arith

  newer-run_commands :
      (id old : ℕ) (cs : List (Command F)) (rows : List (PresetRow F))
      → All (λ c. is_sparing id c ≡ true) cs
      → all (is_newer id old) rows ≡ true
      → all (is_newer id old) (run_commands cs rows) ≡ true
  unfolding run_commands
  newer-run_commands id old [] rows n newer = newer
  newer-run_commands id old (c ∷ cs) rows (n, ns) newer =
      newer-run_commands id old cs (run_one c rows) ns (newer-run_one id old c rows n newer)

  write_over-newer :
      (id : ℕ) (p p' : PlaybackPreset F) (rows rows' : List (PresetRow F)) (o : Option ℕ)
      → write_over id p rows o ≡ (ok p', rows')
      → all (is_newer id p.revision) rows' ≡ true
  unfolding write_over
  write_over-newer id p p' rows rows' none h = absurd (cc)
  write_over-newer id p p' rows rows' (some revision) h =
      elim (Bool-cases (revision == p.revision)) [
        | inl t ↦
            let same : revision ≡ p.revision = (==_iff revision p.revision).0 t in
            let stored : PlaybackPreset F = record p { id = some id; revision = revision + 1 } in
            let e : update_preset (revision + 1) id stored rows ≡ rows' = ground arith in
            subst (λ l. all (is_newer id p.revision) l ≡ true) e
              (update_preset-newer id p.revision (revision + 1) stored rows (omega (arith, same)))
        | inr f ↦ absurd (ground arith)
      ]

  save_checked-newer :
      (id new_id : ℕ) (p p' : PlaybackPreset F) (rows rows' : List (PresetRow F))
      (o : Option PresetError)
      → save_checked o new_id p rows ≡ (ok p', rows')
      → p.id ≡ some id
      → all (is_newer id p.revision) rows' ≡ true
  unfolding save_checked write_preset
  save_checked-newer id new_id p p' rows rows' (some e) h i = absurd (cc)
  save_checked-newer id new_id p p' rows rows' none h i =
      let named : PlaybackPreset F = record p { name = trimmed p.name } in
      let over : write_preset new_id named (some id) rows ≡ (ok p', rows') =
        ap (λ o. write_preset new_id named o rows) (sym i) ∙ h in
      write_over-newer id named p' rows rows' (revision_of id rows) over

  -- A save that is refused leaves the rows as they are.
  abbrev pub IsRefused :
      List (PresetRow F) → Result PresetError (PlaybackPreset F) × List (PresetRow F) → Type 0
  IsRefused rows r = (e : PresetError) × (r ≡ (err e, rows))

  write_over-IsRefused :
      (id old : ℕ) (q : PlaybackPreset F) (rows : List (PresetRow F)) (o : Option ℕ)
      → revision_of id rows ≡ o
      → all (is_newer id old) rows ≡ true
      → q.revision ≤ old
      → IsRefused rows (write_over id q rows o)
  unfolding write_over
  write_over-IsRefused id old q rows none e newer l = (missing, refl)
  write_over-IsRefused id old q rows (some revision) e newer l =
      let k = revision_of-newer id old revision rows newer e in
      let other : (revision == q.revision) ≡ false = ground arith in (conflict, rw other refl)

  save_checked-IsRefused :
      (id old new_id : ℕ) (q : PlaybackPreset F) (rows : List (PresetRow F))
      (o : Option PresetError)
      → q.id ≡ some id
      → all (is_newer id old) rows ≡ true
      → q.revision ≤ old
      → IsRefused rows (save_checked o new_id q rows)
  unfolding save_checked write_preset
  save_checked-IsRefused id old new_id q rows (some e) i newer l = (e, refl)
  save_checked-IsRefused id old new_id q rows none i newer l =
      let named : PlaybackPreset F = record q { name = trimmed q.name } in
      subst (λ o. IsRefused rows (write_preset new_id named o rows)) (sym i)
        (write_over-IsRefused id old named rows (revision_of id rows) refl newer l)

  -- Once a preset was saved, no save from the revision that it was read at, or an earlier one, goes
  -- through, whatever is saved and deleted in between, while no new preset is given its id: the save
  -- is refused, and changes nothing.
  pub save_stale :
      (h h' : Host) (new_id new_id' id : ℕ) (p p' q : PlaybackPreset F)
      (rows rows' : List (PresetRow F)) (cs : List (Command F))
      → save h new_id p rows ≡ (ok p', rows')
      → p.id ≡ some id
      → All (λ c. is_sparing id c ≡ true) cs
      → q.id ≡ some id
      → q.revision ≤ p.revision
      → IsRefused (run_commands cs rows') (save h' new_id' q (run_commands cs rows'))
  unfolding save
  save_stale h h' new_id new_id' id p p' q rows rows' cs saved i sparing j l =
      let newer = save_checked-newer id new_id p p' rows rows' (refused h p) saved i in
      save_checked-IsRefused id p.revision new_id' q (run_commands cs rows') (refused h' q) j
        (newer-run_commands id p.revision cs rows' sparing newer) l
