-- ===== src/Playback/Refines.antt =====
-- src/services/playback.rs: the table of presets as a book.
use mathlib.Core.Path.{fun_ext}
use curator_rs.Prelude.{
  RowIds, ℕ, ◌+◌, ◌≡◌, ◌≢◌, ◌∙◌, refl, sym, ap, subst, true, false, not, ◌||◌, Bool-cases, inl, inr,
  Option, some, none, List, [], ◌∷◌, ◌==◌, ==_iff, any, keep, member, Result, ok, err, arith,
}
use curator_rs.Ascii.{trimmed}
use curator_rs.Session.Floats.{Floats}
use curator_rs.Playback.Presets.{
  PlaybackPreset, PresetError, PresetRow, Host, conflict, read_only, in_maintenance, is_at,
  revision_of, update_preset, refused, write_new, write_over, write_preset, save_checked, save,
  delete,
}
use curator_rs.Playback.Spec.{
  changed_at, Request, saving, deleting, Reply, saved, deleted, failed, kept_as, Answer,
  save_refused, save_created, save_replaced, save_missing, save_conflict, delete_done,
  delete_conflict, delete_read_only, delete_in_maintenance, Answers, no_more, first,
}
use curator_rs.Playback.Table.{
  ids_of, book_of, HasKeys, revision_of-book, book-absent, book-append, book-update_preset,
  book-keep, HasKeys-append, HasKeys-update_preset, HasKeys-keep,
}

abbrev pub save_reply :
    {F : Type 0}
    → Result PresetError (PlaybackPreset F) × List (PresetRow F)
    → Reply F × List (PresetRow F)
save_reply (ok p, rows) = (saved p, rows)
save_reply (err e, rows) = (failed e, rows)

abbrev pub delete_reply :
    {F : Type 0} → Result PresetError (Unit {0}) × List (PresetRow F) → Reply F × List (PresetRow F)
delete_reply (ok u, rows) = (deleted, rows)
delete_reply (err e, rows) = (failed e, rows)

module _ {F : Type 0} ⦃fl : Floats F⦄ where
  unfoldable pub serve : RowIds → Request F → List (PresetRow F) → Reply F × List (PresetRow F)
  serve ids (saving h p) rows = save_reply (save h (ids.next (ids_of rows)) p rows)
  serve ids (deleting h id revision) rows = delete_reply (delete h id revision rows)

  unfoldable pub serve_all :
      RowIds → List (Request F) → List (PresetRow F) → List (Reply F) × List (PresetRow F)
  serve_all ids [] rows = ([], rows)
  serve_all ids (r ∷ rs) rows =
      let (a, rows') = serve ids r rows in
      let (rest, rows'') = serve_all ids rs rows' in (a ∷ rest, rows'')

  -- The rows keep their keys, and the book they make allows the reply.
  abbrev IsAnswered : List (PresetRow F) → Request F → Reply F × List (PresetRow F) → Type 0
  IsAnswered rows r (a, rows') = HasKeys rows' × Answer (book_of rows) r a (book_of rows')

  created :
      (h : Host) (p : PlaybackPreset F) (id : ℕ) (rows : List (PresetRow F))
      → HasKeys rows
      → member id (ids_of rows) ≡ false
      → refused h p ≡ none
      → p.id ≡ none
      → IsAnswered rows
          (saving h p)
          (save_reply (write_new id (record p { name = trimmed p.name }) rows))
  unfolding write_new
  created h p id rows k n free unnamed =
      let r : PresetRow F = record { id = id; revision = 1; body = kept_as id 1 p } in
      (
        HasKeys-append rows r k n,
        subst (Answer (book_of rows) (saving h p) (saved (kept_as id 1 p)))
            (sym (fun_ext λ q. book-append id 1 q (kept_as id 1 p) rows n))
            (save_created (book_of rows) h p id free unnamed (book-absent id rows n)),
      )

  replaced :
      (h : Host) (p old : PlaybackPreset F) (id revision : ℕ) (rows : List (PresetRow F))
      → HasKeys rows
      → refused h p ≡ none
      → p.id ≡ some id
      → book_of rows id ≡ some (revision, old)
      → IsAnswered rows
          (saving h p)
          (save_reply (write_over id (record p { name = trimmed p.name }) rows (some revision)))
  unfolding write_over
  replaced h p old id revision rows k free named there =
      elim (Bool-cases (revision == p.revision)) [
        | inl t ↦
            let e = (==_iff revision p.revision).0 t in
            let p' = kept_as id (revision + 1) p in
            let books : book_of (update_preset (revision + 1) id p' rows)
                ≡ changed_at id (some (revision + 1, p')) (book_of rows) =
              fun_ext
                λ q. ground (arith, book-update_preset id (revision + 1) q p' rows, ==_iff q id) in
            rw t (
              HasKeys-update_preset id (revision + 1) p' rows k,
              subst (Answer (book_of rows) (saving h p) (saved p')) (sym books) (
                  subst
                    (λ n.
                      Answer (book_of rows) (saving h p) (saved (kept_as id (n + 1) p))
                        (changed_at id (some (n + 1, kept_as id (n + 1) p)) (book_of rows)))
                    (sym e)
                    (save_replaced (book_of rows) h p old id free named
                      (there ∙ ap (λ n. some (n, old)) e))),
            )
        | inr f ↦ rw f (
          k,
          save_conflict (book_of rows) h p old id revision free named there
              (λ e. absurd (ground arith)),
        )
      ]

  over_row :
      (h : Host) (p : PlaybackPreset F) (id : ℕ) (rows : List (PresetRow F))
      → HasKeys rows
      → refused h p ≡ none
      → p.id ≡ some id
      → IsAnswered rows (saving h p) (
          save_reply
            (write_over id (record p { name = trimmed p.name }) rows (revision_of id rows)))
  unfolding write_over
  over_row h p id rows k free named = elim (revision_of-book id rows) [
    | inl (e, absent) ↦ rw e (k, save_missing (book_of rows) h p id free named absent)
    | inr (revision, old, e, there) ↦
        subst
          (λ o.
            IsAnswered rows (saving h p)
              (save_reply (write_over id (record p { name = trimmed p.name }) rows o)))
          (sym e) (replaced h p old id revision rows k free named there)
  ]

  written :
      (h : Host) (p : PlaybackPreset F) (new_id : ℕ) (rows : List (PresetRow F)) (o : Option ℕ)
      → p.id ≡ o
      → HasKeys rows
      → member new_id (ids_of rows) ≡ false
      → refused h p ≡ none
      → IsAnswered rows
          (saving h p)
          (save_reply (write_preset new_id (record p { name = trimmed p.name }) o rows))
  unfolding write_preset
  written h p new_id rows none e k n free = created h p new_id rows k n free e
  written h p new_id rows (some id) e k n free = over_row h p id rows k free e

  save_checked-IsAnswered :
      (h : Host) (p : PlaybackPreset F) (new_id : ℕ) (rows : List (PresetRow F))
      (o : Option PresetError)
      → refused h p ≡ o
      → HasKeys rows
      → member new_id (ids_of rows) ≡ false
      → IsAnswered rows (saving h p) (save_reply (save_checked o new_id p rows))
  unfolding save_checked
  save_checked-IsAnswered h p new_id rows (some e) r k n = (k, save_refused (book_of rows) h p e r)
  save_checked-IsAnswered h p new_id rows none r k n = written h p new_id rows p.id refl k n r

  any-book :
      (id revision : ℕ) (rows : List (PresetRow F))
      → HasKeys rows
      → any (is_at id revision) rows ≡ true
      → (p : PlaybackPreset F) × (book_of rows id ≡ some (revision, p))
  unfolding book_of
  any-book id revision [] k h = absurd (cc)
  any-book id revision (r ∷ rows) (k, ks) h = elim (Bool-cases (is_at id revision r)) [
    | inl t ↦ (r.body, ground (arith, ==_iff r.revision revision))
    | inr f ↦
        let (p, e) = any-book id revision rows ks (ground arith) in
        (p, ground (arith, book-absent id rows, ==_iff r.id id))
  ]

  any-book_none :
      (id revision : ℕ) (p : PlaybackPreset F) (rows : List (PresetRow F))
      → any (is_at id revision) rows ≡ false
      → book_of rows id ≢ some (revision, p)
  unfolding book_of
  any-book_none id revision p [] h e = absurd (cc)
  any-book_none id revision p (r ∷ rows) h e =
      ground (arith, any-book_none id revision p rows, ==_iff r.revision revision)

  delete-IsAnswered :
      (h : Host) (id revision : ℕ) (rows : List (PresetRow F))
      → HasKeys rows
      → IsAnswered rows (deleting h id revision) (delete_reply (delete h id revision rows))
  delete-IsAnswered h id revision rows k =
      let back =
        λ (d : Result PresetError (Unit {0}) × List (PresetRow F))
            (e : delete h id revision rows ≡ d)
            (done : IsAnswered rows (deleting h id revision) (delete_reply d)).
          subst (λ d. IsAnswered rows (deleting h id revision) (delete_reply d)) (sym e) done in
      elim (Bool-cases (not h.owns_library || h.is_shutting_down)) [
        | inl t ↦
            back (err read_only, rows) (unfold delete in ground arith)
              (k, delete_read_only (book_of rows) h id revision t)
        | inr f ↦ elim (Bool-cases h.has_lease) [
          | inl t ↦ elim (Bool-cases (any (is_at id revision) rows)) [
            | inl a ↦
                let (p, e) = any-book id revision rows k a in
                back (ok tt, keep (λ r. not (is_at id revision r)) rows)
                  (unfold delete in ground arith)
                  (
                    HasKeys-keep (λ r. not (is_at id revision r)) rows k,
                    subst (Answer (book_of rows) (deleting h id revision) deleted)
                        (sym (fun_ext λ q. book-keep id revision q p rows k e))
                        (delete_done (book_of rows) h id revision p e),
                  )
            | inr a ↦
                back (err conflict, rows) (unfold delete in ground arith)
                  (
                    k,
                    delete_conflict (book_of rows) h id revision
                        (λ p. any-book_none id revision p rows a),
                  )
          ]
          | inr n ↦
              back (err in_maintenance, rows) (unfold delete in ground arith)
                (k, delete_in_maintenance (book_of rows) h id revision n)
        ]
      ]

  serve-IsAnswered :
      (ids : RowIds) (r : Request F) (rows : List (PresetRow F))
      → HasKeys rows
      → IsAnswered rows r (serve ids r rows)
  unfolding serve save
  serve-IsAnswered ids (saving h p) rows k =
      save_checked-IsAnswered h p (ids.next (ids_of rows)) rows (refused h p) refl k
        (ids.next-new (ids_of rows))
  serve-IsAnswered ids (deleting h id revision) rows k = delete-IsAnswered h id revision rows k

  -- Whatever the pages save and delete, the replies, and the book that the table makes in the end, are
  -- ones that the contract allows from the book that it makes in the beginning: a preset is replaced or
  -- removed exactly under the revision that was named, and nothing else changes. The table keeps
  -- its primary key, and SQLite gives a new row an id that no row has.
  pub serve_all-Answers :
      (ids : RowIds) (rs : List (Request F)) (rows : List (PresetRow F))
      → HasKeys rows
      → HasKeys (serve_all ids rs rows).1
        × Answers (book_of rows) rs (serve_all ids rs rows).0 (book_of (serve_all ids rs rows).1)
  unfolding serve_all
  serve_all-Answers ids [] rows k = (k, no_more (book_of rows))
  serve_all-Answers ids (r ∷ rs) rows k =
      let (k', step) = serve-IsAnswered ids r rows k in
      let (k'', rest) = serve_all-Answers ids rs (serve ids r rows).1 k' in (k'', first step rest)
