-- ===== src/Storage/Eviction.antt =====
-- src/storage.rs, `trim_thumbnail_cache`: which thumbnails go, and how many.
use mathlib.Core.List.{Permᴰ}
use mathlib.Core.List.Permᴰ
use curator_rs.Prelude.{
  ℕ, ◌+◌, ◌-◌, ◌≤◌, ◌<◌, ◌≡◌, ◌⊎◌, inl, inr, refl, sym, ap, ◌∙◌, subst, String, Bool-cases, Option,
  Option-cases, List, [], ◌∷◌, ◌++◌, leb, leb→le, ok, arith, length, All,
}
use curator_rs.Storage.Cleanup.{
  CleanupOutcome, ThumbnailUnit, count_removed, total_bytes, insert_unit, sort_units, evict,
  trim_thumbnail_cache, nothing_removed,
}

abbrev OlderThan : ThumbnailUnit → List ThumbnailUnit → Type 0
OlderThan u = All (λ v. u.modified ≤ v.modified)

abbrev Sorted : List ThumbnailUnit → Type 0
Sorted [] = Unit
Sorted (u ∷ us) = OlderThan u us × Sorted us

OlderThan-trans :
    (u v : ThumbnailUnit) (us : List ThumbnailUnit)
    → u.modified ≤ v.modified
    → OlderThan v us
    → OlderThan u us
OlderThan-trans u v [] h a = tt
OlderThan-trans u v (w ∷ us) h (a, rest) = (omega (arith, h, a), OlderThan-trans u v us h rest)

OlderThan-insert_unit :
    (u v : ThumbnailUnit) (us : List ThumbnailUnit)
    → u.modified ≤ v.modified
    → OlderThan u us
    → OlderThan u (insert_unit v us)
unfolding insert_unit
OlderThan-insert_unit u v [] h a = (h, tt)
OlderThan-insert_unit u v (w ∷ us) h (a, rest) = elim (Bool-cases (leb v.modified w.modified)) [
  | inl t ↦ rw t (h, (a, rest))
  | inr f ↦ rw f (a, OlderThan-insert_unit u v us h rest)
]

Sorted-insert_unit :
    (u : ThumbnailUnit) (us : List ThumbnailUnit) → Sorted us → Sorted (insert_unit u us)
unfolding insert_unit
Sorted-insert_unit u [] s = (tt, tt)
Sorted-insert_unit u (v ∷ us) (a, s) = elim (Bool-cases (leb u.modified v.modified)) [
  | inl t ↦ rw t (
    (leb→le u.modified v.modified t, OlderThan-trans u v us (leb→le u.modified v.modified t) a),
    (a, s),
  )
  | inr f ↦ rw f (OlderThan-insert_unit v u us (ground arith) a, Sorted-insert_unit u us s)
]

Sorted-sort_units : (us : List ThumbnailUnit) → Sorted (sort_units us)
unfolding sort_units
Sorted-sort_units [] = tt
Sorted-sort_units (u ∷ us) = Sorted-insert_unit u (sort_units us) (Sorted-sort_units us)

Perm-insert_unit : (u : ThumbnailUnit) (us : List ThumbnailUnit) → Permᴰ (insert_unit u us) (u ∷ us)
unfolding insert_unit
Perm-insert_unit u [] = Permᴰ.refl (u ∷ [])
Perm-insert_unit u (v ∷ us) = elim (Bool-cases (leb u.modified v.modified)) [
  | inl t ↦ rw t (Permᴰ.refl (u ∷ v ∷ us))
  | inr f ↦ rw f (Permᴰ.trans (Permᴰ.cons refl (Perm-insert_unit u us)) (Permᴰ.swap refl refl))
]

Perm-sort_units : (us : List ThumbnailUnit) → Permᴰ (sort_units us) us
unfolding sort_units
Perm-sort_units [] = Permᴰ.nil
Perm-sort_units (u ∷ us) =
    Permᴰ.trans (Perm-insert_unit u (sort_units us)) (Permᴰ.cons refl (Perm-sort_units us))

All-append :
    (u : ThumbnailUnit) (xs ys : List ThumbnailUnit) → OlderThan u (xs ++ ys) → OlderThan u ys
All-append u [] ys a = a
All-append u (x ∷ xs) ys (a, rest) = All-append u xs ys rest

Sorted-append :
    (gone kept : List ThumbnailUnit) → Sorted (gone ++ kept) → All (λ u. OlderThan u kept) gone
Sorted-append [] kept s = tt
Sorted-append (u ∷ gone) kept (a, s) = (All-append u gone kept a, Sorted-append gone kept s)

total_bytes-insert_unit :
    (u : ThumbnailUnit) (us : List ThumbnailUnit)
    → total_bytes (insert_unit u us) ≡ u.bytes + total_bytes us
unfolding insert_unit total_bytes
total_bytes-insert_unit u [] = refl
total_bytes-insert_unit u (v ∷ us) = ground (arith, total_bytes-insert_unit u us)

total_bytes-sort_units : (us : List ThumbnailUnit) → total_bytes (sort_units us) ≡ total_bytes us
unfolding sort_units total_bytes
total_bytes-sort_units [] = refl
total_bytes-sort_units (u ∷ us) =
    omega (arith, total_bytes-insert_unit u (sort_units us), total_bytes-sort_units us)

length-insert_unit :
    (u : ThumbnailUnit) (us : List ThumbnailUnit) → length (insert_unit u us) ≡ 1 + length us
unfolding insert_unit
length-insert_unit u [] = refl
length-insert_unit u (v ∷ us) = ground (arith, length-insert_unit u us)

length-sort_units : (us : List ThumbnailUnit) → length (sort_units us) ≡ length us
unfolding sort_units
length-sort_units [] = refl
length-sort_units (u ∷ us) =
    omega (arith, length-insert_unit u (sort_units us), length-sort_units us)

-- Fewer would not have been enough.
abbrev pub Needed : ℕ → List ThumbnailUnit → List ThumbnailUnit → Type 0
Needed maximum gone kept =
    (gone ≡ [])
    ⊎ ((before : List ThumbnailUnit) × (u : ThumbnailUnit) × (gone ≡ before ++ u ∷ [])
        × (maximum < u.bytes + total_bytes kept))

-- What an eviction of `us` that counts from `o` to `o'` leaves.
record Evicted (maximum : ℕ) (o o' : CleanupOutcome) (us kept : List ThumbnailUnit) : Type 0 where
  gone : List ThumbnailUnit
  parted : gone ++ kept ≡ us
  fits : total_bytes kept ≤ maximum
  needed : Needed maximum gone kept
  items : o'.removed_items ≡ o.removed_items + length gone
  bytes : o'.removed_bytes ≡ o.removed_bytes + total_bytes gone

Needed-cons :
    (maximum : ℕ) (u : ThumbnailUnit) (gone kept us : List ThumbnailUnit)
    → gone ++ kept ≡ us
    → maximum < u.bytes + total_bytes us
    → Needed maximum gone kept
    → Needed maximum (u ∷ gone) kept
Needed-cons maximum u gone kept us p h (inl e) = inr (
  [],
  u,
  ap (λ g. u ∷ g) e,
  subst (λ l. maximum < u.bytes + total_bytes l) (sym p ∙ ap (λ g. g ++ kept) e) h,
)
Needed-cons maximum u gone kept us p h (inr (before, v, e, l)) =
    inr (u ∷ before, v, ap (λ g. u ∷ g) e, l)

module _ (resists : String → Option String) where
  evict-ok :
      (maximum total : ℕ) (o o' : CleanupOutcome) (us kept : List ThumbnailUnit)
      → total ≡ total_bytes us
      → o.removed_bytes + total < 18446744073709551616
      → o.removed_items + length us < 18446744073709551616
      → evict resists maximum total o us ≡ (ok o', kept)
      → Evicted maximum o o' us kept
  unfolding evict total_bytes count_removed
  evict-ok maximum total o o' [] kept t b i h = record {
    gone = [];
    parted = ground arith;
    fits = ground arith;
    needed = inl refl;
    items = ground arith;
    bytes = ground arith;
  }
  evict-ok maximum total o o' (u ∷ us) kept t b i h = elim (Bool-cases (leb total maximum)) [
    | inl enough ↦ record {
      gone = [];
      parted = ground arith;
      fits = ground arith;
      needed = inl refl;
      items = ground arith;
      bytes = ground arith;
    }
    | inr over ↦ elim (Option-cases (resists u.main)) [
      | inl removed ↦
          let r =
            evict-ok maximum (total - u.bytes) (count_removed u.bytes o) o' us kept
              (omega (arith, t)) (omega (arith, t, b)) (omega (arith, i)) (ground arith) in
          record {
            gone = u ∷ r.gone;
            parted = ap (λ l. u ∷ l) r.parted;
            fits = r.fits;
            needed = Needed-cons maximum u r.gone kept us r.parted (ground arith) r.needed;
            items = omega (arith, r.items, i);
            bytes = omega (arith, r.bytes, b, t);
          }
      | inr (e, resisted) ↦ absurd (ground arith)
    ]
  ]

  -- Trimming the thumbnails to a positive limit, when no removal fails: those that go are the ones
  -- used least recently, those that stay fit the limit, one fewer gone would not have been enough,
  -- and the outcome counts what went. All sizes together, and their number, are `u64` values.
  pub trim_thumbnail_cache-ok :
      (maximum : ℕ) (units kept : List ThumbnailUnit) (o : CleanupOutcome)
      → 0 < maximum
      → total_bytes units < 18446744073709551616
      → length units < 18446744073709551616
      → trim_thumbnail_cache resists maximum units ≡ (ok o, kept)
      → (gone : List ThumbnailUnit) × Permᴰ (gone ++ kept) units
        × All (λ u. All (λ v. u.modified ≤ v.modified) kept) gone
        × (total_bytes kept ≤ maximum)
        × Needed maximum gone kept
        × (o.removed_items ≡ length gone)
        × (o.removed_bytes ≡ total_bytes gone)
  unfolding trim_thumbnail_cache total_bytes
  trim_thumbnail_cache-ok maximum units kept o positive b i h =
      elim (Bool-cases (leb (total_bytes units) maximum)) [
        | inl enough ↦
            let q : units ≡ kept = ground arith in
            (
              [],
              subst (λ l. Permᴰ l units) q (Permᴰ.refl units),
              tt,
              ground arith,
              inl refl,
              ground arith,
              ground arith,
            )
        | inr over ↦
            let r =
              evict-ok maximum (total_bytes units) nothing_removed o (sort_units units) kept
                (sym (total_bytes-sort_units units)) (omega (arith, b))
                (omega (arith, i, length-sort_units units)) (ground arith) in
            (
              r.gone,
              subst (λ l. Permᴰ l units) (sym r.parted) (Perm-sort_units units),
              Sorted-append r.gone kept (subst Sorted (sym r.parted) (Sorted-sort_units units)),
              r.fits,
              r.needed,
              omega (arith, r.items),
              omega (arith, r.bytes),
            )
      ]
