-- ===== src/Groups/Cache.antt =====
-- src/services/library.rs: `effective_tags`, the cache that the requests of src/routes/groups.rs and
-- `delete_tag` of src/routes/tags.rs empty after they have changed the tables.
use curator_rs.Prelude.{
  ℕ, suc, ◌+◌, ◌<◌, ◌≡◌, ◌⊎◌, refl, sym, ap, subst, Option, some, none, Option-cases, List, inl,
  inr, ok, arith,
}
use curator_rs.Groups.Moves.{Tables, Command, run}
use curator_rs.Groups.Tags.{build_group_effective_tags_map}

abbrev pub TagMap : Type 0
TagMap = List (ℕ × List (List ℕ))

-- The tables, `group_tag_cache`, and how many requests have changed the tables and not emptied the
-- cache yet.
pub record Served : Type 0 where
  pub db : Tables
  pub cache : Option TagMap
  pub unfinished : ℕ

module _ (to_lowercase : List ℕ → List ℕ) where
  abbrev cached_or : Served → Option TagMap → TagMap × Served
  cached_or s (some tags) = (tags, s)
  cached_or s none =
      let rebuilt = build_group_effective_tags_map to_lowercase s.db in
      (rebuilt, record s { cache = some rebuilt })

  -- The tables are read under the lock of the cache.
  unfoldable pub effective_tags : Served → TagMap × Served
  effective_tags s = cached_or s s.cache

  -- The steps of concurrent requests: one changes the tables, one that did empties the cache, one asks
  -- for the tags.
  pub data Serves (s : Served) : Served → Type 0 where
    started : Serves s s
    changed :
        (c : Command to_lowercase) (db : Tables) {t : Served}
        → Serves s t
        → run to_lowercase c t.db ≡ ok db
        → Serves s (record t { db = db; unfinished = t.unfinished + 1 })
    emptied :
        (n : ℕ) {t : Served}
        → Serves s t
        → t.unfinished ≡ suc n
        → Serves s (record t { cache = none; unfinished = n })
    asked : {t : Served} → Serves s t → Serves s (effective_tags t).1

  abbrev HasFitCache : Served → Type 0
  HasFitCache s =
      (0 < s.unfinished)
      ⊎ ((s.cache ≡ none) ⊎ (s.cache ≡ some (build_group_effective_tags_map to_lowercase s.db)))

  asked-HasFitCache : (s : Served) → HasFitCache s → HasFitCache (effective_tags s).1
  unfolding effective_tags
  asked-HasFitCache s h = elim (Option-cases s.cache) [
    | inl n ↦ subst HasFitCache (sym (ap (λ c. (cached_or s c).1) n)) (inr (inr refl))
    | inr (tags, n) ↦ subst HasFitCache (sym (ap (λ c. (cached_or s c).1) n)) h
  ]

  Serves-HasFitCache : {s t : Served} → Serves s t → s.cache ≡ none → HasFitCache t
  Serves-HasFitCache (started) n = inr (inl n)
  Serves-HasFitCache (changed c db {t} path e) n = inl (omega arith)
  Serves-HasFitCache (emptied m path e) n = inr (inl refl)
  Serves-HasFitCache (asked {t} path) n = asked-HasFitCache t (Serves-HasFitCache path n)

  -- The program starts with no cache. However requests run side by side, when each request that has
  -- changed the tables has emptied the cache, a reader has the tags that the tables hold now.
  pub effective_tags-Serves :
      {s t : Served}
      → Serves s t
      → s.cache ≡ none
      → t.unfinished ≡ 0
      → (effective_tags t).0 ≡ build_group_effective_tags_map to_lowercase t.db
  unfolding effective_tags
  effective_tags-Serves {s} {t} path n done = elim (Serves-HasFitCache path n) [
    | inl busy ↦ absurd (omega arith)
    | inr (inl empty) ↦ ap (λ c. (cached_or t c).0) empty
    | inr (inr full) ↦ ap (λ c. (cached_or t c).0) full
  ]
