-- ===== src/Provenance/Rules.antt =====
-- src/provenance.rs: `upsert_rule` and `delete_rule`.
use curator_rs.Prelude.{
  ℕ, Bool, not, ◌&&◌, Option, some, none, List, [], ◌∷◌, ◌==◌, if◌then◌else◌, keep, any, is_some,
  ok, err, RowIds,
}
use curator_rs.Ascii.{codes, same, trimmed, lowered, is_one_of}
use curator_rs.Provenance.Names.{normalize_tag}
use curator_rs.Provenance.Rows.{
  Evidence, Outcome, TagRule, is_rule, normalized, rule_ids, name_required, tag_required, bad_rule,
}

pub record RuleInput : Type 0 where
  pub raw_name : List ℕ
  pub action : List ℕ
  pub normalized_name : Option (List ℕ)
  pub provider : Option (List ℕ)

module _ (ids : RowIds) where
  open ids use {next}

  -- `INSERT INTO source_tag_rules … ON CONFLICT … DO UPDATE`
  unfoldable pub write_rule : TagRule → List TagRule → List TagRule
  write_rule new [] = new ∷ []
  write_rule new (r ∷ rules) =
      let rest = write_rule new rules in
      if is_rule new.provider new.raw_name r
      then record r { action = new.action; normalized_name = new.normalized_name } ∷ rules
      else r ∷ rest

  abbrev pub provider_for : Option (List ℕ) → List ℕ
  provider_for none = []
  provider_for (some provider) = lowered (trimmed provider)

  unfoldable pub upsert_named : RuleInput → Option (List ℕ) → Evidence → Outcome (Unit {0})
  upsert_named input none db = (err tag_required, db)
  upsert_named input (some raw_name) db =
      if not (is_one_of ("add" ∷ "normalize" ∷ "skip" ∷ []) input.action)
      then (err bad_rule, db)
      else if same input.action (codes "normalize")
          && not (is_some (normalized input.normalized_name))
      then (err name_required, db)
      else (
        ok tt,
        record db {
          rules =
              write_rule
                record {
                  id = next (rule_ids db.rules);
                  provider = provider_for input.provider;
                  raw_name = raw_name;
                  action = input.action;
                  normalized_name = normalized input.normalized_name;
                }
                db.rules;
        },
      )

  unfoldable pub upsert_rule : RuleInput → Evidence → Outcome (Unit {0})
  upsert_rule input db = upsert_named input (normalize_tag input.raw_name) db

  -- Whether there was a rule.
  unfoldable pub delete_rule : ℕ → Evidence → Outcome Bool
  delete_rule id db = (
    ok (any (λ r. r.id == id) db.rules),
    record db { rules = keep (λ r. not (r.id == id)) db.rules },
  )
