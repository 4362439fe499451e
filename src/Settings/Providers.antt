-- ===== src/Settings/Providers.antt =====
-- src/services/settings.rs, `apply_search_providers`: which providers are left.
use curator_rs.Prelude.{
  ℕ, ◌≡◌, refl, ap, ◌∙◌, subst, true, false, ◌||◌, Bool-cases, inl, inr, Option, none, some, List,
  [], ◌∷◌, ◌++◌, ok, any, ==_iff, if◌then◌else◌, reject_if-ok, arith,
}
use curator_rs.Ascii.{codes, same}
use curator_rs.Settings.State.{provider_id}
use curator_rs.Settings.Checks.{is_bad_provider, provider_of, is_text}
use curator_rs.Settings.Apply.{collect_providers, with_local}

-- The providers that a patch leaves: the old ones, or those that it names and the local one, and no
-- others.
abbrev pub IsChosen : Option (List (List ℕ)) → List (List ℕ) → List (List ℕ) → Type 0
IsChosen none old ps = ps ≡ old
IsChosen (some values) old ps =
    (q : List ℕ)
    → any (same q) ps ≡ (any (λ raw. same q (provider_of raw)) values || same q (codes "local"))

same_eq : (s t : List ℕ) → same s t ≡ true → s ≡ t
unfolding same
same_eq [] [] h = refl
same_eq [] (y ∷ t) h = absurd (cc)
same_eq (x ∷ s) [] h = absurd (cc)
same_eq (x ∷ s) (y ∷ t) h =
    let head : x ≡ y = (==_iff x y).0 (ground arith) in
    let tail : s ≡ t = same_eq s t (ground arith) in cc

any-append :
    (q id : List ℕ) (ps : List (List ℕ))
    → any (same q) (ps ++ id ∷ []) ≡ (any (same q) ps || same q id)
any-append q id [] = ground arith
any-append q id (p ∷ ps) = ground (arith, any-append q id ps)

-- The providers after one more.
abbrev with_provider : List ℕ → List (List ℕ) → List (List ℕ)
with_provider q ps = if any (same q) ps then ps else ps ++ q ∷ []

any-with_provider :
    (q id : List ℕ) (ps : List (List ℕ))
    → any (same q) (with_provider id ps) ≡ (any (same q) ps || same q id)
any-with_provider q id ps = elim (Bool-cases (any (same id) ps)) [
  | inr f ↦ rw f (any-append q id ps)
  | inl t ↦ elim (Bool-cases (same q id)) [
    | inl e ↦
        let there : any (same q) ps ≡ true = ap (λ i. any (same i) ps) (same_eq q id e) ∙ t in
        rw (t, e) (ground arith)
    | inr e ↦ rw (t, e) (ground arith)
  ]
]

any-collect_providers :
    (q : List ℕ) (values acc ps : List (List ℕ))
    → collect_providers acc values ≡ ok ps
    → any (same q) ps ≡ (any (same q) acc || any (λ raw. same q (provider_of raw)) values)
unfolding collect_providers
any-collect_providers q [] acc ps e =
    let end : acc ≡ ps = ground arith in
    subst (λ l. any (same q) l ≡ (any (same q) acc || false)) end (ground arith)
any-collect_providers q (raw ∷ values) acc ps e =
    let next = with_provider (provider_of raw) acc in
    let (good, rest) =
      reject_if-ok (is_bad_provider (provider_of raw)) provider_id (collect_providers next values)
        ps e in
    let later = any-collect_providers q values next ps rest in
    let added = any-with_provider q (provider_of raw) acc in ground arith

any-with_local :
    (q : List ℕ) (ps : List (List ℕ))
    → any (same q) (with_local ps) ≡ (any (same q) ps || same q (codes "local"))
unfolding with_local is_text
any-with_local q ps = elim (Bool-cases (any (same (codes "local")) ps)) [
  | inr f ↦ rw f (ground arith)
  | inl t ↦ elim (Bool-cases (same q (codes "local"))) [
    | inl e ↦
        let there : any (same q) ps ≡ true =
          ap (λ i. any (same i) ps) (same_eq q (codes "local") e) ∙ t in
        rw (t, e) (ground arith)
    | inr e ↦ rw (t, e) (ground arith)
  ]
]

pub with_local-IsChosen :
    (values old ps : List (List ℕ))
    → collect_providers [] values ≡ ok ps
    → IsChosen (some values) old (with_local ps)
with_local-IsChosen values old ps e q =
    let collected = any-collect_providers q values [] ps e in
    let local = any-with_local q ps in ground arith
