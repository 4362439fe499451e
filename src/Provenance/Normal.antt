-- ===== src/Provenance/Normal.antt =====
-- src/provenance.rs, `normalize_tag`: the names that it gives.
use mathlib.Core.List.{reverse, reverse-append, reverse-reverse, append_assoc}
use curator_rs.Prelude.{
  ℕ, ◌+◌, ◌≤◌, ◌≡◌, ◌∙◌, refl, sym, ap, true, false, not, ◌&&◌, Bool-cases, inl, inr, some, List,
  [], ◌∷◌, ◌++◌, map, leb, is_empty, all, arith,
}
use curator_rs.Ascii.{drop_spaces, trimmed, to_lower, lowered, byte_length}
use curator_rs.Text.{is_whitespace}
use curator_rs.Provenance.Names.{goes_on, put_first, words, join_words, spaced, normalize_tag}

-- A word is not empty and has no white space; a list of words.
abbrev IsWord : List ℕ → Type 0
IsWord w = (is_empty w ≡ false) × (all (λ c. not (is_whitespace c)) w ≡ true)

abbrev AreWords : List (List ℕ) → Type 0
AreWords [] = Unit {0}
AreWords (w ∷ ws) = IsWord w × AreWords ws

put_first-AreWords :
    (c : ℕ) (ws : List (List ℕ)) → is_whitespace c ≡ false → AreWords ws → AreWords (put_first c ws)
put_first-AreWords c [] n h = ((refl, ground arith), tt)
put_first-AreWords c (w ∷ ws) n (h, hs) = ((refl, ground arith), hs)

words-AreWords : (s : List ℕ) → AreWords (words s)
unfolding words
words-AreWords [] = tt
words-AreWords (c ∷ s) = elim (Bool-cases (is_whitespace c)) [
  | inl t ↦ rw t (words-AreWords s)
  | inr f ↦ elim (Bool-cases (goes_on s)) [
    | inl t ↦ rw (f, t) (put_first-AreWords c (words s) f (words-AreWords s))
    | inr g ↦ rw (f, g) ((refl, ground arith), words-AreWords s)
  ]
]

-- A word before a space, or at the end, is taken whole.
words-space : (w t : List ℕ) → IsWord w → words (w ++ 32 ∷ t) ≡ w ∷ words t
unfolding words is_whitespace
words-space [] t (h, _) = absurd (cc)
words-space (c ∷ []) t (h, n) = ground arith
words-space (c ∷ d ∷ w) t (h, n) =
    let rest = words-space (d ∷ w) t (refl, ground arith) in ground (arith, rest)

words-word : (w : List ℕ) → IsWord w → words w ≡ w ∷ []
unfolding words
words-word [] (h, _) = absurd (cc)
words-word (c ∷ []) (h, n) = ground arith
words-word (c ∷ d ∷ w) (h, n) =
    let rest = words-word (d ∷ w) (refl, ground arith) in ground (arith, rest)

words-join_words : (ws : List (List ℕ)) → AreWords ws → words (join_words ws) ≡ ws
unfolding join_words
words-join_words [] h = unfold words in refl
words-join_words (w ∷ []) (h, _) = words-word w h
words-join_words (w ∷ v ∷ ws) (h, hs) =
    words-space w (join_words (v ∷ ws)) h ∙ ap (λ r. w ∷ r) (words-join_words (v ∷ ws) hs)

-- Texts that end in a character that is no white space.
abbrev EndsInWord : List ℕ → Type 0
EndsInWord s = (xs : List ℕ) × (c : ℕ) × (s ≡ xs ++ c ∷ []) × (is_whitespace c ≡ false)

word-EndsInWord : (w : List ℕ) → IsWord w → EndsInWord w
word-EndsInWord [] (h, _) = absurd (cc)
word-EndsInWord (c ∷ []) (h, n) = ([], c, refl, ground arith)
word-EndsInWord (c ∷ d ∷ w) (h, n) =
    let (xs, e, same, f) = word-EndsInWord (d ∷ w) (refl, ground arith) in
    (c ∷ xs, e, ap (λ r. c ∷ r) same, f)

join_words-EndsInWord :
    (w : List ℕ) (ws : List (List ℕ)) → AreWords (w ∷ ws) → EndsInWord (join_words (w ∷ ws))
unfolding join_words
join_words-EndsInWord w [] (h, _) = word-EndsInWord w h
join_words-EndsInWord w (v ∷ ws) (h, hs) =
    let (xs, c, same, f) = join_words-EndsInWord v ws hs in
    (w ++ 32 ∷ xs, c, ap (λ r. w ++ 32 ∷ r) same ∙ sym (append_assoc w (32 ∷ xs) (c ∷ [])), f)

join_words-goes_on :
    (w : List ℕ) (ws : List (List ℕ)) → AreWords (w ∷ ws) → goes_on (join_words (w ∷ ws)) ≡ true
unfolding join_words
join_words-goes_on [] ws ((h, _), _) = absurd (cc)
join_words-goes_on (c ∷ w) [] ((h, n), _) = ground arith
join_words-goes_on (c ∷ w) (v ∷ ws) ((h, n), _) = ground arith

drop_spaces-goes_on : (s : List ℕ) → goes_on s ≡ true → drop_spaces s ≡ s
unfolding drop_spaces
drop_spaces-goes_on [] h = absurd (cc)
drop_spaces-goes_on (c ∷ s) h = ground arith

trimmed-tight : (s : List ℕ) → goes_on s ≡ true → EndsInWord s → trimmed s ≡ s
unfolding trimmed
trimmed-tight s h (xs, c, same, f) =
    let turned : reverse s ≡ c ∷ reverse xs = ap reverse same ∙ reverse-append xs (c ∷ []) in
    let kept : drop_spaces (reverse s) ≡ reverse s =
      drop_spaces-goes_on (reverse s) (ap goes_on turned ∙ ap not f) in
    ap (λ r. reverse (drop_spaces (reverse r))) (drop_spaces-goes_on s h)
    ∙ ap reverse kept
    ∙ reverse-reverse s

trimmed-join_words : (ws : List (List ℕ)) → AreWords ws → trimmed (join_words ws) ≡ join_words ws
trimmed-join_words [] h = unfold trimmed drop_spaces join_words in refl
trimmed-join_words (w ∷ ws) h =
    trimmed-tight (join_words (w ∷ ws)) (join_words-goes_on w ws h) (join_words-EndsInWord w ws h)

is_whitespace-letter : (c : ℕ) → 65 ≤ c → c ≤ 90 → is_whitespace (c + 32) ≡ is_whitespace c
unfolding is_whitespace
is_whitespace-letter c h k = ground arith

is_whitespace-to_lower : (c : ℕ) → is_whitespace (to_lower c) ≡ is_whitespace c
unfolding to_lower
is_whitespace-to_lower c = elim (Bool-cases (leb b'A' c && leb c b'Z')) [
  | inl t ↦ rw t (is_whitespace-letter c (ground arith) (ground arith))
  | inr f ↦ rw f refl
]

to_lower-to_lower : (c : ℕ) → to_lower (to_lower c) ≡ to_lower c
unfolding to_lower
to_lower-to_lower c = ground arith

lowered-lowered : (s : List ℕ) → lowered (lowered s) ≡ lowered s
unfolding lowered
lowered-lowered [] = refl
lowered-lowered (c ∷ s) = ground (arith, lowered-lowered s, to_lower-to_lower c)

lowered-append : (s t : List ℕ) → lowered (s ++ t) ≡ lowered s ++ lowered t
unfolding lowered
lowered-append [] t = refl
lowered-append (c ∷ s) t = ground (arith, lowered-append s t)

lowered-IsWord : (w : List ℕ) → IsWord w → IsWord (lowered w)
unfolding lowered
lowered-IsWord [] (h, _) = absurd (cc)
lowered-IsWord (c ∷ []) (h, n) = (refl, ground (arith, is_whitespace-to_lower c))
lowered-IsWord (c ∷ d ∷ w) (h, n) =
    let rest = lowered-IsWord (d ∷ w) (refl, ground arith) in
    (refl, ground (arith, is_whitespace-to_lower c, rest))

lowered-AreWords : (ws : List (List ℕ)) → AreWords ws → AreWords (map lowered ws)
lowered-AreWords [] h = tt
lowered-AreWords (w ∷ ws) (h, hs) = (lowered-IsWord w h, lowered-AreWords ws hs)

lowered-space : (s : List ℕ) → lowered (32 ∷ s) ≡ 32 ∷ lowered s
unfolding lowered to_lower
lowered-space s = refl

lowered-join_words : (ws : List (List ℕ)) → lowered (join_words ws) ≡ join_words (map lowered ws)
unfolding join_words
lowered-join_words [] = unfold lowered in refl
lowered-join_words (w ∷ []) = refl
lowered-join_words (w ∷ v ∷ ws) =
    let rest = lowered-join_words (v ∷ ws) in
    lowered-append w (32 ∷ join_words (v ∷ ws))
    ∙ ap (λ r. lowered w ++ r) (lowered-space (join_words (v ∷ ws)))
    ∙ ap (λ r. lowered w ++ 32 ∷ r) rest

spaced-words : (raw : List ℕ) → spaced raw ≡ join_words (map lowered (words raw))
unfolding spaced
spaced-words raw =
    ap lowered (trimmed-join_words (words raw) (words-AreWords raw))
    ∙ lowered-join_words (words raw)

lowered-spaced : (raw : List ℕ) → lowered (spaced raw) ≡ spaced raw
unfolding spaced
lowered-spaced raw = lowered-lowered (trimmed (join_words (words raw)))

spaced-spaced : (raw : List ℕ) → spaced (spaced raw) ≡ spaced raw
spaced-spaced raw =
    let low = map lowered (words raw) in
    let small : AreWords low = lowered-AreWords (words raw) (words-AreWords raw) in
    let again : words (spaced raw) ≡ low =
      ap words (spaced-words raw) ∙ words-join_words low small in
    spaced-words (spaced raw)
    ∙ ap (λ ws. join_words (map lowered ws)) again
    ∙ sym (lowered-join_words low)
    ∙ ap lowered (sym (spaced-words raw))
    ∙ lowered-spaced raw

-- A name that normalizing gives is a fixed point: normalizing it again gives it.
pub normalize_tag-normalize_tag :
    (raw name : List ℕ) → normalize_tag raw ≡ some name → normalize_tag name ≡ some name
unfolding normalize_tag
normalize_tag-normalize_tag raw name h =
    let same : spaced raw ≡ name = ground arith in
    let again : spaced name ≡ name = ap spaced (sym same) ∙ spaced-spaced raw ∙ same in
    ground (arith, ap is_empty again, ap is_empty same, ap byte_length again, ap byte_length same)
