-- ===== src/Downloads/Tokens.antt =====
-- src/services/downloads.rs, `pause_unchecked`: which tokens it cancels.
use curator_rs.Prelude.{
  ℕ, ◌≡◌, refl, Bool, true, not, ◌||◌, List, [], ◌∷◌, ◌++◌, ==_iff, arith, All, member, keep,
  member-keep,
}
use curator_rs.Downloads.Controls.{
  DownloadState, keys, cancel_token, pause_process, pause_processes, pause_token, pause_tokens,
}

-- Each token is cancelled, or its id is among these.
abbrev pub CancelledBut : List ℕ → List (ℕ × Bool) → Type 0
CancelledBut ids = All (λ (e : ℕ × Bool). (e.1 || member e.0 ids) ≡ true)

cancel_token-CancelledBut :
    (id : ℕ) (ids : List ℕ) (m : List (ℕ × Bool))
    → CancelledBut (id ∷ ids) m
    → CancelledBut ids (cancel_token id m)
unfolding cancel_token
cancel_token-CancelledBut id ids [] h = tt
cancel_token-CancelledBut id ids ((k, b) ∷ m) (h, hs) =
    (ground (arith, ==_iff id k, ==_iff k id), cancel_token-CancelledBut id ids m hs)

-- The tokens that a sequence of cancellations makes of these.
unfoldable pub cancel_each : List ℕ → List (ℕ × Bool) → List (ℕ × Bool)
cancel_each [] m = m
cancel_each (id ∷ ids) m = cancel_each ids (cancel_token id m)

pub cancel_each-CancelledBut :
    (ids rest : List ℕ) (m : List (ℕ × Bool))
    → CancelledBut (ids ++ rest) m
    → CancelledBut rest (cancel_each ids m)
unfolding cancel_each
cancel_each-CancelledBut [] rest m h = h
cancel_each-CancelledBut (id ∷ ids) rest m h =
    cancel_each-CancelledBut ids rest (cancel_token id m)
      (cancel_token-CancelledBut id (ids ++ rest) m h)

pub CancelledBut-nil :
    (m : List (ℕ × Bool)) → CancelledBut [] m → All (λ (e : ℕ × Bool). e.1 ≡ true) m
CancelledBut-nil [] h = tt
CancelledBut-nil ((k, b) ∷ m) (h, hs) = (ground arith, CancelledBut-nil m hs)

member-append : (n : ℕ) (xs ys : List ℕ) → member n (xs ++ ys) ≡ (member n xs || member n ys)
member-append n [] ys = refl
member-append n (x ∷ xs) ys = ground (arith, member-append n xs ys)

-- A token's source has a process, or waits.
pub CancelledBut-waiting :
    (active all : List ℕ) (m : List (ℕ × Bool))
    → All (λ (e : ℕ × Bool). member e.0 all ≡ true) m
    → CancelledBut (active ++ keep (λ id. not (member id active)) all) m
CancelledBut-waiting active all [] h = tt
CancelledBut-waiting active all ((k, b) ∷ m) (h, hs) = (
  ground (
    arith,
    member-append k active (keep (λ id. not (member id active)) all),
    member-keep (λ id. not (member id active)) k all,
  ),
  CancelledBut-waiting active all m hs,
)

All-member_cons :
    (k : ℕ) (ks : List ℕ) (m : List (ℕ × Bool))
    → All (λ (e : ℕ × Bool). member e.0 ks ≡ true) m
    → All (λ (e : ℕ × Bool). member e.0 (k ∷ ks) ≡ true) m
All-member_cons k ks [] h = tt
All-member_cons k ks ((j, b) ∷ m) (h, hs) = (ground arith, All-member_cons k ks m hs)

pub All-member-keys : (m : List (ℕ × Bool)) → All (λ (e : ℕ × Bool). member e.0 (keys m) ≡ true) m
All-member-keys [] = tt
All-member-keys ((k, b) ∷ m) = (ground arith, All-member_cons k (keys m) m (All-member-keys m))

pub tokens-pause_processes :
    (ps : List (ℕ × ℕ)) (st : DownloadState)
    → (pause_processes ps st).tokens ≡ cancel_each (keys ps) st.tokens
unfolding pause_processes pause_process cancel_each
tokens-pause_processes [] st = refl
tokens-pause_processes ((id, pid) ∷ ps) st = tokens-pause_processes ps (pause_process (id, pid) st)

pub tokens-pause_tokens :
    (ids : List ℕ) (st : DownloadState) → (pause_tokens ids st).tokens ≡ cancel_each ids st.tokens
unfolding pause_tokens pause_token cancel_each
tokens-pause_tokens [] st = refl
tokens-pause_tokens (id ∷ ids) st = tokens-pause_tokens ids (pause_token id st)
