-- ===== src/Downloads/Retry.antt =====
-- src/downloader.rs: what the output of gallery-dl says of a failure, and how long to wait.
use curator_rs.Prelude.{
  ℕ, ◌-◌, ◌*◌, ◌^◌, Bool, false, not, ◌&&◌, ◌||◌, List, [], ◌∷◌, ◌==◌, min, keep, if◌then◌else◌,
  unwrap_or, is_empty,
}
use curator_rs.Ascii.{
  codes, lowered, contains_text, contains_one_of, after_text, before_byte, after_last, trimmed,
  last_chars, lines, joined,
}
use curator_rs.Session.State.{ℤ, pos, negsuc}

abbrev pub max_transient_retries : ℕ
max_transient_retries = 6

-- The host of a URL, without user and port.
unfoldable pub provider_key : List ℕ → List ℕ
provider_key url = lowered (
    trimmed (
      before_byte b':'
        (after_last b'@' (before_byte b'/' (unwrap_or (after_text (codes "://") url) url)))))

unfoldable pub rate_limited : List ℕ → Bool
rate_limited log =
    contains_one_of ("429" ∷ "too many requests" ∷ "rate limit" ∷ "rate-limit" ∷ []) (lowered log)

unfoldable pub filesize_skip_output : List ℕ → Bool
filesize_skip_output log =
    contains_one_of ("filesize" ∷ "file size" ∷ []) (lowered log)
    && contains_one_of ("skip" ∷ "larger" ∷ "exceed" ∷ []) (lowered log)

unfoldable pub is_exit : ℕ → ℤ → Bool
is_exit n (pos k) = k == n
is_exit n (negsuc k) = false

unfoldable pub retryable_failure : ℤ → List ℕ → Bool
retryable_failure exit_code log =
    not (filesize_skip_output log)
    && (is_exit 4 exit_code
        || rate_limited log
        || contains_one_of
            ("incompleteread" ∷ "connection broken" ∷ "connection reset" ∷ "connection aborted"
              ∷ "timed out" ∷ "timeout" ∷ "temporary failure" ∷ "temporarily unavailable"
              ∷ "network is unreachable" ∷ "name or service not known" ∷ "dns" ∷ "http 500"
              ∷ "http 502" ∷ "http 503" ∷ "http 504" ∷ "service unavailable" ∷ [])
            (lowered log))

abbrev pub retry_base : Bool → ℕ
retry_base is_rate_limited = if is_rate_limited then 60 else 10

abbrev pub retry_cap : Bool → ℕ
retry_cap is_rate_limited = if is_rate_limited then 1800 else 300

-- The seconds before an attempt.
unfoldable pub retry_delay : ℕ → Bool → ℕ
retry_delay attempt is_rate_limited =
    min (retry_base is_rate_limited * 2 ^ min (attempt - 1) 8) (retry_cap is_rate_limited)

unfoldable pub short_error_summary : List ℕ → List ℕ
short_error_summary log = trimmed (
    last_chars 500
      (joined (keep (λ l. not (contains_text l (codes "RequestsDependencyWarning"))) (lines log))))

-- `detail`, the summary or the end of the text.
unfoldable pub error_detail : List ℕ → List ℕ
error_detail log =
    let summary = short_error_summary log in
    if is_empty summary then last_chars 4000 log else summary
