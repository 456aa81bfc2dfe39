-- ===== src/Aiops/Errors.antt =====
-- lib/aiops/execution/execution-errors.ts: the kinds of errors, and the classification of an
-- arbitrary thrown value by its name and message.
use adam_os.Base.{
  ℕ, ◌+◌, Bool, true, false, not, ◌&&◌, ◌||◌, List, [], ◌∷◌, any, leb, ◌==◌, if◌then◌else◌, Str,
  str, str_eq,
}

pub data ExecutionErrorKind : Type 0 where
  authentication timeout rate_limit provider_unavailable : ExecutionErrorKind
  cancelled execution_failed security_violation validation_failed : ExecutionErrorKind

abbrev kind_code : ExecutionErrorKind → ℕ
kind_code authentication = 0
kind_code timeout = 1
kind_code rate_limit = 2
kind_code provider_unavailable = 3
kind_code cancelled = 4
kind_code execution_failed = 5
kind_code security_violation = 6
kind_code validation_failed = 7

-- `kinds.includes(kind)`
unfoldable pub includes_kind : List ExecutionErrorKind → ExecutionErrorKind → Bool
includes_kind kinds kind = any (λ k. kind_code k == kind_code kind) kinds

pub record ExecutionError : Type 0 where
  pub kind : ExecutionErrorKind
  pub message : Str

-- A thrown value: an `ExecutionError`, or any other with its name and message.
pub data Thrown : Type 0 where
  execution : ExecutionError → Thrown
  other : Str → Str → Thrown

-- The patterns ignore the case of ASCII letters.
lower : ℕ → ℕ
lower c = if leb b'A' c && leb c b'Z' then c + 32 else c

-- `\s`
is_space : ℕ → Bool
is_space c =
    (leb 9 c && leb c 13)
    || c == 32
    || c == 160
    || c == 5760
    || (leb 8192 c && leb c 8202)
    || c == 8232
    || c == 8233
    || c == 8239
    || c == 8287
    || c == 12288
    || c == 65279

-- `\w`
is_word : ℕ → Bool
is_word c =
    (leb b'a' c && leb c b'z')
    || (leb b'A' c && leb c b'Z')
    || (leb b'0' c && leb c b'9')
    || c == b'_'

-- `[\s_-]`
is_separator : ℕ → Bool
unfolding is_space
is_separator c = is_space c || c == b'_' || c == b'-'

-- The pattern at the front of the text, with what follows as a test on the rest.
matches_prefix : Str → (Str → Bool) → Str → Bool
matches_prefix [] rest s = rest s
matches_prefix (p ∷ ps) rest [] = false
matches_prefix (p ∷ ps) rest (c ∷ cs) = lower c == p && matches_prefix ps rest cs

-- The test at some place of the text; `before` is the character in front.
anywhere : (Bool → Str → Bool) → Bool → Str → Bool
anywhere test before [] = test before []
anywhere test before (c ∷ cs) = test before (c ∷ cs) || anywhere test (is_word c) cs

has : Str → Str → Bool
has p = anywhere (λ _ s. matches_prefix p (λ _. true) s) false

-- Two words with at most one separator between them.
then_word : Str → Str → Bool
then_word q [] = matches_prefix q (λ _. true) []
then_word q (c ∷ cs) =
    matches_prefix q (λ _. true) (c ∷ cs) || (is_separator c && matches_prefix q (λ _. true) cs)

has_pair : Str → Str → Str → Bool
has_pair p q = anywhere (λ _ s. matches_prefix p (then_word q) s) false

-- The end of a word.
ends : Str → Bool
ends [] = true
ends (c ∷ cs) = not (is_word c)

-- `/\bcancel(l?ed)?\b/i`
is_cancel : Str → Bool
unfolding is_word lower matches_prefix anywhere ends
is_cancel =
    anywhere
      (λ before s.
        not before
        && (matches_prefix (str "cancel") ends s
            || matches_prefix (str "canceled") ends s
            || matches_prefix (str "cancelled") ends s))
      false

is_authentication : Str → Bool
unfolding is_word lower matches_prefix anywhere has then_word is_separator has_pair
is_authentication m =
    has (str "401") m
    || has (str "403") m
    || has (str "unauthorized") m
    || has (str "forbidden") m
    || has_pair (str "api") (str "key") m
    || has (str "is not set") m
    || has (str "token") m

is_rate_limit : Str → Bool
unfolding is_word lower matches_prefix anywhere has then_word is_separator has_pair
is_rate_limit m =
    has (str "429") m
    || has_pair (str "rate") (str "limit") m
    || has (str "quota") m
    || has (str "too many requests") m

is_timeout : Str → Bool
unfolding is_word lower matches_prefix anywhere has
is_timeout m =
    has (str "timeout") m
    || has (str "timed out") m
    || has (str "etimedout") m
    || has (str "deadline") m

is_unavailable : Str → Bool
unfolding is_word lower matches_prefix anywhere has
is_unavailable m =
    has (str "unavailable") m
    || has (str "503") m
    || has (str "502") m
    || has (str "504") m
    || has (str "enotfound") m
    || has (str "econnrefused") m
    || has (str "econnreset") m
    || has (str "network") m
    || has (str "fetch failed") m

classify : Str → Str → ExecutionErrorKind
unfolding is_cancel is_authentication is_rate_limit is_timeout is_unavailable
classify name message =
    if str_eq name (str "AbortError") || is_cancel message
    then cancelled
    else if is_authentication message
    then authentication
    else if is_rate_limit message
    then rate_limit
    else if is_timeout message
    then timeout
    else if is_unavailable message
    then provider_unavailable
    else execution_failed

unfoldable pub normalize_error : Thrown → ExecutionError
unfolding classify
normalize_error (execution e) = e
normalize_error (other name message) = record { kind = classify name message; message = message }

-- `isRetryable`: the transient kinds
unfoldable pub is_retryable : ExecutionErrorKind → Bool
unfolding includes_kind
is_retryable kind = includes_kind (timeout ∷ rate_limit ∷ provider_unavailable ∷ []) kind
