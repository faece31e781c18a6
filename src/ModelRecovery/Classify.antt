-- ===== src/ModelRecovery/Classify.antt =====
-- `classify_failure` of src/model_response_recovery.rs and `parse_retry_after` of src/agent.rs: what
-- the text of a failure says about its cause and about the delay. A text is the list of its
-- characters' code points.
use fx_rust.Prelude.{
  ℕ, ◌+◌, ◌-◌, ◌*◌, Bool, List, [], ◌∷◌, map, Option, none, some, leb, if◌then◌else◌, any, find,
  is_some, String, chars, behind, to_ascii_lowercase, is_ascii_digit, take_while,
}
use fx_rust.Prelude.U64.{u64_max}
use fx_rust.ModelRecovery.Policy.{
  FailureCause, content_filter, request_limit_reached, rate_limited, authentication,
  provider_unavailable, transport_interrupted, max_retry_after_seconds,
}

-- `m.contains(n)`
abbrev pub contains_text : List ℕ → String → Bool
contains_text m needle = is_some (behind (chars needle) m)

abbrev contains_one : List ℕ → List String → Bool
contains_one m needles = any (contains_text m) needles

abbrev filter_words : List String
filter_words = "content filter" ∷ "safety" ∷ "refused to respond" ∷ "content_policy" ∷ []

abbrev limit_words : List String
limit_words = "request limit" ∷ "usage limit" ∷ "quota exceeded" ∷ []

abbrev rate_words : List String
rate_words = "429" ∷ "rate limit" ∷ "too many requests" ∷ []

abbrev authentication_words : List String
authentication_words = "401" ∷ "403" ∷ "unauthorized" ∷ "invalid api key" ∷ "authentication" ∷ []

abbrev provider_words : List String
provider_words = "502" ∷ "503" ∷ "504" ∷ "service unavailable" ∷ "bad gateway" ∷ "overloaded" ∷ []

abbrev transport_words : List String
transport_words =
    "connection" ∷ "connect" ∷ "timed out" ∷ "timeout" ∷ "eof" ∷ "unexpected end" ∷ "reset"
    ∷ "broken pipe" ∷ "tls" ∷ "certificate" ∷ "dns" ∷ "transport" ∷ []

unfoldable pub classify_failure : List ℕ → Option FailureCause
classify_failure message =
    let m = map to_ascii_lowercase message in
    if contains_one m filter_words
    then some content_filter
    else if contains_one m limit_words
    then some request_limit_reached
    else if contains_one m rate_words
    then some rate_limited
    else if contains_one m authentication_words
    then some authentication
    else if contains_one m provider_words
    then some provider_unavailable
    else if contains_one m transport_words
    then some transport_interrupted
    else none

-- `rest.parse::<u64>().ok()` on digits: an empty text and a number above the range are no number.
abbrev add_digit : Option ℕ → ℕ → Option ℕ
add_digit none c = none
add_digit (some n) c =
    if leb (n * 10 + (c - b'0')) u64_max then some (n * 10 + (c - b'0')) else none

abbrev digits_value : Option ℕ → List ℕ → Option ℕ
digits_value n [] = n
digits_value n (c ∷ s) = digits_value (add_digit n c) s

abbrev parse_digits : List ℕ → Option ℕ
parse_digits [] = none
parse_digits (c ∷ s) = digits_value (some 0) (c ∷ s)

abbrev at_most : ℕ → Option ℕ → Option ℕ
at_most bound none = none
at_most bound (some v) = if leb v bound then some v else none

abbrev retry_needles : List String
retry_needles = "retry after:" ∷ "retry-after:" ∷ "retry_after=" ∷ "retry after " ∷ []

abbrev seconds_behind : Option (List ℕ) → Option ℕ
seconds_behind none = none
seconds_behind (some rest) =
    at_most max_retry_after_seconds (parse_digits (take_while is_ascii_digit rest))

abbrev read_needle : List ℕ → Option String → Option ℕ
read_needle m none = none
read_needle m (some needle) = seconds_behind (behind (chars needle) m)

unfoldable pub parse_retry_after : List ℕ → Option ℕ
parse_retry_after msg =
    let m = map to_ascii_lowercase msg in read_needle m (find (contains_text m) retry_needles)
