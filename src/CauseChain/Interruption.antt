-- ===== src/CauseChain/Interruption.antt =====
-- src/utils/named-error.ts: telling aborts, timeouts and lost responses. Texts are matched by
-- their code points, letters without regard to case.
use b2_mcp.Base.{
  Bool, List, Option, String, [], any, codes, false, if◌then◌else◌, includes, is_some, leb, none,
  not, refl, some, true, ℕ, ◌&&◌, ◌+◌, ◌==◌, ◌||◌, ◌∷◌, ◌≡◌,
}
use b2_mcp.Value.{Store, Value, as_str, is_text, prop}

unfoldable pub is_abort_error : Store → Value → Bool
is_abort_error h e = is_text (prop h e "name") "AbortError"

unfoldable pub is_timeout_error : Store → Value → Bool
is_timeout_error h e = is_text (prop h e "name") "TimeoutError"

abbrev response_lost_error_codes : List String
response_lost_error_codes = "ECONNRESET" ∷ "ECONNABORTED" ∷ "UND_ERR_SOCKET" ∷ []

-- Letters, digits and `_`, which `\b` tells from the rest.
is_word : ℕ → Bool
is_word c =
    (leb b'a' c && leb c b'z')
    || (leb b'A' c && leb c b'Z')
    || (leb b'0' c && leb c b'9')
    || c == b'_'

lower : ℕ → ℕ
lower c = if leb b'A' c && leb c b'Z' then c + 32 else c

-- What follows `t` in `s`, where `s` starts with it.
after_prefix : List ℕ → List ℕ → Option (List ℕ)
after_prefix [] s = some s
after_prefix (c ∷ t) [] = none
after_prefix (c ∷ t) (d ∷ s) =
    let rest = after_prefix t s in if lower c == lower d then rest else none

ends_word : Option (List ℕ) → Bool
ends_word none = false
ends_word (some []) = true
ends_word (some (c ∷ s)) = not (is_word c)

-- `/phrase/i`
contains : List ℕ → List ℕ → Bool
contains t [] = is_some (after_prefix t [])
contains t (c ∷ s) = is_some (after_prefix t (c ∷ s)) || contains t s

-- `/\bword\b/i`, with whether the character before is a word's.
contains_word : Bool → List ℕ → List ℕ → Bool
contains_word inside t [] = not inside && ends_word (after_prefix t [])
contains_word inside t (c ∷ s) =
    (not inside && ends_word (after_prefix t (c ∷ s))) || contains_word (is_word c) t s

-- RESPONSE_LOST_MESSAGE_PATTERN
unfoldable pub response_lost_message : List ℕ → Bool
unfolding contains_word contains ends_word after_prefix lower is_word
response_lost_message s =
    any (λ w. contains_word false (codes w) s) response_lost_error_codes
    || any (λ p. contains (codes p) s)
        ("socket hang up" ∷ "connection reset" ∷ "connection aborted" ∷ "connection closed"
          ∷ "other side closed" ∷ "premature close" ∷ [])

abbrev listed_code : Option String → Bool
listed_code none = false
listed_code (some code) = includes code response_lost_error_codes

abbrev lost_message : Option String → Bool
lost_message none = false
lost_message (some m) = response_lost_message (codes m)

unfoldable pub is_response_lost_transport_error : Store → Value → Bool
unfolding response_lost_message
is_response_lost_transport_error h e =
    listed_code (as_str (prop h e "code")) || lost_message (as_str (prop h e "message"))

lost_by_message :
    (response_lost_message (codes "read ECONNRESET") ≡ true)
    × (response_lost_message (codes "Socket Hang Up") ≡ true)
    × (response_lost_message (codes "XECONNRESET") ≡ false)
unfolding response_lost_message
lost_by_message = (refl, refl, refl)
