-- ===== src/OAuth/Checks.antt =====
-- What each check of src/oauth-resource-server.ts has made sure of when it passes.
use Prim.Native.String
use b2_mcp.Base.{
  Bool, Bool-cases, List, Option, String, [], ap, arith, false, includes, inl, inr, leb, none, refl,
  some, str_eq_iff, true, ℕ, ◌+◌, ◌<◌, ◌==◌, ◌||◌, ◌∷◌, ◌≡◌, ◌≢◌, ◌≤◌, ◌⊎◌,
}
use b2_mcp.Json.{Fields, Json, get, num, undefined}
use b2_mcp.OAuth.Claims.{
  Checked, OAuthErrorCode, OAuthResourceServerConfig, VerifiedClaimsSource, algorithm_claim,
  assert_allowed_algorithm, assert_allowed_subject, assert_token_algorithm, demand, failed,
  introspection, invalid_token, is_candidate, is_issuer, jwt, jwt_numeric_date_claim, live,
  no_later, passed, present, values, ◌>>=◌,
}

-- A chain of checks passes only if its first one does.
pub passed_first :
    {A : Type 0} (B : Type 0) (r : Checked A) (rest : A → Checked B) (b : B)
    → (r >>= rest) ≡ passed b
    → (a : A) × (r ≡ passed a) × (rest a ≡ passed b)
passed_first B (passed a) rest b e = (a, refl, e)
passed_first B (failed code message) rest b e = cc

pub demanded :
    (t : Bool) (code : OAuthErrorCode) (message : String) (u : Unit {0})
    → demand t code message ≡ passed u
    → t ≡ true
demanded true code message u e = refl
demanded false code message u e = cc

pub passed_same : {A : Type 0} (a b : A) → passed a ≡ passed b → a ≡ b
passed_same a b e = cc

-- The time up to which clocks may differ.
abbrev pub skew_of : VerifiedClaimsSource → ℕ
skew_of introspection = 0
skew_of (jwt algorithm skew) = skew

-- The token is for this deployment.
abbrev pub IsBound : VerifiedClaimsSource → Fields → OAuthResourceServerConfig → Type 0
IsBound introspection claims config =
    (includes config.resource (values (get "resource" claims)) ≡ true)
    × (includes config.audience (values (get "aud" claims)) ≡ true)
IsBound (jwt algorithm skew) claims config =
    (includes config.audience (values (get "aud" claims)) ≡ true)
    ⊎ (includes config.resource (values (get "resource" claims)) ≡ true)

-- The algorithm is one of those allowed, if the list says any.
abbrev pub IsAccepted : VerifiedClaimsSource → Fields → OAuthResourceServerConfig → Type 0
IsAccepted introspection claims config =
    (config.allowed_algorithms ≡ [])
    ⊎ ((a : String) × (algorithm_claim claims ≡ some a)
        × (includes a config.allowed_algorithms ≡ true))
IsAccepted (jwt algorithm skew) claims config =
    (config.allowed_jwt_algorithms ≡ []) ⊎ (includes algorithm config.allowed_jwt_algorithms ≡ true)

pub live_sound :
    (o : Option ℕ) (skew now exp : ℕ)
    → live o skew now ≡ passed exp
    → (o ≡ some exp) × (exp ≢ 0) × (now < exp + skew)
live_sound none skew now exp e = cc
live_sound (some t) skew now exp e = elim (Bool-cases ((t == 0) || leb (t + skew) now)) [
  | inl over ↦ cc (rw over at e)
  | inr still ↦
      let same = passed_same t exp (rw still at e) in
      (ap some same, ground (arith, still, same), ground (arith, still, same))
]

pub begun_sound : (o : Option ℕ) (limit t : ℕ) → no_later o limit ≡ true → o ≡ some t → t ≤ limit
begun_sound none limit t h e = cc
begun_sound (some u) limit t h e = ground (arith, h, e)

pub claimed_date :
    (v : Json) (message : String) (o : Option ℕ) (t : ℕ)
    → jwt_numeric_date_claim v message ≡ passed o
    → v ≡ num t
    → o ≡ some t
unfolding jwt_numeric_date_claim
claimed_date (num n) message o t e h = cc
claimed_date undefined message o t e h = cc
claimed_date _ message o t e h = cc

-- A time that the claims give is the number that they hold.
pub given_date :
    (v : Json) (message : String) (o : Option ℕ) (t : ℕ)
    → jwt_numeric_date_claim v message ≡ passed o
    → o ≡ some t
    → v ≡ num t
unfolding jwt_numeric_date_claim
given_date (num n) message o t e h = cc
given_date undefined message o t e h = cc
given_date _ message o t e h = cc

pub either_true : (a b : Bool) → (a || b) ≡ true → (a ≡ true) ⊎ (b ≡ true)
either_true true b h = inl refl
either_true false b h = inr h

pub candidate_sound :
    (issuer : String) (allowed : List String) (o : Option String)
    → is_candidate issuer allowed o ≡ true
    → (s : String) × (o ≡ some s)
      × ((includes s allowed ≡ true)
          ⊎ (includes (String.◌++◌ issuer (String.◌++◌ "#" s)) allowed ≡ true))
candidate_sound issuer allowed none h = cc
candidate_sound issuer allowed (some s) h = (s, refl, either_true _ _ h)

pub allowed_sound :
    (a : String) (allowed : List String) (o : Option String)
    → assert_allowed_algorithm a allowed ≡ passed o
    → (allowed ≡ []) ⊎ (includes a allowed ≡ true)
unfolding assert_allowed_algorithm
allowed_sound a [] o e = inl refl
allowed_sound a (b ∷ allowed) o e = elim (Bool-cases (includes a (b ∷ allowed))) [
  | inl given ↦ inr given
  | inr missing ↦ cc (rw missing at e)
]

pub token_algorithm_sound :
    (claims : Fields) (allowed : List String) (o : Option String)
    → assert_token_algorithm claims allowed ≡ passed o
    → (allowed ≡ [])
      ⊎ ((a : String) × (algorithm_claim claims ≡ some a) × (includes a allowed ≡ true))
unfolding assert_token_algorithm
token_algorithm_sound claims [] o e = inl refl
token_algorithm_sound claims (b ∷ allowed) o e = by_claim (algorithm_claim claims) refl e
  where
    by_claim :
        (c : Option String)
        → algorithm_claim claims ≡ c
        → (present c "Token algorithm is not accepted" >>= λ a.
            assert_allowed_algorithm a (b ∷ allowed))
          ≡ passed o
        → ((b ∷ allowed) ≡ [])
          ⊎ ((a : String) × (algorithm_claim claims ≡ some a) × (includes a (b ∷ allowed) ≡ true))
    by_claim none claimed e = cc
    by_claim (some a) claimed e = elim (allowed_sound a (b ∷ allowed) o e) [
      | inl empty ↦ inl empty
      | inr given ↦ inr (a, claimed, given)
    ]

pub subject_sound :
    (subject : Option String) (issuer : String) (allowed : List String) (u : Unit {0})
    → assert_allowed_subject subject issuer allowed ≡ passed u
    → (allowed ≡ []) ⊎ (is_candidate issuer allowed subject ≡ true)
unfolding assert_allowed_subject
subject_sound subject issuer [] u e = inl refl
subject_sound subject issuer (a ∷ allowed) u e =
    inr (demanded (is_candidate issuer (a ∷ allowed) subject) invalid_token _ u e)

pub issuer_sound :
    (expected : String) (o : Option String) → is_issuer expected o ≡ true → o ≡ some expected
issuer_sound expected none h = cc
issuer_sound expected (some s) h = ap some ((str_eq_iff s expected).0 h)
