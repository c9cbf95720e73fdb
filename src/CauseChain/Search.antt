-- ===== src/CauseChain/Search.antt =====
-- What the search of src/utils/named-error.ts finds: the first match along the causes.
use b2_mcp.Base.{
  ==_iff, All, Bool-cases, List, Option, Option-cases, [], ap, arith, false, has, inl, inr, length,
  none, refl, some, subst, suc, sym, true, zero, ℕ, ◌<◌, ◌==◌, ◌↔◌, ◌∙◌, ◌∷◌, ◌≡◌,
}
use b2_mcp.Value.{Store, Value, is_object, ref, undefined}
use b2_mcp.CauseChain.Total.{find_in_cause_chain_total}
use b2_mcp.CauseChain.{
  add_seen, blocked, error_cause, find_in_cause_chain, find_inner, is_undefined,
}

object_of_unblocked : (v : Value) (seen : List ℕ) → blocked v seen ≡ false → is_object v ≡ true
object_of_unblocked (ref a) seen e = refl
object_of_unblocked _ seen e = cc

module _ {ℓ} {T : Type ℓ} (h : Store) (predicate : Value → Option T) where
  -- `r` is what the predicate gives for the value `n` causes further on, and it gives nothing for
  -- the values before that one, all of which are objects with a cause.
  pub data FirstMatch (r : T) : ℕ → Value → Type ℓ where
    here : {n : ℕ} {v : Value} → n ≡ 0 → predicate v ≡ some r → FirstMatch r n v
    via :
        {n m : ℕ} {v : Value}
        → m ≡ suc n
        → predicate v ≡ none
        → is_object v ≡ true
        → is_undefined (error_cause h v) ≡ false
        → FirstMatch r n (error_cause h v)
        → FirstMatch r m v

  FirstMatch-depth : {r : T} {n m : ℕ} {v : Value} → FirstMatch r n v → FirstMatch r m v → n ≡ m
  FirstMatch-depth (here e p) (here e' p') = e ∙ sym e'
  FirstMatch-depth (here e p) (via e' p' o u f) = cc
  FirstMatch-depth (via e p o u f) (here e' p') = cc
  FirstMatch-depth (via e p o u f) (via e' p' o' u' f') = omega (arith, FirstMatch-depth f f')

  find_inner_sound :
      (fuel : ℕ) (v : Value) (seen : List ℕ) (r : T)
      → find_inner h predicate fuel v seen ≡ some (some r)
      → (n : ℕ) × FirstMatch r n v
  unfolding find_inner
  find_inner_sound zero v seen r e = cc
  find_inner_sound (suc fuel) v seen r e = elim (Option-cases (predicate v)) [
    | inr (t, found) ↦ (0, here refl (ground arith))
    | inl missed ↦ elim (Bool-cases (blocked v seen)) [
      | inl stop ↦ absurd (ground arith)
      | inr go ↦ elim (Bool-cases (is_undefined (error_cause h v))) [
        | inl end ↦ absurd (ground arith)
        | inr more ↦
            let (n, f) =
              find_inner_sound fuel (error_cause h v) (add_seen v seen) r (ground arith) in
            (suc n, via refl missed (object_of_unblocked v seen go) more f)
      ]
    ]
  ]

  -- The objects seen so far all stand before `v` on the way to the match.
  abbrev Before : T → ℕ → List ℕ → Type ℓ
  Before r n seen = All (λ a. (m : ℕ) × (n < m) × FirstMatch r m (ref a)) seen

  Before-fewer : (r : T) (n : ℕ) (seen : List ℕ) → Before r (suc n) seen → Before r n seen
  Before-fewer r n [] b = tt
  Before-fewer r n (a ∷ seen) ((m, lt, f), b) = ((m, omega arith, f), Before-fewer r n seen b)

  add_seen-Before :
      (r : T) (n : ℕ) (v : Value) (seen : List ℕ)
      → Before r (suc n) seen
      → FirstMatch r (suc n) v
      → Before r n (add_seen v seen)
  add_seen-Before r n (ref a) seen b f = ((suc n, omega arith, f), Before-fewer r n seen b)
  add_seen-Before r n undefined seen b f = Before-fewer r n seen b
  add_seen-Before r n _ seen b f = Before-fewer r n seen b

  not_seen :
      (r : T) (n a : ℕ) (seen : List ℕ)
      → Before r n seen
      → FirstMatch r n (ref a)
      → has a seen ≡ false
  not_seen r n a [] b f = refl
  not_seen r n a (x ∷ seen) ((m, lt, f'), b) f = elim (Bool-cases (x == a)) [
    | inl same ↦ absurd (
        omega (
          arith,
          FirstMatch-depth f (subst (λ y. FirstMatch r m (ref y)) ((==_iff x a).0 same) f'),
        ))
    | inr other ↦ rw other (not_seen r n a seen b f)
  ]

  unblocked :
      (r : T) (n : ℕ) (v : Value) (seen : List ℕ)
      → Before r n seen
      → FirstMatch r n v
      → is_object v ≡ true
      → blocked v seen ≡ false
  unblocked r n (ref a) seen b f o = not_seen r n a seen b f
  unblocked r n _ seen b f o = cc

  find_inner_complete :
      (fuel n : ℕ) (v : Value) (seen : List ℕ) (r : T) (out : Option T)
      → find_inner h predicate fuel v seen ≡ some out
      → FirstMatch r n v
      → Before r n seen
      → out ≡ some r
  unfolding find_inner
  find_inner_complete zero n v seen r out e f b = cc
  find_inner_complete (suc fuel) n v seen r out e (here z p) b = ground arith
  find_inner_complete (suc fuel) m v seen r out e (via {n = n} s p o u f) b =
      let whole : FirstMatch r (suc n) v = via refl p o u f in
      let before : Before r (suc n) seen = subst (λ k. Before r k seen) s b in
      let go = unblocked r (suc n) v seen before whole o in
      find_inner_complete fuel n (error_cause h v) (add_seen v seen) r out (ground arith) f
        (add_seen-Before r n v seen before whole)

  -- The search gives `r` exactly when the first value along the causes for which the predicate
  -- gives something gives `r`; a cycle of causes hides no match and makes up none.
  pub find_in_cause_chain_iff :
      (v : Value) (r : T)
      → (find_in_cause_chain h predicate v ≡ some r) ↔ ((n : ℕ) × FirstMatch r n v)
  find_in_cause_chain_iff v r = (
    λ e.
        find_inner_sound (suc (length h)) v [] r
          (find_in_cause_chain_total h predicate v ∙ ap some e),
    λ (n, f).
        find_inner_complete (suc (length h)) n v [] r _ (find_in_cause_chain_total h predicate v) f
          tt,
  )
