-- ===== src/Concurrency/Workers.antt =====
-- What forEachBounded of src/utils/concurrency.ts does, however its workers interleave.
use b2_mcp.Base.{
  All, Bool, Bool-cases, List, [], ap, arith, false, get_elem?, get_or, if◌then◌else◌, inl, inr,
  leb, leb_iff, length, min, refl, subst, suc, sym, true, zero, ℕ, ◌+◌, ◌<◌, ◌∙◌, ◌∷◌, ◌≡◌, ◌≤◌,
  ◌⊎◌,
}
use b2_mcp.Concurrency.{
  Event, Options, Pool, Worker, aborts, copies, default_bounded_worker_concurrency, failed,
  for_each_bounded, is_ready, is_waiting, ready, rejects, reports_abort, resolves, returned, run,
  runs, step, update, waits, worker_count, worker_round,
}

-- The indices below `n`, the last first.
abbrev pub below : ℕ → List ℕ
below zero = []
below (suc n) = n ∷ below n

-- A worker has returned only because of an abort, or because no item was left.
abbrev pub HasReason : ℕ → ℕ → Bool → Worker → Type 0
HasReason n next aborted returned = (aborted ≡ true) ⊎ (n < next)
HasReason n next aborted _ = Unit

pub record IsSound (o : Options) (n : ℕ) (s : Pool) : Type 0 where
  pub in_order : s.called ≡ below (min n s.next_index)
  pub count : length s.workers ≡ worker_count o n
  pub reasons : All (HasReason n s.next_index s.aborted) s.workers

All-update :
    (P : Worker → Type 0) (i : ℕ) (w : Worker) (ws : List Worker)
    → P w
    → All P ws
    → All P (update i w ws)
All-update P i w [] p h = tt
All-update P zero w (v ∷ ws) p (q, h) = (p, h)
All-update P (suc i) w (v ∷ ws) p (q, h) = (q, All-update P i w ws p h)

length-update : (i : ℕ) (w : Worker) (ws : List Worker) → length (update i w ws) ≡ length ws
length-update i w [] = refl
length-update zero w (v ∷ ws) = refl
length-update (suc i) w (v ∷ ws) = ap suc (length-update i w ws)

-- A reason stays one.
more-reason :
    (n next : ℕ) (aborted : Bool) (w : Worker)
    → HasReason n next aborted w
    → HasReason n (next + 1) aborted w
more-reason n next aborted ready r = tt
more-reason n next aborted (waits i) r = tt
more-reason n next aborted returned (inl a) = inl a
more-reason n next aborted returned (inr l) = inr (omega (arith, l))
more-reason n next aborted failed r = tt

abort-reason :
    (n next : ℕ) (aborted : Bool) (w : Worker)
    → HasReason n next aborted w
    → HasReason n next true w
abort-reason n next aborted ready r = tt
abort-reason n next aborted (waits i) r = tt
abort-reason n next aborted returned r = inl refl
abort-reason n next aborted failed r = tt

All-map :
    {P Q : Worker → Type 0} (ws : List Worker) → ((w : Worker) → P w → Q w) → All P ws → All Q ws
All-map [] f h = tt
All-map (w ∷ ws) f (p, h) = (f w p, All-map ws f h)

min-suc : (n k : ℕ) → k < n → min n (k + 1) ≡ suc k
min-suc n k h = omega (arith, h)

min-left : (n k : ℕ) → k < n → min n k ≡ k
min-left n k h = omega (arith, h)

min-none : (n : ℕ) → 0 ≡ min n 0
min-none n = omega arith

min-all : (n k : ℕ) → n < k → min n k ≡ n
min-all n k h = omega (arith, h)

below-past : (n k : ℕ) → n ≤ k → below (min n (k + 1)) ≡ below (min n k)
below-past n k h = ap below (omega (arith, h))

below-next : (n k : ℕ) → k < n → below (min n (k + 1)) ≡ k ∷ below (min n k)
below-next n k h = rw (min-suc n k h, min-left n k h) refl

round-IsSound :
    (o : Options) (n w : ℕ) (s : Pool) → IsSound o n s → IsSound o n (worker_round n w s)
unfolding worker_round
round-IsSound o n w s x = elim (Bool-cases s.signal_aborted) [
  | inl stop ↦ rw stop (record {
    in_order = x.in_order;
    count = length-update w returned s.workers ∙ x.count;
    reasons =
        All-update _ w returned s.workers (inl refl)
          (All-map s.workers (abort-reason n s.next_index s.aborted) x.reasons);
  })
  | inr go ↦ elim (Bool-cases (leb n s.next_index)) [
    | inl past ↦
        let full = (leb_iff n s.next_index).0 past in
        rw (go, past)
          (record {
            in_order = x.in_order ∙ sym (below-past n s.next_index full);
            count = length-update w returned s.workers ∙ x.count;
            reasons =
                All-update _ w returned s.workers (inr (omega (arith, full)))
                  (All-map s.workers (more-reason n s.next_index s.aborted) x.reasons);
          })
    | inr left ↦
        rw (go, left)
          (record {
            in_order =
                ap (λ l. s.next_index ∷ l) x.in_order
                ∙ sym (below-next n s.next_index (ground (arith, left)));
            count = length-update w (waits s.next_index) s.workers ∙ x.count;
            reasons =
                All-update _ w (waits s.next_index) s.workers tt
                  (All-map s.workers (more-reason n s.next_index s.aborted) x.reasons);
          })
  ]
]

-- A worker that gets on after its callback has settled is no reason for anything.
settle-IsSound :
    (o : Options) (n w : ℕ) (v : Worker) (s : Pool)
    → HasReason n s.next_index s.aborted v
    → IsSound o n s
    → IsSound o n (record s { workers = update w v s.workers })
settle-IsSound o n w v s r x = record {
  in_order = x.in_order;
  count = length-update w v s.workers ∙ x.count;
  reasons = All-update _ w v s.workers r x.reasons;
}

if-IsSound :
    (o : Options) (n : ℕ) (b : Bool) (s t : Pool)
    → IsSound o n s
    → IsSound o n t
    → IsSound o n (if b then s else t)
if-IsSound o n true s t x y = x
if-IsSound o n false s t x y = y

step-IsSound :
    (o : Options) (n : ℕ) (e : Event) (s : Pool) → IsSound o n s → IsSound o n (step n e s)
unfolding step
step-IsSound o n (runs w) s x =
    if-IsSound o n (is_ready (get_elem? s.workers w)) _ s (round-IsSound o n w s x) x
step-IsSound o n (resolves w) s x =
    if-IsSound o n (is_waiting (get_elem? s.workers w)) _ s (settle-IsSound o n w ready s tt x) x
step-IsSound o n (rejects w) s x =
    if-IsSound o n (is_waiting (get_elem? s.workers w)) _ s (settle-IsSound o n w failed s tt x) x
step-IsSound o n aborts s x = record { in_order = x.in_order; count = x.count; reasons = x.reasons }

copies-reasons : (n : ℕ) (b : Bool) (k : ℕ) → All (HasReason n 0 b) (copies k)
copies-reasons n b zero = tt
copies-reasons n b (suc k) = (tt, copies-reasons n b k)

length-copies : (k : ℕ) → length (copies k) ≡ k
length-copies zero = refl
length-copies (suc k) = ap suc (length-copies k)

pub run-IsSound : (o : Options) (n : ℕ) (es : List Event) → IsSound o n (run o n es)
unfolding run for_each_bounded
run-IsSound o n [] = record {
  in_order = ap below (min-none n);
  count = length-copies (worker_count o n);
  reasons = copies-reasons n o.aborted_at_call (worker_count o n);
}
run-IsSound o n (e ∷ es) = step-IsSound o n e (run o n es) (run-IsSound o n es)

All-past :
    (n next : ℕ) (ws : List Worker)
    → 1 ≤ length ws
    → All (λ w. w ≡ returned) ws
    → All (HasReason n next false) ws
    → n < next
All-past n next [] some_worker r h = absurd (omega (arith, some_worker))
All-past n next (w ∷ ws) some_worker (e, r) (h, hs) = elim (subst (HasReason n next false) e h) [
  | inl a ↦ absurd (cc a)
  | inr past ↦ past
]

-- When a call asks for one worker at least, every worker has returned and no abort is reported, the
-- callback has been called for all items, each once and in the order of the list.
pub run-visits :
    (o : Options) (n : ℕ) (es : List Event)
    → 1 ≤ get_or o.max_concurrency default_bounded_worker_concurrency
    → All (λ w. w ≡ returned) (run o n es).workers
    → reports_abort (run o n es) ≡ false
    → (run o n es).called ≡ below n
run-visits o n es asked all_returned quiet =
    let x = run-IsSound o n es in
    x.in_order
    ∙ ap below (elim (Bool-cases (leb 1 n)) [
      | inr no_items ↦ ground (arith, no_items)
      | inl some_item ↦ min-all n _ (
          All-past n _ (run o n es).workers
            (subst (λ k. 1 ≤ k) (sym x.count) (ground (arith, asked, some_item))) all_returned
            (subst (λ b. All (HasReason n (run o n es).next_index b) (run o n es).workers)
              (ground (arith, quiet)) x.reasons))
    ])
