-- ===== src/Operation/History.antt =====
-- What the ring of events in src/server/operation.rs holds.
use ida_mcp_rs.Base.{
  ℕ, zero, suc, ◌≤◌, ◌≡◌, refl, List, [], ◌∷◌, ◌++◌, length, take, drop, arith, length-append, ap,
  sym, ◌∙◌, inl, inr, Bool-cases, ◌==◌,
}
use ida_mcp_rs.Operation.{OperationEvent, recent_event_cap, push_event, rev}

append-nil : (xs : List OperationEvent) → xs ++ [] ≡ xs
append-nil [] = refl
append-nil (x ∷ xs) = cc (append-nil xs)

append_assoc : (xs ys zs : List OperationEvent) → (xs ++ ys) ++ zs ≡ xs ++ (ys ++ zs)
append_assoc [] ys zs = refl
append_assoc (x ∷ xs) ys zs = cc (append_assoc xs ys zs)

rev-append : (xs : List OperationEvent) (e : OperationEvent) → rev (xs ++ (e ∷ [])) ≡ e ∷ rev xs
rev-append [] e = refl
rev-append (x ∷ xs) e = cc (rev-append xs e)

length-rev : (xs : List OperationEvent) → length (rev xs) ≡ length xs
length-rev [] = refl
length-rev (x ∷ xs) = omega (arith, length-append (rev xs) (x ∷ []), length-rev xs)

take-all : (n : ℕ) (xs : List OperationEvent) → length xs ≤ n → take n xs ≡ xs
take-all zero [] h = refl
take-all zero (x ∷ xs) h = ground arith
take-all (suc n) [] h = refl
take-all (suc n) (x ∷ xs) h = cc (take-all n xs (omega arith))

take-append : (n : ℕ) (xs ys : List OperationEvent) → length xs ≡ n → take n (xs ++ ys) ≡ xs
take-append zero [] ys h = refl
take-append zero (x ∷ xs) ys h = ground arith
take-append (suc n) [] ys h = ground arith
take-append (suc n) (x ∷ xs) ys h = cc (take-append n xs ys (omega arith))

take-take : (n : ℕ) (xs : List OperationEvent) → take n (take (suc n) xs) ≡ take n xs
take-take zero xs = refl
take-take (suc n) [] = refl
take-take (suc n) (x ∷ xs) = cc (take-take n xs)

pub length-push_event :
    (events : List OperationEvent) (e : OperationEvent)
    → length events ≤ recent_event_cap
    → length (push_event events e) ≤ recent_event_cap
unfolding push_event
length-push_event events e h =
    ground (arith, length-append events (e ∷ []), length-append (drop 1 events) (e ∷ []))

-- The events pushed, the newest first, on an empty ring.
unfoldable pub push_all : List OperationEvent → List OperationEvent
unfolding push_event
push_all [] = []
push_all (newest ∷ older) = push_event (push_all older) newest

length-push_all : (log : List OperationEvent) → length (push_all log) ≤ recent_event_cap
unfolding push_all
length-push_all [] = omega arith
length-push_all (e ∷ log) = length-push_event (push_all log) e (length-push_all log)

rev-push_full :
    (events : List OperationEvent) (e : OperationEvent)
    → length events ≡ recent_event_cap
    → rev (drop 1 events ++ (e ∷ [])) ≡ e ∷ take 19 (rev events)
rev-push_full [] e h = ground arith
rev-push_full (x ∷ events) e h =
    cc
      (rev-append events e, take-append 19 (rev events) (x ∷ []) (omega (arith, length-rev events)))

rev-push_event :
    (events : List OperationEvent) (e : OperationEvent)
    → length events ≤ recent_event_cap
    → rev (push_event events e) ≡ take recent_event_cap (e ∷ rev events)
unfolding push_event
rev-push_event events e h = elim (Bool-cases (length events == recent_event_cap)) [
  | inl full ↦ rw (full, push_event) (rev-push_full events e (ground (arith, full)))
  | inr room ↦
      rw (room, push_event)
        (rev-append events e
          ∙ ap (λ es. e ∷ es)
              (sym (take-all 19 (rev events) (ground (arith, room, length-rev events)))))
]

pub rev-push_all : (log : List OperationEvent) → rev (push_all log) ≡ take recent_event_cap log
unfolding push_all
rev-push_all [] = refl
rev-push_all (e ∷ log) =
    rev-push_event (push_all log) e (length-push_all log)
    ∙ (ap (λ es. take recent_event_cap (e ∷ es)) (rev-push_all log)
        ∙ ap (λ es. e ∷ es) (take-take 19 log))
