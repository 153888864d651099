-- ===== src/Task/Registry/Parts.antt =====
-- What each building block of the registry's methods does to the entry at an id: where an entry of
-- the new map comes from.
use ida_mcp_rs.Base.{
  ℕ, String, Bool, true, false, none, some, [], ◌∷◌, ◌≡◌, refl, inl, inr, arith, length, Bool-cases,
  Option-cases, str_eq, eq_iff, if◌then◌else◌, ◌≤◌,
}
use ida_mcp_rs.Base.Assoc.{
  Assoc, lookup, modify, update, HasDistinctKeys, lookup-update, lookup-modify,
  lookup-retain_values, retain_values-HasDistinctKeys, update-HasDistinctKeys,
  modify-HasDistinctKeys, length-retain_values, length-update, length-modify,
}
use ida_mcp_rs.Task.Data.{TaskEntry, TaskSettlement, unchanged}
use ida_mcp_rs.Task.Clock.{Reading}
use ida_mcp_rs.Task.Retention.{is_kept, prune_terminal_tasks}
use ida_mcp_rs.Task.Entry.{request_cancel}
use ida_mcp_rs.Task.Entry.Lifecycle.{IsStep, IsStep-refl, request_cancel-IsStep}
use ida_mcp_rs.Task.Registry.{settle, request_cancel_each}

module _ {V : Type 0} where
  -- Every entry of `n` is an entry of `m` after a step, keys stay distinct, and none is added.
  pub record IsShrunk (m n : Assoc (TaskEntry V)) : Type 0 where
    pub origin :
        (id : String) (f : TaskEntry V)
        → lookup id n ≡ some f
        → (e : TaskEntry V) × (lookup id m ≡ some e) × IsStep e f
    pub distinct : HasDistinctKeys n
    pub shorter : length n ≤ length m

  pub lookup-prune :
      (now : ℕ) (id : String) (m : Assoc (TaskEntry V))
      → HasDistinctKeys m
      → lookup id (prune_terminal_tasks now m)
        ≡ (elim (lookup id m) [ none ↦ none | some v ↦ if is_kept now v then some v else none ])
  unfolding prune_terminal_tasks
  lookup-prune now id m d = lookup-retain_values (is_kept now) id m d

  pub prune-IsShrunk :
      (now : ℕ) (m n : Assoc (TaskEntry V)) → IsShrunk m n → IsShrunk m (prune_terminal_tasks now n)
  unfolding prune_terminal_tasks
  prune-IsShrunk now m n s = record {
    origin = λ id f h. s.origin id f (ground (arith, lookup-prune now id n s.distinct));
    distinct = retain_values-HasDistinctKeys (is_kept now) n s.distinct;
    shorter = omega (arith, length-retain_values (is_kept now) n, s.shorter);
  }

  pub IsShrunk-refl : (m : Assoc (TaskEntry V)) → HasDistinctKeys m → IsShrunk m m
  IsShrunk-refl m d = record {
    origin = λ id f h. (f, h, IsStep-refl f);
    distinct = d;
    shorter = omega arith;
  }

  pub if-IsShrunk :
      (b : Bool) (m n o : Assoc (TaskEntry V))
      → IsShrunk m n
      → IsShrunk m o
      → IsShrunk m (if b then n else o)
  if-IsShrunk true m n o s t = s
  if-IsShrunk false m n o s t = t

  pub update-IsShrunk :
      (id : String) (f : TaskEntry V → TaskEntry V) (m : Assoc (TaskEntry V))
      → ((e : TaskEntry V) → IsStep e (f e))
      → HasDistinctKeys m
      → IsShrunk m (update id f m)
  update-IsShrunk id f m stepped d = record {
    origin = λ j g h. elim (Option-cases (lookup j m)) [
      | inl absent ↦ ground (arith, lookup-update id j f m)
      | inr (e, there) ↦ elim (Bool-cases (str_eq id j)) [
        | inl same ↦
            let eq : f e ≡ g = ground (arith, lookup-update id j f m) in
            (e, there, rw (← eq) (stepped e))
        | inr other ↦
            let eq : e ≡ g = ground (arith, lookup-update id j f m) in
            (e, there, rw (← eq) (IsStep-refl e))
      ]
    ];
    distinct = update-HasDistinctKeys id f m d;
    shorter = omega (arith, length-update id f m);
  }

  pub modify-IsShrunk {ℓ} :
      {R : Type ℓ} (id : String) (f : TaskEntry V → TaskEntry V × R) (absent : R)
      (m : Assoc (TaskEntry V))
      → ((e : TaskEntry V) → IsStep e (f e).0)
      → HasDistinctKeys m
      → IsShrunk m (modify id f absent m).0
  modify-IsShrunk id f absent m stepped d = record {
    origin = λ j g h. elim (Option-cases (lookup j m)) [
      | inl gone ↦ ground (arith, lookup-modify id j f absent m)
      | inr (e, there) ↦ elim (Bool-cases (str_eq id j)) [
        | inl same ↦
            let eq : (f e).0 ≡ g = ground (arith, lookup-modify id j f absent m) in
            (e, there, rw (← eq) (stepped e))
        | inr other ↦
            let eq : e ≡ g = ground (arith, lookup-modify id j f absent m) in
            (e, there, rw (← eq) (IsStep-refl e))
      ]
    ];
    distinct = modify-HasDistinctKeys id f absent m d;
    shorter = omega (arith, length-modify id f absent m);
  }

  pub settle-IsShrunk :
      (id : String) (method : TaskEntry V → TaskEntry V × TaskSettlement) (now : ℕ)
      (m : Assoc (TaskEntry V))
      → ((e : TaskEntry V) → IsStep e (method e).0)
      → HasDistinctKeys m
      → IsShrunk m (settle id method now m).0
  unfolding settle
  settle-IsShrunk id method now m stepped d =
      let s = modify-IsShrunk id method unchanged m stepped d in
      if-IsShrunk _ m _ _ s (prune-IsShrunk now m _ s)

  lookup-request_cancel_each :
      (message : String) (readings : String → Reading) (id : String) (m : Assoc (TaskEntry V))
      → lookup id (request_cancel_each message readings m).0 ≡ (elim (lookup id m) [
        | none ↦ none
        | some e ↦ some (request_cancel (readings id) message e).0
      ])
  unfolding request_cancel_each lookup
  lookup-request_cancel_each message readings id [] = refl
  lookup-request_cancel_each message readings id ((i, e) ∷ m) =
      ground (arith, eq_iff i id, lookup-request_cancel_each message readings id m)

  request_cancel_each-HasDistinctKeys :
      (message : String) (readings : String → Reading) (m : Assoc (TaskEntry V))
      → HasDistinctKeys m
      → HasDistinctKeys (request_cancel_each message readings m).0
  unfolding request_cancel_each
  request_cancel_each-HasDistinctKeys message readings [] d = tt
  request_cancel_each-HasDistinctKeys message readings ((i, e) ∷ m) d = ground (
    arith,
    lookup-request_cancel_each message readings i m,
    request_cancel_each-HasDistinctKeys message readings m d.1,
  )

  length-request_cancel_each :
      (message : String) (readings : String → Reading) (m : Assoc (TaskEntry V))
      → length (request_cancel_each message readings m).0 ≡ length m
  unfolding request_cancel_each
  length-request_cancel_each message readings [] = refl
  length-request_cancel_each message readings ((i, e) ∷ m) =
      ground (arith, length-request_cancel_each message readings m)

  pub request_cancel_each-IsShrunk :
      (message : String) (readings : String → Reading) (m : Assoc (TaskEntry V))
      → HasDistinctKeys m
      → IsShrunk m (request_cancel_each message readings m).0
  request_cancel_each-IsShrunk message readings m d = record {
    origin = λ j g h. elim (Option-cases (lookup j m)) [
      | inl gone ↦ ground (arith, lookup-request_cancel_each message readings j m)
      | inr (e, there) ↦
          let eq : (request_cancel (readings j) message e).0 ≡ g =
            ground (arith, lookup-request_cancel_each message readings j m) in
          (e, there, rw (← eq) (request_cancel-IsStep (readings j) message e))
    ];
    distinct = request_cancel_each-HasDistinctKeys message readings m d;
    shorter = omega (arith, length-request_cancel_each message readings m);
  }
