-- ===== src/MachO/Table.antt =====
-- What `parse_fat_header` of src/macho_fat.rs guarantees about the table it returns.
use ida_mcp_rs.Base.{
  ℕ, zero, suc, ◌+◌, ◌*◌, ◌≤◌, ◌<◌, ◌≡◌, ◌⊎◌, refl, inl, inr, String, Bool, true, false, Option,
  some, List, [], ◌∷◌, ◌++◌, length, any, ◌==◌, ltb, if◌then◌else◌, str_eq, eq_iff, subst, sym,
  ◌||◌, arith, All, length-append, Bool-cases, Option-cases,
}
use ida_mcp_rs.MachO.{
  FatSlice, FatArch, FatError, Result, ok, err, fat_arch_size, fat_arch_64_size,
  java_class_min_major, fat_magic, fat_magic_64, be_u32, parse_fat_arch, ends_outside, push_slice,
  slice_of, parse_entries, parse_table, parse_fat_header,
}

pub Result-cases {ℓ} :
    {A : Type ℓ} (r : Result A) → ((e : FatError) × (r ≡ err e)) ⊎ ((a : A) × (r ≡ ok a))
Result-cases (err e) = inl (e, refl)
Result-cases (ok a) = inr (a, refl)

-- A slice that is not empty and lies between the end of the table and the end of the file.
abbrev pub IsWithin : ℕ → ℕ → FatSlice → Type 0
IsWithin table_end file_len s =
    (0 < s.size) × ((table_end ≤ s.offset) × (s.offset + s.size ≤ file_len))

abbrev pub HasDistinctArchs : List FatSlice → Type 0
HasDistinctArchs [] = Unit
HasDistinctArchs (s ∷ ss) = (any (λ t. str_eq t.arch s.arch) ss ≡ false) × HasDistinctArchs ss

abbrev pub entry_size : Bool → ℕ
entry_size wide = if wide then fat_arch_64_size else fat_arch_size

-- A table as a header may declare it.
pub record IsTable (wide : Bool) (file_len : ℕ) (slices : List FatSlice) : Type 0 where
  pub some_slice : 0 < length slices
  pub few_slices : length slices < java_class_min_major
  pub within : All (IsWithin (8 + length slices * entry_size wide) file_len) slices
  pub distinct : HasDistinctArchs slices

All-push :
    (table_end file_len : ℕ) (slices : List FatSlice) (s : FatSlice)
    → All (IsWithin table_end file_len) slices
    → IsWithin table_end file_len s
    → All (IsWithin table_end file_len) (slices ++ (s ∷ []))
All-push table_end file_len [] s h w = (w, tt)
All-push table_end file_len (t ∷ slices) s h w = (h.0, All-push table_end file_len slices s h.1 w)

any-push :
    (name : String) (slices : List FatSlice) (s : FatSlice)
    → any (λ t. str_eq t.arch name) slices ≡ false
    → str_eq s.arch name ≡ false
    → any (λ t. str_eq t.arch name) (slices ++ (s ∷ [])) ≡ false
any-push name [] s h ne = ground arith
any-push name (t ∷ slices) s h ne = ground (arith, any-push name slices s)

distinct-push :
    (slices : List FatSlice) (s : FatSlice)
    → HasDistinctArchs slices
    → any (λ t. str_eq t.arch s.arch) slices ≡ false
    → HasDistinctArchs (slices ++ (s ∷ []))
distinct-push [] s d h = (refl, tt)
distinct-push (t ∷ slices) s d h = (
  any-push t.arch slices s d.0 (ground (arith, h, eq_iff t.arch s.arch, eq_iff s.arch t.arch)),
  distinct-push slices s d.1 (ground (arith, h)),
)

ok-inj : (xs ys : List FatSlice) → ok xs ≡ ok ys → xs ≡ ys
ok-inj xs ys h = cc

ok-some-inj :
    (xs ys : List FatSlice)
    → ◌≡◌ {A = Result (Option (List FatSlice))} (ok (some xs)) (ok (some ys))
    → xs ≡ ys
ok-some-inj xs ys h = cc

-- What a number of passes through the loop add to a table.
record Grown (table_end file_len left : ℕ) (slices out : List FatSlice) : Type 0 where
  grown : length out ≡ length slices + left
  all_within : All (IsWithin table_end file_len) out
  all_distinct : HasDistinctArchs out

-- One entry that passes its checks.
push_slice-ok :
    (file_len table_end index : ℕ) (a : FatArch) (slices pushed : List FatSlice)
    → push_slice file_len table_end index a slices ≡ ok pushed
    → All (IsWithin table_end file_len) slices
    → HasDistinctArchs slices
    → Grown table_end file_len 1 slices pushed
unfolding push_slice
push_slice-ok file_len table_end index a slices pushed h w d =
    elim (Bool-cases
      (a.size == 0 || ltb a.offset table_end || ends_outside a.offset a.size file_len)) [
        | inl bad ↦ ground (arith, h, bad)
        | inr good ↦ elim (Bool-cases (any (λ s. str_eq s.arch (slice_of a).arch) slices)) [
          | inl twice ↦ ground (arith, h, good, twice)
          | inr new ↦
              subst (Grown table_end file_len 1 slices)
                (ok-inj (slices ++ (slice_of a ∷ [])) pushed (ground (arith, h, good, new)))
                (record {
                  grown = length-append slices (slice_of a ∷ []);
                  all_within =
                      All-push table_end file_len slices (slice_of a) w (ground (arith, good));
                  all_distinct = distinct-push slices (slice_of a) d new;
                })
        ]
      ]

parse_entries-ok :
    (header : List ℕ) (file_len table_end : ℕ) (wide : Bool) (index left : ℕ)
    (slices out : List FatSlice)
    → parse_entries header file_len table_end wide index left slices ≡ ok out
    → All (IsWithin table_end file_len) slices
    → HasDistinctArchs slices
    → Grown table_end file_len left slices out
unfolding parse_entries
parse_entries-ok header file_len table_end wide index zero slices out h w d =
    subst (Grown table_end file_len 0 slices) (ok-inj slices out h)
      (record { grown = omega arith; all_within = w; all_distinct = d })
parse_entries-ok header file_len table_end wide index (suc left) slices out h w d =
    let at = 8 + index * entry_size wide in
    elim (Option-cases (parse_fat_arch header at wide)) [
      | inl e ↦ ground (arith, h, e)
      | inr (a, e) ↦ elim (Result-cases (push_slice file_len table_end index a slices)) [
        | inl (_, f) ↦ ground (arith, h, e, f)
        | inr (pushed, f) ↦
            let g = push_slice-ok file_len table_end index a slices pushed f w d in
            let rest =
              parse_entries-ok header file_len table_end wide (index + 1) left pushed out
                (ground (arith, h, e, f)) g.all_within g.all_distinct in
            record {
              grown = omega (arith, g.grown, rest.grown);
              all_within = rest.all_within;
              all_distinct = rest.all_distinct;
            }
      ]
    ]

parse_table-IsTable :
    (header : List ℕ) (file_len : ℕ) (wide : Bool) (slices : List FatSlice)
    → parse_table header file_len wide ≡ ok (some slices)
    → IsTable wide file_len slices
unfolding parse_table
parse_table-IsTable header file_len wide slices h = elim (Option-cases (be_u32 header 4)) [
  | inl e ↦ ground (arith, h, e)
  | inr (n, e) ↦
      elim (Result-cases (parse_entries header file_len (8 + n * entry_size wide) wide 0 n [])) [
        | inl (_, f) ↦ ground (arith, h, e, f)
        | inr (out, f) ↦
            let g =
              parse_entries-ok header file_len (8 + n * entry_size wide) wide 0 n [] out f tt tt in
            let length_out : length out ≡ n = omega (arith, g.grown) in
            subst (IsTable wide file_len) (ok-some-inj out slices (ground (arith, h, e, f)))
              (record {
                some_slice = ground (arith, h, e, f, length_out);
                few_slices = ground (arith, h, e, f, length_out);
                within =
                    subst (λ k. All (IsWithin (8 + k * entry_size wide) file_len) out)
                      (sym length_out) g.all_within;
                distinct = g.all_distinct;
              })
      ]
]

abbrev pub magic_of : Bool → ℕ
magic_of wide = if wide then fat_magic_64 else fat_magic

-- A table that `parse_fat_header` returns has between 1 and 44 slices, each of them not empty and
-- between the end of the slice table and the end of the file, and no architecture twice.
pub parse_fat_header-IsTable :
    (header : List ℕ) (file_len : ℕ) (slices : List FatSlice)
    → parse_fat_header header file_len ≡ ok (some slices)
    → (wide : Bool) × ((be_u32 header 0 ≡ some (magic_of wide)) × IsTable wide file_len slices)
unfolding parse_fat_header
parse_fat_header-IsTable header file_len slices h = elim (Option-cases (be_u32 header 0)) [
  | inl e ↦ ground (arith, h, e)
  | inr (magic, e) ↦ elim (Bool-cases (magic == fat_magic)) [
    | inl narrow ↦ (
      false,
      (
        ground (arith, e, narrow),
        parse_table-IsTable header file_len false slices (ground (arith, h, e, narrow)),
      ),
    )
    | inr other ↦ elim (Bool-cases (magic == fat_magic_64)) [
      | inl wide ↦ (
        true,
        (
          ground (arith, e, wide),
          parse_table-IsTable header file_len true slices (ground (arith, h, e, other, wide)),
        ),
      )
      | inr neither ↦ ground (arith, h, e, other, neither)
    ]
  ]
]
