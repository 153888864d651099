-- ===== src/MachO/Whole.antt =====
-- The bounds of the reads of `parse_fat_header` in src/macho_fat.rs.
use ida_mcp_rs.Base.{
  ℕ, zero, suc, ◌+◌, ◌*◌, ◌^◌, ◌≤◌, ◌<◌, ◌≡◌, ◌≢◌, inl, inr, Bool, true, false, none, List, [],
  length, any, ◌==◌, leb, ltb, str_eq, subst, ◌||◌, arith, Bool-cases, Option-cases,
}
use ida_mcp_rs.MachO.{
  FatSlice, FatArch, FatError, entry_truncated, err, java_class_min_major, fat_magic, fat_magic_64,
  be_field, be_u32, parse_fat_arch, ends_outside, push_slice, slice_of, parse_entries, parse_table,
  parse_fat_header,
}
use ida_mcp_rs.MachO.Table.{Result-cases, entry_size}

be_field-fits :
    (width at : ℕ) (bytes : List ℕ)
    → at + width ≤ length bytes
    → at + width < 2 ^ 64
    → be_field width bytes at ≢ none
unfolding be_field
be_field-fits width at bytes h small e = ground (arith, h, small, e)

parse_fat_arch-fits :
    (header : List ℕ) (at : ℕ) (wide : Bool)
    → at + entry_size wide ≤ length header
    → at + entry_size wide < 2 ^ 64
    → parse_fat_arch header at wide ≢ none
unfolding parse_fat_arch
parse_fat_arch-fits header at true h small e = ground (
  arith,
  e,
  h,
  small,
  be_field-fits 4 at header,
  be_field-fits 4 (at + 4) header,
  be_field-fits 8 (at + 8) header,
  be_field-fits 8 (at + 16) header,
)
parse_fat_arch-fits header at false h small e = ground (
  arith,
  e,
  h,
  small,
  be_field-fits 4 at header,
  be_field-fits 4 (at + 4) header,
  be_field-fits 4 (at + 8) header,
  be_field-fits 4 (at + 12) header,
)

abbrev is_truncated : FatError → Bool
is_truncated (entry_truncated i) = true
is_truncated _ = false

push_slice_whole :
    (file_len table_end index : ℕ) (a : FatArch) (slices : List FatSlice) (e : FatError)
    → push_slice file_len table_end index a slices ≡ err e
    → is_truncated e ≡ false
unfolding push_slice
push_slice_whole file_len table_end index a slices e h =
    elim (Bool-cases
      (a.size == 0 || ltb a.offset table_end || ends_outside a.offset a.size file_len)) [
        | inl bad ↦ ground (arith, h, bad)
        | inr good ↦ elim (Bool-cases (any (λ s. str_eq s.arch (slice_of a).arch) slices)) [
          | inl twice ↦ ground (arith, h, good, twice)
          | inr new ↦ ground (arith, h, good, new)
        ]
      ]

entry-fits :
    (wide : Bool) (index left length_header : ℕ)
    → 8 + (index + suc left) * entry_size wide ≤ length_header
    → index + suc left < java_class_min_major
    → (8 + index * entry_size wide + entry_size wide ≤ length_header)
      × (8 + index * entry_size wide + entry_size wide < 2 ^ 64)
entry-fits true index left l fits few = (omega (arith, fits), omega (arith, few))
entry-fits false index left l fits few = (omega (arith, fits), omega (arith, few))

from_first :
    (wide : Bool) (n l : ℕ) → 8 + n * entry_size wide ≤ l → 8 + (0 + n) * entry_size wide ≤ l
from_first true n l h = omega (arith, h)
from_first false n l h = omega (arith, h)

parse_entries_whole :
    (header : List ℕ) (file_len table_end : ℕ) (wide : Bool) (index left : ℕ)
    (slices : List FatSlice) (e : FatError)
    → 8 + (index + left) * entry_size wide ≤ length header
    → index + left < java_class_min_major
    → parse_entries header file_len table_end wide index left slices ≡ err e
    → is_truncated e ≡ false
unfolding parse_entries
parse_entries_whole header file_len table_end wide index zero slices e fits few h =
    ground (arith, h)
parse_entries_whole header file_len table_end wide index (suc left) slices e fits few h =
    let at = 8 + index * entry_size wide in
    let room = entry-fits wide index left (length header) fits few in
    elim (Option-cases (parse_fat_arch header at wide)) [
      | inl cut ↦ ground (arith, cut, parse_fat_arch-fits header at wide room.0 room.1)
      | inr (a, whole) ↦ elim (Result-cases (push_slice file_len table_end index a slices)) [
        | inl (x, f) ↦
            ground (arith, h, whole, f, push_slice_whole file_len table_end index a slices x f)
        | inr (pushed, f) ↦
            parse_entries_whole header file_len table_end wide (index + 1) left pushed e
              (subst (λ k. 8 + k * entry_size wide ≤ length header) (omega arith) fits)
              (omega (arith, few)) (ground (arith, h, whole, f))
      ]
    ]

parse_table_whole :
    (header : List ℕ) (file_len : ℕ) (wide : Bool) (e : FatError)
    → parse_table header file_len wide ≡ err e
    → is_truncated e ≡ false
unfolding parse_table
parse_table_whole header file_len wide e h = elim (Option-cases (be_u32 header 4)) [
  | inl absent ↦ ground (arith, h, absent)
  | inr (n, count) ↦ elim (Bool-cases (n == 0 || leb java_class_min_major n)) [
    | inl bad ↦ ground (arith, h, count, bad)
    | inr good ↦ elim (Bool-cases (ltb (length header) (8 + n * entry_size wide))) [
      | inl short ↦ ground (arith, h, count, good, short)
      | inr long ↦
          elim (Result-cases
            (parse_entries header file_len (8 + n * entry_size wide) wide 0 n [])) [
              | inr (out, f) ↦ ground (arith, h, count, good, long, f)
              | inl (x, f) ↦ ground (
                arith,
                h,
                count,
                good,
                long,
                f,
                parse_entries_whole header file_len (8 + n * entry_size wide) wide 0 n [] x
                    (from_first wide n (length header) (ground (arith, long)))
                    (ground (arith, good)) f,
              )
            ]
    ]
  ]
]

-- The message that an entry is truncated is never given: the check of the table's length comes
-- first.
pub parse_fat_header_whole :
    (header : List ℕ) (file_len index : ℕ)
    → parse_fat_header header file_len ≢ err (entry_truncated index)
unfolding parse_fat_header
parse_fat_header_whole header file_len index h = elim (Option-cases (be_u32 header 0)) [
  | inl e ↦ ground (arith, h, e)
  | inr (magic, e) ↦ elim (Bool-cases (magic == fat_magic)) [
    | inl narrow ↦ ground (
      arith,
      parse_table_whole header file_len false (entry_truncated index)
          (ground (arith, h, e, narrow)),
    )
    | inr other ↦ elim (Bool-cases (magic == fat_magic_64)) [
      | inl wide ↦ ground (
        arith,
        parse_table_whole header file_len true (entry_truncated index)
            (ground (arith, h, e, other, wide)),
      )
      | inr neither ↦ ground (arith, h, e, other, neither)
    ]
  ]
]
