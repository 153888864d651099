-- ===== src/MachO.antt =====
-- Universal Mach-O inputs: src/macho_fat.rs. Bytes are numbers below 256; the `i32` CPU types and
-- subtypes are their 32-bit patterns, since they are only compared and printed in hexadecimal.
pub mod Table
pub mod Whole
mod Tests
use Prim.Native.String.{◌++◌ as concat}
use ida_mcp_rs.Base.{
  ℕ, zero, suc, ◌+◌, ◌-◌, ◌*◌, ◌/◌, ◌%◌, ◌^◌, String, Bool, true, false, ◌&&◌, ◌||◌, not, Option,
  none, some, List, [], ◌∷◌, ◌++◌, length, take, drop, any, find, ◌==◌, leb, ltb, if◌then◌else◌,
  str_eq,
}

abbrev pub fat_magic : ℕ
fat_magic = 0xcafebabe

abbrev pub fat_magic_64 : ℕ
fat_magic_64 = 0xcafebabf

abbrev pub java_class_min_major : ℕ
java_class_min_major = 45

abbrev pub fat_arch_size : ℕ
fat_arch_size = 20

abbrev pub fat_arch_64_size : ℕ
fat_arch_64_size = 32

abbrev pub fat_header_read_limit : ℕ
fat_header_read_limit = 8 + java_class_min_major * fat_arch_64_size

abbrev pub mh_magic : ℕ
mh_magic = 0xfeedface

abbrev pub mh_magic_64 : ℕ
mh_magic_64 = 0xfeedfacf

abbrev pub cpu_arch_abi64 : ℕ
cpu_arch_abi64 = 0x01000000

abbrev pub cpu_arch_abi64_32 : ℕ
cpu_arch_abi64_32 = 0x02000000

abbrev pub cpu_type_x86 : ℕ
cpu_type_x86 = 7

abbrev pub cpu_type_arm : ℕ
cpu_type_arm = 12

abbrev pub cpu_type_powerpc : ℕ
cpu_type_powerpc = 18

pub record FatSlice : Type 0 where
  pub arch : String
  pub offset : ℕ
  pub size : ℕ

-- The pairs that `arch_name` knows. The bits of `|` in the constants do not overlap.
abbrev pub known_archs : List (ℕ × (ℕ × String))
known_archs =
    (cpu_type_x86, (3, "i386"))
    ∷ (cpu_type_x86 + cpu_arch_abi64, (3, "x86_64"))
    ∷ (cpu_type_x86 + cpu_arch_abi64, (8, "x86_64h"))
    ∷ (cpu_type_arm, (6, "armv6"))
    ∷ (cpu_type_arm, (9, "armv7"))
    ∷ (cpu_type_arm, (11, "armv7s"))
    ∷ (cpu_type_arm, (12, "armv7k"))
    ∷ (cpu_type_arm + cpu_arch_abi64, (0, "arm64"))
    ∷ (cpu_type_arm + cpu_arch_abi64, (2, "arm64e"))
    ∷ (cpu_type_arm + cpu_arch_abi64, (12, "arm64e.x1"))
    ∷ (cpu_type_arm + cpu_arch_abi64_32, (0, "arm64_32"))
    ∷ (cpu_type_arm + cpu_arch_abi64_32, (1, "arm64_32"))
    ∷ (cpu_type_powerpc, (0, "ppc"))
    ∷ (cpu_type_powerpc + cpu_arch_abi64, (0, "ppc64"))
    ∷ []

abbrev pub digits : List String
digits =
    "0" ∷ "1" ∷ "2" ∷ "3" ∷ "4" ∷ "5" ∷ "6" ∷ "7" ∷ "8" ∷ "9" ∷ "a" ∷ "b" ∷ "c" ∷ "d" ∷ "e" ∷ "f"
    ∷ []

abbrev pub hex_digit : ℕ → String
hex_digit n = elim (drop n digits) [ [] ↦ "" | d ∷ _ ↦ d ]

-- The digits of a number below 16^fuel, without leading zeros.
unfoldable pub hex_digits : ℕ → ℕ → String
hex_digits zero n = ""
hex_digits (suc fuel) n =
    let high = hex_digits fuel (n / 16) in
    if ltb n 16 then hex_digit n else concat high (hex_digit (n % 16))

-- `{:#x}` of an `i32`
unfoldable pub hex : ℕ → String
unfolding hex_digits
hex n = concat "0x" (hex_digits 8 n)

-- The mask of the subtype's feature flags leaves its low 24 bits. The fallback prints the subtype
-- with its flags.
unfoldable pub arch_name : ℕ → ℕ → String
unfolding hex
arch_name cputype cpusubtype =
    let subtype = cpusubtype % 2 ^ 24 in
    elim (find (λ (c, (s, n)). c == cputype && s == subtype) known_archs) [
      | some (_, (_, name)) ↦ name
      | none ↦ concat (concat "cputype" (hex cputype)) (concat "-subtype" (hex cpusubtype))
    ]

-- `?` on an `Option`.
infixl 10 ◌>>=◌
abbrev pub ◌>>=◌ {ℓ κ} : {A : Type ℓ} {B : Type κ} → Option A → (A → Option B) → Option B
none >>= f = none
some a >>= f = f a

-- `from_be_bytes`
abbrev pub from_be_bytes : ℕ → List ℕ → ℕ
from_be_bytes high [] = high
from_be_bytes high (b ∷ bs) = from_be_bytes (high * 256 + b) bs

-- `bytes.get(at..at.checked_add(width)?)`, read as a number.
unfoldable pub be_field : ℕ → List ℕ → ℕ → Option ℕ
be_field width bytes at =
    if ltb (at + width) (2 ^ 64) && leb (at + width) (length bytes)
    then some (from_be_bytes 0 (take width (drop at bytes)))
    else none

abbrev pub be_u32 : List ℕ → ℕ → Option ℕ
be_u32 = be_field 4

abbrev pub be_u64 : List ℕ → ℕ → Option ℕ
be_u64 = be_field 8

-- The messages of `parse_fat_header`, by what they say.
pub data FatError : Type 0 where
  table_truncated : ℕ → FatError
  entry_truncated : ℕ → FatError
  outside_file : ℕ → String → ℕ → ℕ → ℕ → FatError
  listed_twice : String → FatError

pub data Result {ℓ} (A : Type ℓ) : Type ℓ where
  ok : A → Result A
  err : FatError → Result A

pub record FatArch : Type 0 where
  pub cputype : ℕ
  pub cpusubtype : ℕ
  pub offset : ℕ
  pub size : ℕ

unfoldable pub parse_fat_arch : List ℕ → ℕ → Bool → Option FatArch
unfolding be_field
parse_fat_arch header at wide = do
  cputype ← be_u32 header at
  cpusubtype ← be_u32 header (at + 4)
  offset ← (if wide then be_u64 header (at + 8) else be_u32 header (at + 8))
  size ← (if wide then be_u64 header (at + 16) else be_u32 header (at + 12))
  some (record { cputype = cputype; cpusubtype = cpusubtype; offset = offset; size = size })

-- `end.is_none_or(|end| end > file_len)` of the checked sum of offset and size.
abbrev pub ends_outside : ℕ → ℕ → ℕ → Bool
ends_outside offset size file_len =
    not (ltb (offset + size) (2 ^ 64)) || ltb file_len (offset + size)

abbrev pub slice_of : FatArch → FatSlice
slice_of a = record { arch = arch_name a.cputype a.cpusubtype; offset = a.offset; size = a.size }

-- The checks on one entry, and the table with it.
unfoldable pub push_slice : ℕ → ℕ → ℕ → FatArch → List FatSlice → Result (List FatSlice)
push_slice file_len table_end index a slices =
    let slice = slice_of a in
    if a.size == 0 || ltb a.offset table_end || ends_outside a.offset a.size file_len
    then err (outside_file (index + 1) slice.arch a.offset a.size file_len)
    else if any (λ s. str_eq s.arch slice.arch) slices
    then err (listed_twice slice.arch)
    else ok (slices ++ (slice ∷ []))

-- The loop over the entries, from an index on.
unfoldable pub parse_entries :
    List ℕ → ℕ → ℕ → Bool → ℕ → ℕ → List FatSlice → Result (List FatSlice)
unfolding parse_fat_arch push_slice
parse_entries header file_len table_end wide index zero slices = ok slices
parse_entries header file_len table_end wide index (suc left) slices =
    elim (parse_fat_arch header (8 + index * (if wide then fat_arch_64_size else fat_arch_size))
      wide) [
        | none ↦ err (entry_truncated (index + 1))
        | some a ↦ (elim (push_slice file_len table_end index a slices) [
          | err e ↦ err e
          | ok pushed ↦ parse_entries header file_len table_end wide (index + 1) left pushed
        ])
      ]

-- The table of a header whose magic is read.
unfoldable pub parse_table : List ℕ → ℕ → Bool → Result (Option (List FatSlice))
unfolding parse_entries be_field
parse_table header file_len wide = elim (be_u32 header 4) [
  | none ↦ ok none
  | some n ↦
      let table_end = 8 + n * (if wide then fat_arch_64_size else fat_arch_size) in
      if n == 0 || leb java_class_min_major n
      then ok none
      else if ltb (length header) table_end
      then err (table_truncated n)
      else (elim (parse_entries header file_len table_end wide 0 n []) [
        | err e ↦ err e
        | ok slices ↦ ok (some slices)
      ])
]

unfoldable pub parse_fat_header : List ℕ → ℕ → Result (Option (List FatSlice))
unfolding parse_table be_field
parse_fat_header header file_len = elim (be_u32 header 0) [
  | none ↦ ok none
  | some magic ↦
      if magic == fat_magic
      then parse_table header file_len false
      else if magic == fat_magic_64
      then parse_table header file_len true
      else ok none
]

abbrev pub swap_bytes : ℕ → ℕ
swap_bytes v =
    (v % 2 ^ 8) * 2 ^ 24 + (v / 2 ^ 8 % 2 ^ 8) * 2 ^ 16 + (v / 2 ^ 16 % 2 ^ 8) * 2 ^ 8 + v / 2 ^ 24

abbrev pub is_mh_magic : ℕ → Bool
is_mh_magic magic = magic == mh_magic || magic == mh_magic_64

unfoldable pub thin_arch : List ℕ → Option String
unfolding be_field arch_name
thin_arch header = do
  magic ← be_u32 header 0
  swap ←
      (if is_mh_magic magic
        then some false
        else if is_mh_magic (swap_bytes magic)
        then some true
        else none)
  cputype ← be_u32 header 4
  cpusubtype ← be_u32 header 8
  some (
      arch_name (if swap then swap_bytes cputype else cputype)
        (if swap then swap_bytes cpusubtype else cpusubtype))
