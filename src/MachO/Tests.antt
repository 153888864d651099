-- ===== src/MachO/Tests.antt =====
-- The theorems on universal Mach-O headers at a concrete header.
use ida_mcp_rs.Base.{ℕ, Bool, ◌≡◌, refl, some, List, [], ◌∷◌}
use ida_mcp_rs.MachO.{
  FatSlice, ok, err, outside_file, parse_fat_header, parse_table, parse_entries, parse_fat_arch,
  be_field, be_u32, push_slice, arch_name, thin_arch, hex, hex_digits,
}
use ida_mcp_rs.MachO.Table.{IsTable, magic_of, parse_fat_header-IsTable}

-- A header with an arm64e slice of 4 bytes at offset 28.
abbrev one_slice : List ℕ
one_slice =
    0xca ∷ 0xfe ∷ 0xba ∷ 0xbe ∷ 0 ∷ 0 ∷ 0 ∷ 1 ∷ 1 ∷ 0 ∷ 0 ∷ 0x0c ∷ 0x80 ∷ 0 ∷ 0 ∷ 2 ∷ 0 ∷ 0 ∷ 0 ∷ 28
    ∷ 0 ∷ 0 ∷ 0 ∷ 4 ∷ 0 ∷ 0 ∷ 0 ∷ 2 ∷ []

abbrev its_slices : List FatSlice
its_slices = record { arch = "arm64e"; offset = 28; size = 4 } ∷ []

parse_one_slice : parse_fat_header one_slice 32 ≡ ok (some its_slices)
unfolding parse_fat_header parse_table parse_entries parse_fat_arch be_field push_slice arch_name
parse_one_slice = refl

parse_cut_file : parse_fat_header one_slice 31 ≡ err (outside_file 1 "arm64e" 28 4 31)
unfolding parse_fat_header parse_table parse_entries parse_fat_arch be_field push_slice arch_name
parse_cut_file = refl

unknown_arch : arch_name 255 0x80000001 ≡ "cputype0xff-subtype0x80000001"
unfolding arch_name hex hex_digits
unknown_arch = refl

thin_little_endian :
    thin_arch (0xcf ∷ 0xfa ∷ 0xed ∷ 0xfe ∷ 7 ∷ 0 ∷ 0 ∷ 1 ∷ 3 ∷ 0 ∷ 0 ∷ 0 ∷ []) ≡ some "x86_64"
unfolding thin_arch be_field arch_name
thin_little_endian = refl

parse_fat_header-IsTable_example :
    (wide : Bool) × ((be_u32 one_slice 0 ≡ some (magic_of wide)) × IsTable wide 32 its_slices)
unfolding parse_fat_header parse_table parse_entries parse_fat_arch be_field push_slice arch_name
parse_fat_header-IsTable_example = parse_fat_header-IsTable one_slice 32 its_slices refl
