-- ===== src/Fat/Names.antt =====
-- The names of directory entries in src/drivers/fat.c. The name, the static `lfn_buffer`, `temp` and
-- the entry are at addresses of one memory.
pub mod Order
pub mod Long
use hal_os.Base.{
  ℕ, zero, suc, ◌+◌, ◌-◌, ◌*◌, ◌%◌, ◌^◌, ◌==◌, ltb, Bool, true, false, not, ◌&&◌, if◌then◌else◌,
}
use hal_os.Base.{u8, update, Option, none, some, List, [], ◌∷◌, get_or}
use hal_os.Str.{Memory, strncpy, strcpy, strncat, lower}
use hal_os.Fat.{File, Volume, DirList, read_next_entry}

-- a word of 16 bits of an entry
abbrev pub entry_word : List ℕ → ℕ → ℕ
entry_word entry offset = get_or entry offset 0 + get_or entry (offset + 1) 0 * 2 ^ 8

-- `chars[i]`: five in `name0`, six in `name1` and two in `name2`
abbrev pub lfn_char : List ℕ → ℕ → ℕ
lfn_char entry i =
    if ltb i 5
    then entry_word entry (1 + 2 * i)
    else if ltb i 11
    then entry_word entry (14 + 2 * (i - 5))
    else entry_word entry (28 + 2 * (i - 11))

-- `lfn->sequence & 0x1F`
abbrev pub sequence : List ℕ → ℕ
sequence entry = get_or entry 0 0 % 2 ^ 5

-- `n` rounds of the loop of `parse_lfn_entry`, into the part at `dest`
unfoldable pub put_chars : ℕ → ℕ → List ℕ → ℕ → Memory → Memory
put_chars zero i entry dest mem = mem
put_chars (suc n) i entry dest mem = elim (lfn_char entry i == 0xFFFF) [
  | true ↦ mem
  | false ↦ put_chars n (i + 1) entry dest (update mem (dest + i) (u8 (lfn_char entry i)))
]

-- with a sequence number that is not 0
unfoldable pub parse_lfn_entry : List ℕ → ℕ → Memory → Memory
parse_lfn_entry entry lfn_buffer mem =
    put_chars 13 0 entry (lfn_buffer + (sequence entry - 1) * 13) mem

-- The loop that takes spaces from the end, with `i + 1` where it stops.
unfoldable pub trim : ℕ → ℕ → Memory → ℕ × Memory
trim zero output mem = (0, mem)
trim (suc i) output mem = elim (mem (output + i) == 32) [
  | true ↦ trim i output (update mem (output + i) 0)
  | false ↦ (suc i, mem)
]

-- `n` rounds of the loop over `tolower`
unfoldable pub lower_all : ℕ → ℕ → Memory → Memory
lower_all zero at mem = mem
lower_all (suc n) at mem = lower_all n (at + 1) (update mem at (lower (mem at)))

-- `none` if the fuel of `strncat` runs out, which a name of at most 9 bytes does not need
unfoldable pub parse_short_filename : ℕ → ℕ → Memory → Option Memory
parse_short_filename output entry mem =
    let (end, trimmed) = trim 8 output (strncpy output entry 8 mem) in
    if trimmed (entry + 8) == 32 && trimmed (entry + 9) == 32 && trimmed (entry + 10) == 32
    then some (update trimmed (output + end) 0)
    else elim (strncat 10 output (entry + 8) 3
        (update (update trimmed (output + end) 46) (output + end + 1) 0)) [
          | none ↦ none
          | some named ↦ some (if named (entry + 12) == 0 then named else lower_all 13 output named)
        ]

-- the loop that puts the parts of a long name together, from the part `i` on
unfoldable pub join_parts : ℕ → ℕ → ℕ → ℕ → ℕ → Memory → Memory
join_parts zero i parts temp lfn_buffer mem = mem
join_parts (suc n) i parts temp lfn_buffer mem =
    join_parts n (i + 1) parts temp lfn_buffer
      (strncpy (temp + i * 13) (lfn_buffer + (parts - i - 1) * 13) 13 mem)

-- a long name of at most 31 parts, which `strcpy` copies
unfoldable pub long_name : ℕ → ℕ → ℕ → ℕ → Memory → Option Memory
long_name parts out_name temp lfn_buffer mem =
    strcpy 404 out_name temp
      (update (join_parts parts 0 parts temp lfn_buffer mem) (temp + parts * 13) 0)

-- the bytes of an entry, from an address on
unfoldable pub lay : ℕ → List ℕ → Memory → Memory
lay at [] mem = mem
lay at (byte ∷ bytes) mem = lay (at + 1) bytes (update mem at byte)

-- the static variables of `fat32_next_dir_entry`, and the list
pub record Names : Type 0 where
  pub mem : Memory
  pub lfn_length : ℕ
  pub list : DirList

abbrev pub is_lfn : List ℕ → Bool
is_lfn entry = get_or entry 11 0 == 0x0F

-- a part of a long name
unfoldable pub take_lfn : ℕ → List ℕ → Names → Names
take_lfn lfn_buffer entry s =
    let seq = sequence entry in
    if seq == 0 then s else record s {
      mem = parse_lfn_entry entry lfn_buffer s.mem;
      lfn_length = if ltb s.lfn_length seq then seq else s.lfn_length;
    }

-- the name of an entry that is no such part
unfoldable pub name_of : ℕ → ℕ → ℕ → ℕ → List ℕ → Names → Option Memory
name_of out_name temp lfn_buffer at entry s =
    if ltb 0 s.lfn_length
    then long_name s.lfn_length out_name temp lfn_buffer s.mem
    else parse_short_filename out_name at (lay at entry s.mem)

abbrev pub file_of : List ℕ → File
file_of entry = record {
  attrib = get_or entry 11 0;
  cluster = entry_word entry 20 * 2 ^ 16 + entry_word entry 26;
  size = entry_word entry 28 + entry_word entry 30 * 2 ^ 16;
}

-- The loop, a unit of fuel for each entry; the file is `none` at the end of the directory.
module _ (disk : ℕ → Option (List ℕ)) (out_name temp lfn_buffer at : ℕ) where
  unfoldable pub next_dir_entry : ℕ → Volume → Names → Option (Option File × Names)
  next_dir_entry zero v s = none
  next_dir_entry (suc fuel) v s =
      let (found, list) = read_next_entry disk v s.list in
      elim found [
        | none ↦ some (none, record s { lfn_length = 0; list = list })
        | some entry ↦ elim (is_lfn entry) [
          | true ↦ next_dir_entry fuel v (take_lfn lfn_buffer entry (record s { list = list }))
          | false ↦ elim (name_of out_name temp lfn_buffer at entry s) [
            | none ↦ none
            | some named ↦
                some (some (file_of entry), record { mem = named; lfn_length = 0; list = list })
          ]
        ]
      ]
