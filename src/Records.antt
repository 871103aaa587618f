-- ===== src/Records.antt =====
-- The file of fixed-size records of lab2/GeislerWojciech/cw02/zad1/main.c. A record is the list of its
-- bytes; for `sort`, whose seeks are all by whole records, an open file is the list of its records with
-- an offset counted in records. `copy` works on the bytes. The file system is not modelled.
pub mod Copy
pub mod Insertion
pub mod Sort
mod Tests
use agh_operating_systems.Base.{
  ℕ, zero, suc, ◌+◌, ◌-◌, ◌*◌, ◌/◌, ◌%◌, Bool, true, false, ◌&&◌, Option, none, some, List, [], ◌∷◌,
  ◌++◌, length, ltb, leb, ◌==◌, if◌then◌else◌, get_elem?, get_or, set, take, drop, replicate,
}
use agh_operating_systems.Base.Int.{ℤ, pos, negsuc}
use agh_operating_systems.Base.Text.{CString}

abbrev pub Record : Type 0
Record = List ℕ

-- `current[0]`
abbrev pub key : Record → ℕ
key r = get_or r 0 0

-- An open file, `handle` or `fd` with what it stands for.
pub record File : Type 0 where
  pub content : List Record
  pub offset : ℕ

-- `file_read` of one record; `none` is a short read.
pub file_read : File → Option Record × File
file_read file = elim (get_elem? file.content file.offset) [
  | none ↦ (none, file)
  | some r ↦ (some r, record file { offset = file.offset + 1 })
]

-- `file_write` of one record; behind the end it fills up with zeros.
pub file_write : ℕ → File → Record → File
file_write record_size file r = record {
  content =
      if ltb file.offset (length file.content)
      then set file.content file.offset r
      else (file.content
          ++ replicate (file.offset - length file.content) (replicate record_size 0)
          ++ r ∷ []);
  offset = file.offset + 1;
}

-- `file_seek` with `SEEK_CUR`; a seek to before the start fails and changes nothing.
pub file_seek : File → ℤ → File
file_seek file (pos n) = record file { offset = file.offset + n }
file_seek file (negsuc n) =
    if ltb n file.offset then record file { offset = file.offset - (n + 1) } else file

-- Whether an `int` holds a number of bytes.
abbrev pub fits : ℕ → Bool
fits bytes = ltb bytes 2147483648

-- The `while` loop of `sort`: the place for `current`, and the file with its offset there. `none` is a
-- failed assertion, or an overflow of `-2 * record_size`. With `syscalls` set: the library's `fwrite` right
-- behind `fread` is undefined, so that there is no result without, once a record is compared.
pub make_room : Bool → ℕ → ℕ → Record → File → Option (ℕ × File)
unfolding file_read file_write file_seek
make_room syscalls record_size zero current file = some (0, file)
make_room syscalls record_size (suc p) current file =
    let (buffer, read) = file_read (file_seek file (negsuc 0)) in
    elim buffer [
      | none ↦ none
      | some b ↦ elim syscalls [
        | false ↦ none
        | true ↦ elim (ltb (key current) (key b)) [
          | true ↦ elim (ltb (2 * record_size) 2147483649) [
            | true ↦
                make_room syscalls record_size p current
                  (file_seek (file_write record_size read b) (negsuc 1))
            | false ↦ none
          ]
          | false ↦ some (suc p, read)
        ]
      ]
    ]

-- The body of the `for` loop of `sort`, at `pos = i`; `none` is an exit, a failure of the loop, or an
-- overflow of `(i - pos + 1) * record_size`.
pub insert_next : Bool → ℕ → ℕ → File → Option File
unfolding make_room
insert_next syscalls record_size i file =
    let (current, read) = file_read file in
    elim current [
      | none ↦ none
      | some c ↦ elim (make_room syscalls record_size i c (file_seek read (negsuc 0))) [
        | none ↦ none
        | some (p, room) ↦ elim (fits ((i + 1 - (p + 1)) * record_size)) [
          | true ↦ some (file_seek (file_write record_size room c) (pos (i + 1 - (p + 1))))
          | false ↦ none
        ]
      ]
    ]

-- `n` rounds of the `for` loop from `i` on.
pub sort_from : Bool → ℕ → ℕ → ℕ → File → Option File
unfolding insert_next
sort_from syscalls record_size zero i file = some file
sort_from syscalls record_size (suc n) i file = elim (insert_next syscalls record_size i file) [
  | none ↦ none
  | some file' ↦ sort_from syscalls record_size n (i + 1) file'
]

-- `sort`: what the file holds at the end.
pub sort : List Record → ℕ → ℕ → Bool → Option (List Record)
unfolding sort_from
sort content records record_size syscalls =
    elim (sort_from syscalls record_size (records - 1) 1
      (record { content = content; offset = 1 })) [ none ↦ none | some file ↦ some file.content ]

-- `file_read` of `size` bytes: `read` gives what there is, `fread` one whole block or nothing.
pub read_bytes : Bool → ℕ → List ℕ → List ℕ
read_bytes syscall size rest =
    if syscall then take size rest else if leb size (length rest) then take size rest else []

-- The loop of `copy`: the bytes that `records` rounds write, of those that are left in the source.
pub copy : Bool → ℕ → ℕ → List ℕ → List ℕ
unfolding read_bytes
copy syscalls zero record_size rest = []
copy syscalls (suc records) record_size rest =
    let bytes = read_bytes syscalls record_size rest in
    let more = copy syscalls records record_size (drop record_size rest) in
    bytes ++ (if ltb (length bytes) record_size then [] else more)

-- `(flags & bit) == bit`, for a `bit` that is a power of two.
abbrev pub has_flag : ℕ → ℕ → Bool
has_flag flags bit = flags / bit % 2 == 1

-- `flags_to_char`, with the values that <fcntl.h> gives O_RDWR, O_TRUNC, O_CREAT, O_APPEND and O_WRONLY.
pub flags_to_char : ℕ → CString
flags_to_char flags =
    if has_flag flags 2
    then (if has_flag flags 512 && has_flag flags 64
        then 119 ∷ 43 ∷ []
        else if has_flag flags 1024
        then 97 ∷ 43 ∷ []
        else 114 ∷ 43 ∷ [])
    else if has_flag flags 1024
    then 97 ∷ []
    else if has_flag flags 1
    then 119 ∷ []
    else 114 ∷ []
