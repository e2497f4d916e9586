-- ===== src/Head.antt =====
-- The text protocol of libc/lib.c: `make_head`, `decode_head`, `get_missing_len` and
-- `get_head_entry_value`. A message is a title line, a line for each entry, an empty line and a body.
pub mod Strings
pub mod Search
pub mod RoundTrip
pub mod Room
pub mod Literal
mod Tests
use sbpfs.Common.{
  ℕ, zero, suc, ◌+◌, ◌-◌, ◌%◌, Option, none, some, Bool, true, false, ltb, ◌==◌, if◌then◌else◌,
  List, [], ◌∷◌, ◌++◌, length, take, drop, codes, str_eq,
}
use sbpfs.Common.Mem.{u64_mod}
use sbpfs.Head.Strings.{Bytes, strstr, with_found}

abbrev pub max_entry_in_head : ℕ
max_entry_in_head = 32

-- "\r\n"
abbrev pub crlf : Bytes
crlf = 13 ∷ 10 ∷ []

-- `HEADER_FLAG`, "\r\n\r\n"
abbrev pub header_flag : Bytes
header_flag = 13 ∷ 10 ∷ 13 ∷ 10 ∷ []

-- ": "
abbrev pub colon : Bytes
colon = b':' ∷ 32 ∷ []

abbrev pub content_len : Bytes
content_len = codes "Content-Length"

pub record HeadEntry : Type 0 where
  pub name : Bytes
  pub value : Bytes

-- `entrys` holds the `entry_num` entries that are set; `head_len` is 0 in a head that is built.
pub record Head : Type 0 where
  pub head_len : ℕ
  pub title : Bytes
  pub entrys : List HeadEntry

-- `head.title = title; head.entry_num = 0`
abbrev pub new_head : Bytes → Head
new_head title = record { head_len = 0; title = title; entrys = [] }

-- `mkent(head, n, val)`
abbrev pub mkent : Head → Bytes → Bytes → Head
mkent head n val = record head { entrys = head.entrys ++ record { name = n; value = val } ∷ [] }

-- the first loop of `make_head`
unfoldable pub entries_len : List HeadEntry → ℕ → ℕ
entries_len [] total_len = total_len
entries_len (e ∷ es) total_len = entries_len es (total_len + (length e.name + length e.value + 4))

-- the second loop of `make_head`, behind what `cp_ptr` has passed
unfoldable pub put_entries : List HeadEntry → Bytes → Bytes
put_entries [] out = out
put_entries (e ∷ es) out = put_entries es (out ++ e.name ++ colon ++ e.value ++ crlf)

-- The length that is asked of `malloc` and returned in `*len`, and the bytes that are written where it
-- is granted, which the callers see to.
unfoldable pub make_head : Head → Option (ℕ × Bytes)
unfolding entries_len put_entries
make_head head =
    if ltb max_entry_in_head (length head.entrys)
    then none
    else some (
      entries_len head.entrys (length head.title + 2) + 2,
      put_entries head.entrys (head.title ++ crlf) ++ crlf,
    )

-- The loop of `decode_head` over the lines, `none` for an error or where the rounds run out. Where it
-- sets more entries than `entrys` holds, see `overruns`.
decode_entries : ℕ → Bytes → Option (List HeadEntry)
unfolding strstr
decode_entries zero text = none
decode_entries (suc k) text = with_found (strstr crlf text) (λ line rest. elim line [
  | [] ↦ some []
  | c ∷ line' ↦ with_found (strstr colon (c ∷ line')) (λ name value.
      elim (decode_entries k (drop 2 rest)) [
        | none ↦ none
        | some es ↦ some (record { name = name; value = drop 2 value } ∷ es)
      ])
])

abbrev pub decoded : ℕ → Bytes → Option (List HeadEntry) → Option Head
decoded header_len title none = none
decoded header_len title (some es) =
    some (record { head_len = header_len; title = title; entrys = es })

unfoldable pub decode_head : Bytes → Option Head
unfolding strstr decode_entries
decode_head text = with_found (strstr header_flag text) (λ before _.
    let header_len : ℕ = length before + 4 in
    let copy : Bytes = take header_len text in
    with_found (strstr crlf copy)
      (λ title rest. decoded header_len title (decode_entries (length copy + 1) (drop 2 rest))))

-- Whether `decode_head` sets an entry behind the `n` that are left of `entrys`, whose bounds it does not
-- look at.
unfoldable pub sets_more : ℕ → Bytes → Bool
unfolding strstr
sets_more zero text = elim (strstr crlf text) [
  | none ↦ false
  | some (line, rest) ↦ elim line [ [] ↦ false | c ∷ line' ↦ true ]
]
sets_more (suc n) text = elim (strstr crlf text) [
  | none ↦ false
  | some (line, rest) ↦ elim line [
    | [] ↦ false
    | c ∷ line' ↦ elim (strstr colon (c ∷ line')) [
      | none ↦ false
      | some found ↦ sets_more n (drop 2 rest)
    ]
  ]
]

-- Whether `decode_head` writes behind the end of `entrys`. What it returns then is not what
-- `decode_head` says: its callers end the program.
unfoldable pub overruns : Bytes → Bool
unfolding strstr sets_more
overruns text = elim (strstr header_flag text) [
  | none ↦ false
  | some (before, _) ↦ elim (strstr crlf (take (length before + 4) text)) [
    | none ↦ false
    | some (title, rest) ↦ sets_more max_entry_in_head (drop 2 rest)
  ]
]

-- `NULL` is `none`.
find_value : List HeadEntry → Bytes → Option Bytes
find_value [] entry = none
find_value (e ∷ es) entry = if str_eq e.name entry then some e.value else find_value es entry

unfoldable pub get_head_entry_value : Head → Bytes → Option Bytes
unfolding find_value
get_head_entry_value head entry = find_value head.entrys entry

-- `content_length + header_length - received_bytes` as an `s64_t`, -1 for an error: both are
-- patterns below 2^64. `atoll` reads the text of the number.
unfoldable pub get_missing_len : (Bytes → ℕ) → Bytes → ℕ → ℕ
unfolding strstr
get_missing_len atoll buf received_bytes = elim (strstr header_flag buf) [
  | none ↦ u64_mod - 1
  | some (before, _) ↦ elim (strstr content_len buf) [
    | none ↦ u64_mod - 1
    | some (_, start) ↦ elim (strstr crlf start) [
      | none ↦ u64_mod - 1
      | some (line, _) ↦
          (atoll (drop 16 line) + (length before + 4) + u64_mod - received_bytes % u64_mod)
          % u64_mod
    ]
  ]
]
