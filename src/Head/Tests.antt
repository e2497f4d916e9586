-- ===== src/Head/Tests.antt =====
-- The theorems about the heads of libc/lib.c at the head of a request.
use sbpfs.Common.{◌≡◌, arith, some, [], ◌∷◌, ◌++◌, length}
use sbpfs.Head.Strings.{Bytes}
use sbpfs.Head.{Head, make_head, decode_head}
use sbpfs.Head.RoundTrip.{decode_head-make_head}

-- `X: 12` and `Y: ` in a request titled `OK`
abbrev request : Head
request = record {
  head_len = 0;
  title = b'O' ∷ b'K' ∷ [];
  entrys =
      record { name = b'X' ∷ []; value = b'1' ∷ b'2' ∷ [] }
      ∷ record { name = b'Y' ∷ []; value = [] }
      ∷ [];
}

decode_head-make_head_example :
    (bytes : Bytes) × (make_head request ≡ some (length bytes, bytes))
    × (decode_head (bytes ++ b'h' ∷ b'i' ∷ []) ≡ some (record request { head_len = length bytes }))
decode_head-make_head_example =
    decode_head-make_head request (b'h' ∷ b'i' ∷ []) (omega arith)
      ((omega arith, omega arith), ((omega arith, omega arith), tt))
      (
        record {
          name = ((omega arith, omega arith), tt);
          no_colon = (omega arith, tt);
          value = ((omega arith, omega arith), ((omega arith, omega arith), tt));
        },
        (
          record {
            name = ((omega arith, omega arith), tt);
            no_colon = (omega arith, tt);
            value = tt;
          },
          tt,
        ),
      )
