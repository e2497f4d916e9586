-- ===== src/Net.antt =====
-- The transport of the client, in libc/lib.c: `sbp_send`, `get_slot` and `get_dnode_hostname`.
pub mod Send
pub mod Slots
pub mod Recv
pub mod Rest
mod Tests
use sbpfs.Common.{
  ℕ, zero, suc, ◌+◌, ◌-◌, ◌*◌, ◌/◌, ◌%◌, ◌^◌, Option, none, some, leb, ltb, if◌then◌else◌, Bool,
  List, [], ◌∷◌, ◌++◌, length, take, drop,
}
use sbpfs.Common.Run.{ℤ, pos, negsuc, minus}

-- `MAX_FILE_OPEN`
abbrev pub max_file_open : ℕ
max_file_open = 4096

-- what a call has sent before the rest of the loop
abbrev pub sent_before : List ℕ → Option (ℤ × List ℕ) → Option (ℤ × List ℕ)
sent_before bytes none = none
sent_before bytes (some (c, sent)) = some (c, bytes ++ sent)

-- One round: a part of the text is taken, and `go` sends the rest.
abbrev pub sent_part : ℤ → List ℕ → (List ℕ → Option (ℤ × List ℕ)) → Option (ℤ × List ℕ)
sent_part (negsuc m) text go = some (minus 1, [])
sent_part (pos zero) text go = some (minus 1, [])
sent_part (pos (suc m)) text go =
    let rest = sent_before (take (suc m) text) (go (drop (suc m) text)) in
    if leb (length text) (suc m) then some (pos 0, take (suc m) text) else rest

-- The loop of `sbp_send`: `send` answers call number `n` for the bytes that are left, of which the
-- socket takes as many as it answers. The code that is returned and the bytes that the socket took.
unfoldable pub send_loop : (ℕ → List ℕ → ℤ) → ℕ → ℕ → List ℕ → Option (ℤ × List ℕ)
send_loop send zero n text = none
send_loop send (suc k) n text = sent_part (send n text) text (λ rest. send_loop send k (n + 1) rest)

-- Every call takes a byte or more, or is the last one.
unfoldable pub sbp_send : (ℕ → List ℕ → ℤ) → List ℕ → Option (ℤ × List ℕ)
unfolding send_loop
sbp_send send text = send_loop send (length text + 1) 0 text

-- `while(i<MAX_FILE_OPEN)`, with the rounds that are left; `used` says which slots are not NULL.
slot_loop : (ℕ → Bool) → ℕ → ℕ → ℤ
slot_loop used zero i = minus 1
slot_loop used (suc k) i = let rest = slot_loop used k (i + 1) in if used i then rest else pos i

unfoldable pub get_slot : (ℕ → Bool) → ℤ
unfolding slot_loop
get_slot used = slot_loop used max_file_open 0

-- The four numbers that `get_dnode_hostname` prints, each an `unsigned char`.
unfoldable pub octets : ℕ → ℕ × ℕ × ℕ × ℕ
octets dnode = (
  dnode / 16_777_216 % 256,
  dnode / 65_536 % 256 % 256,
  dnode / 256 % 256 % 256,
  dnode % 256 % 256,
)

-- `sprintf` prints a number with `print`, and 46 is the dot.
unfoldable pub get_dnode_hostname : (ℕ → List ℕ) → ℕ → List ℕ
unfolding octets
get_dnode_hostname print dnode =
    let (i1, i2, i3, i4) = octets dnode in
    print i1 ++ 46 ∷ (print i2 ++ 46 ∷ (print i3 ++ 46 ∷ print i4))
