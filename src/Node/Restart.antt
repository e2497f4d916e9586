-- ===== src/Node/Restart.antt =====
-- A data node that starts again reads the list of its blocks from the file: `initlist` and `getlist` of
-- d_node/haha/blockman.c.

use mathlib.Core.List.{map}
use sbpfs.Common.{
  ℕ, suc, ◌+◌, ◌*◌, ◌<◌, ◌≡◌, refl, ap, ◌∙◌, arith, true, false, some, List, [], ◌∷◌, ◌++◌, length,
  get_elem?, codes,
}
use sbpfs.Common.Mem.{Mem, text_at, text_at-frame}
use sbpfs.Head.Strings.{Bytes}
use sbpfs.Node.Files.{File, DNode, NodeEnv, read_at, addlist}
use sbpfs.Node.Listing.{read_record, list_loop, read_count, getlist, initlist}
use sbpfs.Node.Fields.{IsText, text_at-moved}
use sbpfs.Node.Listed.{
  HoldsRecord, HoldsRecord-moved, IsListed, IsCount, IsIntact, addlist-IsListed,
}

read_record-inside :
    (f : File) (i : ℕ) (temp : Mem) (k : ℕ)
    → (i + 1) * 64 + k < f.size
    → read_record f i temp (0 + k) ≡ f.bytes ((i + 1) * 64 + k)
unfolding read_record
read_record-inside f i temp k h = ground (arith, h)

-- What `getlist` reads from place `i` on.
list_loop-names :
    (e : NodeEnv) (f : File) (names : List Bytes) (i : ℕ) (temp : Mem)
    → ((j : ℕ) (name : Bytes) → get_elem? names j ≡ some name → HoldsRecord f (i + j) name)
    → list_loop e f (length names) i temp ≡ (names, map e.libc.atoll names)
unfolding list_loop
list_loop-names e f [] i temp held = refl
list_loop-names e f (name ∷ names) i temp held =
    let (big, here) = held 0 name refl in
    let first : text_at 64 (read_record f i temp) 0 ≡ name =
      text_at-moved 64 f.bytes (read_record f i temp) ((i + 1) * 64) 0
        (λ k h. read_record-inside f i temp k (omega (arith, big)))
      ∙ (ap (λ k. text_at 64 f.bytes ((k + 1) * 64)) (omega arith) ∙ here) in
    let rest =
      list_loop-names e f names (i + 1) (read_record f i temp)
        (λ j x h. HoldsRecord-moved f (i + 1 + j) (i + suc j) x (omega arith) (held (suc j) x h)) in
    rw (list_loop, first, rest) refl

read_count-length :
    (e : NodeEnv) (s : DNode) → IsListed e s → read_count e s.listing ≡ length s.blocklist
unfolding read_count
read_count-length e s ok =
    ap e.atoi (
      text_at-frame 4 s.listing.bytes (read_at s.listing 0 e.junk) 0
        (λ b p q. ground (arith, ok.sized)))
    ∙ ok.count

-- What `getlist` reads is the list that the file holds, and its numbers.
getlist-names :
    (e : NodeEnv) (s : DNode)
    → IsListed e s
    → (blocklist : List Bytes) (blolist : List ℕ)
    → getlist e (record s { blocklist = blocklist; blolist = blolist })
      ≡ record s { blolist = map e.libc.atoll s.blocklist }
unfolding getlist
getlist-names e s ok blocklist blolist =
    let f = s.listing in
    let all =
      list_loop-names e f s.blocklist 0 e.junk
        (λ j x h. HoldsRecord-moved f (0 + j) j x (omega arith) (ok.records j x h).0) in
    rw (getlist, read_count-length e s ok, all) refl

-- A data node that starts again with the file of the list, after a block was added and whatever its
-- memory holds by then, has the list and the numbers of its names as they were, the new block the
-- last. The file was in step with the list before, which has a row left of its 64, the new name has
-- room in a record and is intact when `addlist` writes it, the new count has room in four bytes, and
-- `atoi` reads the count that is printed.
pub initlist-addlist :
    (e : NodeEnv) (blocknum : ℕ) (s : DNode) (blocklist : List Bytes) (blolist : List ℕ)
    → IsListed e s
    → IsText 64 (e.libc.sprintf (codes "%lld") blocknum)
    → IsIntact e
        (e.libc.sprintf (codes "%lld") blocknum)
        (e.libc.sprintf (codes "%lld") (length s.blocklist + 1))
    → IsCount e (length s.blocklist + 1)
    → length s.blocklist < 64
    → initlist e true (record (addlist e blocknum s) { blocklist = blocklist; blolist = blolist })
      ≡ record (addlist e blocknum s) {
        blolist = map e.libc.atoll (s.blocklist ++ e.libc.sprintf (codes "%lld") blocknum ∷ []);
      }
unfolding initlist addlist
initlist-addlist e blocknum s blocklist blolist ok text intact counted rows =
    getlist-names e (addlist e blocknum s) (addlist-IsListed e blocknum s ok text intact counted)
      blocklist blolist

-- A node that starts without the file has an empty list, and the new file says so.
pub initlist-IsListed :
    (e : NodeEnv) (s : DNode)
    → e.atoi [] ≡ 0
    → IsListed e (initlist e false (record s { blocklist = [] }))
unfolding initlist text_at
initlist-IsListed e s zero_read = record {
  sized = omega arith;
  count = zero_read;
  records = λ i name h. cc;
}
