-- ===== src/Node/Listing.antt =====
-- The file of the list of blocks, which a data node reads when it starts: `getlist` and `initlist` of
-- d_node/haha/blockman.c.
use sbpfs.Common.{ℕ, zero, suc, ◌+◌, ◌*◌, Bool, if◌then◌else◌, List, [], ◌∷◌}
use sbpfs.Common.Mem.{Mem, text_at}
use sbpfs.Head.Strings.{Bytes}
use sbpfs.Node.Files.{File, DNode, NodeEnv, read_at}

-- What `getlist` reads at a place of the file into `temp`, which keeps what it has behind the end.
unfoldable pub read_record : File → ℕ → Mem → Mem
read_record f i temp = read_at f ((i + 1) * 64) temp

-- The names and the numbers from place `i` on.
unfoldable pub list_loop : NodeEnv → File → ℕ → ℕ → Mem → List Bytes × List ℕ
unfolding read_record text_at
list_loop e f zero i temp = ([], [])
list_loop e f (suc k) i temp =
    let buf = read_record f i temp in
    let name = text_at 64 buf 0 in
    let rest = list_loop e f k (i + 1) buf in (name ∷ rest.0, e.libc.atoll name ∷ rest.1)

-- The count of the file.
unfoldable pub read_count : NodeEnv → File → ℕ
unfolding text_at
read_count e f = e.atoi (text_at 4 (read_at f 0 e.junk) 0)

unfoldable pub getlist : NodeEnv → DNode → DNode
unfolding read_count list_loop
getlist e s =
    let lists = list_loop e s.listing (read_count e s.listing) 0 e.junk in
    record s { blocklist = lists.0; blolist = lists.1 }

-- 6401 records of zeros
abbrev pub empty_listing : File
empty_listing = record { size = 409_664; bytes = λ _. 0 }

-- `is_there`: whether the file of the list is there
unfoldable pub initlist : NodeEnv → Bool → DNode → DNode
unfolding getlist
initlist e is_there s = if is_there then getlist e s else record s { listing = empty_listing }
