-- ===== src/Node/Tests.antt =====
-- The theorems about the data node, d_node/haha, with numbers printed in unary.
mod Threads
use sbpfs.Common.{
  ℕ, zero, suc, ◌<◌, ◌≡◌, ◌≢◌, refl, ap, ◌∙◌, sym, arith, true, false, if◌then◌else◌, Option, none,
  [], ◌∷◌, length, str_eq, All,
}
use sbpfs.Common.Run.{done}
use sbpfs.Head.Strings.{Bytes}
use sbpfs.Client.State.{Libc}
use sbpfs.Node.Files.{NodeEnv, DNode, readblock, writeblock, bytes_from, field, addlist, deletelist}
use sbpfs.Node.Listing.{empty_listing, initlist}
use sbpfs.Node.Fields.{IsText}
use sbpfs.Node.Listed.{IsListed, IsCount, IsIntact, addlist-IsListed}
use sbpfs.Client.Blocks.{memory}
use sbpfs.Node.Restart.{initlist-addlist, initlist-IsListed}
use sbpfs.Node.Delisted.{deletelist-IsListed}
use sbpfs.Node.Store.{writeblock-other}
use sbpfs.Node.Names.{occurrences, deletelist-occurrences}

-- `n` as `n` letters
abbrev pub unary : ℕ → Bytes
unary zero = []
unary (suc n) = b'i' ∷ unary n

abbrev pub unary_libc : Libc
unary_libc = record { grants = λ _. true; sprintf = λ _. unary; atoll = length }

abbrev pub unary_env : NodeEnv
unary_env = record {
  libc = unary_libc;
  atoi = length;
  creates = λ _. true;
  junk = λ _. 7;
  stack = λ name count. memory name;
  stray = 9;
}

abbrev pub empty_node : DNode
empty_node = record { files = λ _. none; blocklist = []; blolist = []; listing = empty_listing }

pub length-unary : (n : ℕ) → length (unary n) ≡ n
length-unary zero = refl
length-unary (suc n) = omega (arith, length-unary n)

pub unary-no_slash : (n : ℕ) → All (λ c. c ≢ b'/') (unary n)
unary-no_slash zero = tt
unary-no_slash (suc n) = (omega arith, unary-no_slash n)

writeblock-other_example :
    (s' : DNode) × (found : Option Bytes) × (writeblock unary_env 3 5 2 (8 ∷ 9 ∷ []) empty_node
      ≡ done true s')
    × (readblock unary_env 4 0 6 empty_node ≡ done found empty_node)
    × (readblock unary_env 4 0 6 s' ≡ done found s')
writeblock-other_example =
    writeblock-other unary_env 3 5 (8 ∷ 9 ∷ []) empty_node 4 0 6 refl unary-no_slash
      (λ same. sym (length-unary 4) ∙ (ap length same ∙ length-unary 3)) (omega arith)

abbrev listed : DNode
listed = record {
  files = λ _. none;
  blocklist = unary 1 ∷ unary 2 ∷ unary 3 ∷ [];
  blolist = [];
  listing = empty_listing;
}

deletelist-occurrences_example :
    occurrences (unary 3) (deletelist unary_env 1 listed).blocklist
    ≡ (if str_eq (unary 3) (unary 1) then 0 else occurrences (unary 3) listed.blocklist)
deletelist-occurrences_example = deletelist-occurrences unary_env 1 listed (unary 3) (omega arith)

unary-whole : (n : ℕ) → All (λ c. c ≢ 0) (unary n)
unary-whole zero = tt
unary-whole (suc n) = (omega arith, unary-whole n)

unary-IsText : (n room : ℕ) → n < room → IsText room (unary n)
unary-IsText n room h = record { short = omega (arith, length-unary n); whole = unary-whole n }

unary-IsCount : (n : ℕ) → n < 4 → IsCount unary_env n
unary-IsCount n h = record { text = unary-IsText n 4 h; read = length-unary n }

-- The count is printed elsewhere.
three-IsIntact : IsIntact unary_env (unary 3) (unary 1)
unfolding bytes_from field
three-IsIntact = record { rest = λ _. 0; same = refl }

five-IsIntact : IsIntact unary_env (unary 5) (unary 2)
unfolding bytes_from field
five-IsIntact = record { rest = λ _. 0; same = refl }

-- a node that has just started, and one that has two blocks
abbrev started : DNode
unfolding initlist
started = initlist unary_env false (record empty_node { blocklist = [] })

abbrev one_block : DNode
unfolding addlist initlist
one_block = addlist unary_env 3 started

abbrev two_blocks : DNode
unfolding addlist initlist
two_blocks = addlist unary_env 5 one_block

started-IsListed : IsListed unary_env started
unfolding initlist
started-IsListed = initlist-IsListed unary_env empty_node refl

one_block-IsListed : IsListed unary_env one_block
unfolding addlist initlist
one_block-IsListed =
    addlist-IsListed unary_env 3 started started-IsListed (unary-IsText 3 64 (omega arith))
      three-IsIntact (unary-IsCount 1 (omega arith))

two_blocks-IsListed : IsListed unary_env two_blocks
unfolding addlist initlist
two_blocks-IsListed =
    addlist-IsListed unary_env 5 one_block one_block-IsListed (unary-IsText 5 64 (omega arith))
      five-IsIntact (unary-IsCount 2 (omega arith))

initlist-addlist_example :
    initlist unary_env true
      (record (addlist unary_env 5 one_block) { blocklist = []; blolist = 8 ∷ [] })
    ≡ record (addlist unary_env 5 one_block) { blolist = 3 ∷ 5 ∷ [] }
unfolding addlist initlist
initlist-addlist_example =
    initlist-addlist unary_env 5 one_block [] (8 ∷ []) one_block-IsListed
      (unary-IsText 5 64 (omega arith)) five-IsIntact (unary-IsCount 2 (omega arith)) (omega arith)

deletelist-IsListed_example : IsListed unary_env (deletelist unary_env 3 two_blocks)
unfolding addlist initlist
deletelist-IsListed_example =
    deletelist-IsListed unary_env 3 two_blocks two_blocks-IsListed refl
      (unary-IsCount 1 (omega arith))
