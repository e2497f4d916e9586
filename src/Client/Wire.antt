-- ===== src/Client/Wire.antt =====
-- What a conversation that goes well is made of: `sbp_getUandP`, `make_head`, the message, the reply
-- and `decode_head`, for `read_block` and `write_block` of libc/read_write.c.
use sbpfs.Common.{
  ℕ, ◌+◌, ◌≡◌, refl, ap, ◌∙◌, Bool, true, false, leb, Option, none, some, length, List, [], ◌∷◌,
  take, drop, codes, ==-refl,
}
use sbpfs.Common.Run.{done, stop, minus, Cmd, pure, ◌>>=◌, and_then}
use sbpfs.Head.Strings.{Bytes, strstr, starts_with}
use sbpfs.Head.{Head, make_head, decode_head, header_flag, overruns, get_head_entry_value}
use sbpfs.Net.{get_dnode_hostname}
use sbpfs.Trace.{Trace, Place, sbp_update_err}
use sbpfs.Client.State.{Client, head_err, reply, Talker, Libc, dnode_service_port, in_bounds}
use sbpfs.Client.Request.{
  request_head, refused, lib_at, request_ok, request_err, is_empty, no_copy, sbp_get_uand_p,
  message_of, talk, sendrec_hostname, head_of,
}
use sbpfs.Client.Blocks.{
  rw_at, BlockEntry, block_request, block_body, read_block, write_block, block_result,
}
use sbpfs.Client.Files.{entry_of}

-- A client after a conversation.
abbrev pub after : {W : Type 0} → Client W → Trace → W → Client W
after s trace peer = record s { trace = trace; peer = peer }

-- A reply that has a head.
pub record IsAnswer (text : Bytes) (head : Head) : Type 0 where
  pub some_text : is_empty text ≡ false
  pub has_head : decode_head text ≡ some head
  pub room : overruns text ≡ false

no_copy-granted :
    (c : Libc) → ((n : ℕ) → c.grants n ≡ true) → (text : Bytes) → no_copy c text ≡ false
unfolding no_copy
no_copy-granted c granted text = by_flag (strstr header_flag text) refl
  where
    by_flag : (o : Option (Bytes × Bytes)) → strstr header_flag text ≡ o → no_copy c text ≡ false
    by_flag none e = rw (no_copy, e) refl
    by_flag (some (before, rest)) e = rw (no_copy, e, granted (length before + 4 + 1)) refl

-- A command that starts with one that ends well goes on with its result.
bind-done :
    {S A B : Type 0} (m : Cmd S A) (k : A → Cmd S B) (s s' : S) (a : A)
    → m s ≡ done a s'
    → (m >>= k) s ≡ k a s'
bind-done m k s s' a h = ap (λ r. and_then r k) h

in_bounds-inside : {S : Type 0} (b : Bool) (s : S) → b ≡ true → in_bounds b s ≡ done tt s
in_bounds-inside true s h = refl
in_bounds-inside false s h = cc

module _ {W : Type 0} (talker : Talker W) (c : Libc) (granted : (n : ℕ) → c.grants n ≡ true) where
  sbp_get_uand_p-granted : (s : Client W) → sbp_get_uand_p talker c s ≡ done (s.user, s.pass) s
  unfolding sbp_get_uand_p
  sbp_get_uand_p-granted s = rw (granted 17, granted 33) refl

  message_of-made :
      (place : Place) (head : Head) (s : Client W) (len : ℕ) (bytes : Bytes)
      → make_head head ≡ some (len, bytes)
      → message_of talker c place head s ≡ done bytes s
  unfolding message_of
  message_of-made place head s len bytes h = rw (message_of, h, granted len) refl

  talk-reply :
      (p q r : Place) (host : Bytes) (port : ℕ) (messages : List Bytes) (s : Client W)
      (text : Bytes) (trace : Trace) (peer : W)
      → talker host port messages s.trace s.peer ≡ (reply text, trace, peer)
      → talk talker c p q r host port messages s ≡ done text (after s trace peer)
  unfolding talk
  talk-reply p q r host port messages s text trace peer h = rw h refl

  head_of-answer :
      (place : Place) (text : Bytes) (head : Head) (s : Client W)
      → IsAnswer text head
      → head_of talker c place text s ≡ done head s
  unfolding head_of
  head_of-answer place text head s a =
      rw (a.some_text, no_copy-granted c granted text, a.room, a.has_head) refl

  block_result-ok :
      {A : Type 0} (place : Place) (head : Head) (go : Cmd (Client W) A) (unknown : A)
      (s : Client W)
      → starts_with request_ok head.title ≡ true
      → block_result talker c place head go unknown s ≡ go s
  unfolding block_result
  block_result-ok place head go unknown s h = rw h refl

  block_result-refused :
      {A : Type 0} (place : Place) (head : Head) (go : Cmd (Client W) A) (unknown : A)
      (s : Client W)
      → starts_with request_ok head.title ≡ false
      → starts_with request_err head.title ≡ true
      → block_result talker c place head go unknown s
        ≡ stop (minus 1) (record s { trace = sbp_update_err c.grants head s.trace })
  unfolding block_result refused
  block_result-refused place head go unknown s not_ok refused = rw (not_ok, refused) refl

  -- `write_block` sends the head and the data, and returns the length where the answer is good.
  pub write_block-answer :
      (b : BlockEntry) (node : ℕ) (buf auth : Bytes) (s : Client W) (len : ℕ) (bytes text : Bytes)
      (head : Head) (trace : Trace) (peer : W)
      → make_head (
          request_head s.user s.pass
            (block_request c auth (codes "WRITE") b (c.sprintf (codes "%d") b.length_in_block)))
        ≡ some (len, bytes)
      → talker
          (get_dnode_hostname (c.sprintf (codes "%u")) node)
          dnode_service_port
          (bytes ∷ take b.length_in_block buf ∷ [])
          s.trace
          s.peer
        ≡ (reply text, trace, peer)
      → IsAnswer text head
      → starts_with request_ok head.title ≡ true
      → leb b.length_in_block (length buf) ≡ true
      → write_block talker c b node buf auth s ≡ done b.length_in_block (after s trace peer)
  unfolding write_block
  write_block-answer b node buf auth s len bytes text head trace peer made said a title enough =
      let at = rw_at (codes "write_block") in
      let host = get_dnode_hostname (c.sprintf (codes "%u")) node in
      let request =
        request_head s.user s.pass
          (block_request c auth (codes "WRITE") b (c.sprintf (codes "%d") b.length_in_block)) in
      let result : Head → Cmd (Client W) ℕ =
        λ h. block_result talker c (at 361) h (pure b.length_in_block) 0 in
      let received : Bytes → Cmd (Client W) ℕ = λ t. head_of talker c (at 339) t >>= result in
      let talking : Bytes → Cmd (Client W) Bytes = λ m.
        talk talker c (at 315) (at 322) (at 334) host dnode_service_port
          (m ∷ take b.length_in_block buf ∷ []) in
      let sent : Bytes → Cmd (Client W) ℕ =
        λ m. in_bounds (leb b.length_in_block (length buf)) >>= λ _. talking m >>= received in
      bind-done (sbp_get_uand_p talker c) _ s s (s.user, s.pass) (sbp_get_uand_p-granted s)
      ∙ (bind-done (message_of talker c (at 307) request) sent s s bytes
            (message_of-made (at 307) request s len bytes made)
          ∙ (bind-done (in_bounds (leb b.length_in_block (length buf)))
                (λ _. talking bytes >>= received) s s tt (in_bounds-inside _ s enough)
              ∙ (bind-done (talking bytes) received s (after s trace peer) text (
                    talk-reply (at 315) (at 322) (at 334) host dnode_service_port
                      (bytes ∷ take b.length_in_block buf ∷ []) s text trace peer said)
                  ∙ (bind-done (head_of talker c (at 339) text) result (after s trace peer)
                        (after s trace peer) head
                        (head_of-answer (at 339) text head (after s trace peer) a)
                      ∙ block_result-ok (at 361) head (pure b.length_in_block) 0
                          (after s trace peer) title))))

  entry_of-found :
      (name type detail : Bytes) (place : Place) (head : Head) (value : Bytes) (s : Client W)
      → get_head_entry_value head name ≡ some value
      → entry_of talker c name type detail place head s ≡ done value s
  unfolding entry_of
  entry_of-found name type detail place head value s found = rw (entry_of, found) refl

  block_body-sized :
      (b : BlockEntry) (head : Head) (text value : Bytes) (s : Client W)
      → get_head_entry_value head (codes "Content-Length") ≡ some value
      → c.atoll value ≡ b.length_in_block
      → leb (head.head_len + b.length_in_block) (length text) ≡ true
      → block_body talker c b head text s
        ≡ done (b.length_in_block, take b.length_in_block (drop head.head_len text)) s
  unfolding block_body
  block_body-sized b head text value s found size whole =
      rw
        (
          entry_of-found (codes "Content-Length") head_err (codes "Missing Content-Length Entry")
              (rw_at (codes "read_block") 195) head value s found,
          size,
          ==-refl b.length_in_block,
          whole,
        )
        refl

  -- `read_block` sends the head, and goes by the title of the reply.
  read_block-answered :
      (b : BlockEntry) (node : ℕ) (auth : Bytes) (s : Client W) (len : ℕ) (bytes text : Bytes)
      (head : Head) (trace : Trace) (peer : W)
      → make_head (request_head s.user s.pass (block_request c auth (codes "READ") b (codes "0")))
        ≡ some (len, bytes)
      → talker
          (get_dnode_hostname (c.sprintf (codes "%u")) node)
          dnode_service_port
          (bytes ∷ [])
          s.trace
          s.peer
        ≡ (reply text, trace, peer)
      → IsAnswer text head
      → read_block talker c b node auth s
        ≡ block_result talker c
            (rw_at (codes "read_block") 210)
            head
            (block_body talker c b head text)
            (0, [])
            (after s trace peer)
  unfolding read_block sendrec_hostname
  read_block-answered b node auth s len bytes text head trace peer made said a =
      let host = get_dnode_hostname (c.sprintf (codes "%u")) node in
      let request =
        request_head s.user s.pass (block_request c auth (codes "READ") b (codes "0")) in
      let s' = after s trace peer in
      let at = rw_at (codes "read_block") in
      let lib = lib_at (codes "sendrec_hostname") in
      let result : Head → Bytes → Cmd (Client W) (ℕ × Bytes) =
        λ h t. block_result talker c (at 210) h (block_body talker c b h t) (0, []) in
      let received : Bytes → Cmd (Client W) (ℕ × Bytes) =
        λ t. head_of talker c (at 184) t >>= λ h. result h t in
      let talking : Bytes → Cmd (Client W) Bytes =
        λ m. talk talker c (lib 197) (lib 202) (lib 207) host dnode_service_port (m ∷ []) in
      bind-done (sbp_get_uand_p talker c) _ s s (s.user, s.pass) (sbp_get_uand_p-granted s)
      ∙ (bind-done (message_of talker c (at 175) request) (λ m. talking m >>= received) s s bytes
            (message_of-made (at 175) request s len bytes made)
          ∙ (bind-done (talking bytes) received s s' text (
                talk-reply (lib 197) (lib 202) (lib 207) host dnode_service_port (bytes ∷ []) s text
                  trace peer said)
              ∙ bind-done (head_of talker c (at 184) text) (λ h. result h text) s' s' head
                  (head_of-answer (at 184) text head s' a)))

  -- It takes the body of a good reply that has the length asked for.
  pub read_block-answer :
      (b : BlockEntry) (node : ℕ) (auth : Bytes) (s : Client W) (len : ℕ) (bytes text value : Bytes)
      (head : Head) (trace : Trace) (peer : W)
      → make_head (request_head s.user s.pass (block_request c auth (codes "READ") b (codes "0")))
        ≡ some (len, bytes)
      → talker
          (get_dnode_hostname (c.sprintf (codes "%u")) node)
          dnode_service_port
          (bytes ∷ [])
          s.trace
          s.peer
        ≡ (reply text, trace, peer)
      → IsAnswer text head
      → starts_with request_ok head.title ≡ true
      → get_head_entry_value head (codes "Content-Length") ≡ some value
      → c.atoll value ≡ b.length_in_block
      → leb (head.head_len + b.length_in_block) (length text) ≡ true
      → read_block talker c b node auth s
        ≡ done
            (b.length_in_block, take b.length_in_block (drop head.head_len text))
            (after s trace peer)
  read_block-answer b node auth s len bytes text value head trace peer made said a title found size
        whole =
      let s' = after s trace peer in
      read_block-answered b node auth s len bytes text head trace peer made said a
      ∙ (block_result-ok (rw_at (codes "read_block") 210) head (block_body talker c b head text)
            (0, []) s' title
          ∙ block_body-sized b head text value s' found size whole)

  -- An error reply ends it, and its error is added to the trace.
  pub read_block-refused :
      (b : BlockEntry) (node : ℕ) (auth : Bytes) (s : Client W) (len : ℕ) (bytes text : Bytes)
      (head : Head) (trace : Trace) (peer : W)
      → make_head (request_head s.user s.pass (block_request c auth (codes "READ") b (codes "0")))
        ≡ some (len, bytes)
      → talker
          (get_dnode_hostname (c.sprintf (codes "%u")) node)
          dnode_service_port
          (bytes ∷ [])
          s.trace
          s.peer
        ≡ (reply text, trace, peer)
      → IsAnswer text head
      → starts_with request_ok head.title ≡ false
      → starts_with request_err head.title ≡ true
      → read_block talker c b node auth s
        ≡ stop (minus 1) (after s (sbp_update_err c.grants head trace) peer)
  read_block-refused b node auth s len bytes text head trace peer made said a not_ok refused =
      read_block-answered b node auth s len bytes text head trace peer made said a
      ∙ block_result-refused (rw_at (codes "read_block") 210) head (block_body talker c b head text)
          (0, []) (after s trace peer) not_ok refused
