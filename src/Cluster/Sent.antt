-- ===== src/Cluster/Sent.antt =====
-- Messages that a client of libc sends in full to a data node: none of them is empty.
use sbpfs.Common.{
  ℕ, ◌≡◌, refl, sym, ap, arith, false, ltb, ◌==◌, Bool-cases, inl, inr, Option, none, some, [], ◌∷◌,
  ◌++◌, length, length-append, ne→==-false,
}
use sbpfs.Head.Strings.{Bytes}
use sbpfs.Head.{Head, crlf, max_entry_in_head, make_head, put_entries}
use sbpfs.Trace.{Trace}
use sbpfs.Node.{serve}
use sbpfs.Node.Files.{NodeEnv}
use sbpfs.Cluster.{Nodes, sent, has_empty, closed, cut, cluster, settled}

-- What `make_head` writes is not empty.
pub make_head-some_bytes :
    (head : Head) (n : ℕ) (bytes : Bytes)
    → make_head head ≡ some (n, bytes)
    → (length bytes == 0) ≡ false
unfolding make_head
make_head-some_bytes head n bytes h =
    elim (Bool-cases (ltb max_entry_in_head (length head.entrys))) [
      | inl many ↦ cc (rw many at h)
      | inr few ↦
          let size = ap (text_or []) (sym (rw few at h)) in
          ne→==-false (length bytes) 0 (λ z. absurd (
            omega (
              arith,
              ap length size,
              z,
              length-append (put_entries head.entrys (head.title ++ crlf)) crlf,
            )))
    ]
  where
    text_or : Bytes → Option (ℕ × Bytes) → Bytes
    text_or other none = other
    text_or other (some (m, text)) = text

sent-one : (m : Bytes) → (length m == 0) ≡ false → sent (m ∷ []) ≡ m ++ []
sent-one m h = rw h refl

sent-two :
    (m m' : Bytes)
    → (length m == 0) ≡ false
    → (length m' == 0) ≡ false
    → sent (m ∷ m' ∷ []) ≡ m ++ (m' ++ [])
sent-two m m' h h' = rw (h, h') refl

has_empty-one : (m : Bytes) → (length m == 0) ≡ false → has_empty (m ∷ []) ≡ false
has_empty-one m h = rw h refl

has_empty-two :
    (m m' : Bytes)
    → (length m == 0) ≡ false
    → (length m' == 0) ≡ false
    → has_empty (m ∷ m' ∷ []) ≡ false
has_empty-two m m' h h' = rw (h, h') refl

module _ (e : NodeEnv) (host : Bytes) (port : ℕ) (trace : Trace) (nodes : Nodes) where
  pub cluster-one :
      (m : Bytes)
      → (length m == 0) ≡ false
      → cluster e host port (m ∷ []) trace nodes
        ≡ settled host trace nodes (serve e (m ++ []) (nodes host))
  unfolding cluster
  cluster-one m h = λ i.
      cut (has_empty-one m h i) (closed e trace)
        (settled host trace nodes (serve e (sent-one m h i) (nodes host)))

  pub cluster-two :
      (m m' : Bytes)
      → (length m == 0) ≡ false
      → (length m' == 0) ≡ false
      → cluster e host port (m ∷ m' ∷ []) trace nodes
        ≡ settled host trace nodes (serve e (m ++ (m' ++ [])) (nodes host))
  unfolding cluster
  cluster-two m m' h h' = λ i.
      cut (has_empty-two m m' h h' i) (closed e trace)
        (settled host trace nodes (serve e (sent-two m m' h h' i) (nodes host)))
