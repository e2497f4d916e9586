-- ===== src/Cfs/Blocks/Read.antt =====
-- What `c_read` of c_node/fs/cfs.c sends for a range.
use sbpfs.Cfs.Meta
