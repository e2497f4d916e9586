-- ===== src/Lib.antt =====
-- SBPFS, a distributed file system: a control node keeps the directory tree, data nodes keep the
-- blocks of the files, and a client library talks to both in a text protocol.
--
-- Parts and files:
--
-- Common holds what the others share: Boolean tests, lists measured by native numbers, byte buffers
-- with the integers of a C struct in them (Common/Mem), facts by evaluation (Common/Tables), and
-- how a C function ends (Common/Run): with a value, with a code and an early return, or in a loop
-- that the given rounds do not end.
--
-- Cfs is the directory tree of the control node, c_node/fs/cfs.c. Its state is the record Dtree of
-- Cfs/State: the super block, the FAT by entries and the data area by bytes. Cfs/Meta, Cfs/Entry and
-- Cfs/Block are the fields of the structs of c_node/fs/cfs.h at an offset of a buffer. Cfs/Fat has
-- next_free_fat, reset_fat, extend, do_writefile and do_readfile; Cfs/Init has initfile, initdir and
-- do_mkcfs; Cfs/Dir has find_entry_by_name, do_remove_entry and is_dir_empty; Cfs/Path has
-- get_filename_from_path, c_find_entry and c_lookup; Cfs/Perm has permission_check and own_check.
-- Cfs/Query, Cfs/Create, Cfs/Delete and Cfs/Move have the operations on paths, which share
-- Cfs/Parent, and Cfs/Blocks has c_read and c_write. Cfs/Disk has open_disk, save_disk, load_file and
-- save_file over the two image files; Cfs/Disk/Layout says where the fields of a Dtree stand in the
-- bytes of dt_buf, and Cfs/Disk/Durable follows a file through
-- a write, a save and an opening. Each operation is a command over the Dtree, with
-- the guards in the order of the code, and it calls the others the way the code does.
--
-- Head is the text protocol of libc/lib.c: make_head, decode_head, get_missing_len and
-- get_head_entry_value over byte strings; Head/Strings has strstr. overruns says which texts make
-- decode_head write behind the 32 entries of entrys, and its callers end the program there; they also
-- ask malloc for the bytes of a head. Head/Room is about texts that do not. Net is the client's transport in
-- the same file: sbp_send, get_slot and get_dnode_hostname, and sbp_recv in Net/Recv.
--
-- Trace is the error trace of libc/sbp_perror.c: sbp_seterr, sbp_update_err and sbp_perror over the
-- list that err_trace heads; Trace/Order is about them.
--
-- Client is the library that programs call. Client/State has its globals of libc/global.c as a record;
-- Client/Request has the macros of libc/lib.h, from SBP_PREPARE_REQUEST to SBP_PROCESS_ERR, which
-- every operation goes through, with sendrec_hostname and sbp_getUandP (sbp_get_uand_p); Client/Files has libc/open.c,
-- libc/dir.c and sbp_seek; Client/Names has sbp_mkdir, sbp_rmdir, sbp_chmod, sbp_chown, sbp_move,
-- sbp_remove, sbp_login and sbp_sethost; Client/Blocks has libc/read_write.c. A C function that
-- returns a pointer or a length returns the bytes behind it here; where it returns NULL or -1 the
-- command stops with -1. A null pointer that is used, and an index out of bounds, end the
-- program, like a loop that does not end. Client/Safe, Client/Gives, Client/Received, Client/Frame, Client/Transfer,
-- Client/Ends, Client/Offset and Client/Seek are about these, and Client/Wire has a conversation that goes well step by step.
--
-- Node is the data node of d_node/haha: serve, process_req and send_err of d_node.c in Node, and
-- readblock, writeblock, createblock, deleteblock and the list of names, with the file that it is kept
-- in, of blockman.c in Node/Files; Node/Listing has getlist and initlist, which read that file, and
-- Node/Report the messages that a node sends on its own: send_list, send_success, get_reply and
-- send_copy. Node/Store, Node/Names, Node/Fields, Node/Listed,
-- Node/Delisted and Node/Restart are about them. Node/Threads has the
-- threads that main of d_node.c starts, as steps over the buffer path that they share. Cluster puts clients and data nodes together: a
-- conversation gives the messages to serve of the node that has the host's name, up to an empty one, for
-- which sbp_send fails (Cluster/Sent). Cluster/Stored has one
-- conversation, Cluster/Copies and Cluster/Range the loops that write and read the blocks of a range,
-- Cluster/Survive a block that some nodes have lost, and Cluster/Copy a block that one node sends to
-- another.
--
-- OldNode is the earlier data node, d_node/tcpserver.c, with its blocks of d_node/blockman.c in
-- OldNode/Blocks: recinfo, decode_head, ana_head and sbp_recv, which take a request, and build_headr,
-- build_headw, build_headp, reportwrite and reportlist, which make its messages. The Peer says what
-- recv gives. OldNode/Deaf and OldNode/Replies are about them, against the protocol of libc/lib.c.
--
-- Parameters: the record Env supplies time(NULL), which malloc grants which size, and what a granted
-- buffer holds before it is written. atoll, the printing of a number and the answers of send are
-- arguments of Head and Net. A Talker is what sbp_connect, sbp_send and sbp_recv do with the messages
-- of a client: any answer, any error, any change of the peers. The record Libc supplies malloc,
-- sprintf of a number and atoll to the client, and NodeEnv adds atoi, the files that can be created
-- what a buffer holds that is not set, what addlist reads behind the end of its buffer p, and what delnum
-- holds. Os of Cfs/Disk is what open, read and write
-- answer. IsFaithful of Cluster/Stored says what is relied on, IsFittingTalker of Client/Received that a
-- reply has 32 entries at most and the bytes that its Content-Length says, for which sbp_recv waits, and
-- IsIntact of Node/Listed that addlist prints the count elsewhere than over the name.
--
-- Integers: a u32_t or u64_t is a natural number with the wrap-around of the operation written out;
-- an int that the code makes from a u32_t is read by int_of_u32.
--
-- Rounds: do_readfile and reset_fat get two rounds more than there are sectors, since a chain that
-- ends visits no sector twice. The loop that looks for a free sector and extends the disk gets 34,
-- since the size has doubled to 0 modulo 2^32 by then; one extension is enough where it is granted.
-- A search in a directory gets one round more than the directory has entries. sbp_send gets one round
-- more than there are bytes, since a round that goes on has sent one. sbp_recv gets its rounds as an
-- argument, since a recv that fails sets it back. decode_head gets one
-- round more than the head has bytes. load_file gets two rounds more than the file has bytes, since a
-- round that goes on has read one.
--
-- The node takes memory for its heads as granted, and in get_reply and decode_head of Node/Report a head
-- of 32 entries at most. A row behind the 64 of blocklist is taken to damage nothing else.
--
-- Validity: a valid disk has sectors of 512 bytes, fewer than 2^23 of them, so that the offset of
-- every sector is below 2^32, and the table entries behind the last data sector are free. A chain of sectors is taken to rise, as the
-- allocator makes it. A write is given room for an extension at each of its blocks but the first, so that
-- the disk stays below 2^23 sectors.
--
-- Not modelled: sbp_connect, which only calls the socket library (with sbp_send and sbp_recv it is
-- behind the Talker); the data node's copies of libc/lib.c and libc/sbp_perror.c; ConnectServer, sendinfo and main of d_node/tcpserver.c, which
-- only call the system; close_disk, which only gives memory
-- back; the Python bindings and the Python programs.
pub mod Common
pub mod Cfs
pub mod Head
pub mod Net
pub mod Trace
pub mod Client
pub mod Node
pub mod Cluster
pub mod OldNode
