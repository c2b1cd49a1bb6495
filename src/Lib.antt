-- ===== src/Lib.antt =====
-- RUDP: a TCP over UDP that was cut out of the lwIP stack. A program links it and hands received
-- packets to `tcp_input`; the library hands packets to `ip_output_if`, which the program defines.
--
-- The parts, bottom up, and the files that model them:
--   Err: the results of include/lwip/err.h.
--   Memp: src/memp.c, the pools of fixed-size elements, each a list of free elements.
--   Pbuf: src/pbuf.c, packet buffers. A `struct pbuf *` is the list of the pbufs that the `next` fields
--     lead through; a block is the memory that a payload pointer points into, and the pointer an
--     offset. Pbuf/Alloc: pbuf_alloc; Free: pbuf_free, pbuf_ref, pbuf_clen; Release: what freeing does
--     to the pools; Cat: pbuf_cat, pbuf_chain, pbuf_dechain; Shrink: pbuf_realloc; Header: pbuf_header;
--     Copy: pbuf_copy, pbuf_coalesce; Read: pbuf_skip, pbuf_get_at, pbuf_copy_partial, pbuf_memcmp,
--     pbuf_memfind, pbuf_strstr; Write: pbuf_put_at, pbuf_take, pbuf_take_at.
--   Tcp/Seq, Tcp/Types: include/lwip/tcp.h and tcp_impl.h: sequence numbers, segments, control blocks.
--   Tcp/Env: what the code uses of the outside world, as parameters: malloc and free of the C library,
--     and ip_output_if.
--   Tcp/App: the callbacks of the application, as parameters: functions from the control block and the
--     buffers to a result and what they leave, so that a callback may call the library.
--   Tcp/RcvWnd, Tcp/Recved, Tcp/Ports, Tcp/Segs: parts of src/tcp.c: tcp_update_rcv_ann_wnd,
--     tcp_recved, tcp_new_port, tcp_seg_free and tcp_segs_free.
--   Tcp/Conn: connections, in src/tcp.c: tcp_close, tcp_shutdown, tcp_abandon, tcp_pcb_purge,
--     tcp_pcb_remove. Conn/Alloc: tcp_alloc, tcp_kill_prio, tcp_kill_state, tcp_kill_timewait,
--     tcp_next_iss; Conn/Open: tcp_bind, tcp_listen_with_backlog, tcp_connect, tcp_new_server_id.
--   Tcp/Timers: what tcp_slowtmr and tcp_fasttmr of src/tcp.c do for one control block, and
--     tcp_process_refused_data; Timers/Tick: tcp_tmr; Timers/Keeps, Run and Stale prove what they leave.
--   Tcp/Options: tcp_getoptbyte and tcp_parseopt of src/tcp_in.c.
--   Tcp/Out: src/tcp_out.c. Make: tcp_output_alloc_header, tcp_create_segment, tcp_pbuf_prealloc;
--     Enqueue: tcp_write_checks, tcp_enqueue_flags, tcp_send_fin; Draft and Write: tcp_write, its
--     local variables and its phases; Output: tcp_output,
--     tcp_output_segment, tcp_send_empty_ack, tcp_rst; Rexmit: tcp_rexmit_rto, tcp_rexmit,
--     tcp_rexmit_fast, tcp_keepalive, tcp_zero_window_probe. The other files below Tcp/Out prove things
--     about these. Wire has a record of the packets that are handed to ip_output_if, which Sent, Window
--     and Receiver state their theorems with.
--   Tcp/In: src/tcp_in.c. Receive: tcp_receive, whose parts are Ack, for the acknowledgement, with Rtt,
--     the round-trip time estimation; Inseg, for the incoming segment; and Ooseq, for the queue of
--     out-of-sequence segments. Process: tcp_process and tcp_timewait_input; Process/Rfc is its
--     specification, the diagram of RFC 793 as a step relation, and Process/Refines the refinement.
--     Arrive, Demux and Input: tcp_input: the header of a packet, the search through the lists, and
--     what is done for an active control block; Listen: tcp_listen_input.
--   Prelude: the names, Boolean tests and lemmas that the modules share. The files called Tests run
--     the definitions on concrete data.
--
-- How the code is modelled. A function of the source is a function from the state it reads to its
-- result and the state it leaves: a control block (`Pcb`), and the pools, the heap and the outside
-- world (`Buffers`). A queue of segments or a chain of pbufs is a list in place of `next` pointers.
-- Numbers are natural numbers, with the wrap of the C type written out where the source can reach it;
-- the s16_t fields are integers that are brought back into range at each assignment. Headers are kept
-- in host byte order, as records beside the bytes of the pbuf that holds them.
--
-- The configuration is that of include/lwip/lwipopts.h: TCP_MSS 536, TCP_WND 5360, TCP_SND_BUF 6432,
-- TCP_SND_QUEUELEN 40, pool pbufs of 556 bytes, no window scaling, no timestamps, no checksums, no
-- threads (NO_SYS), and LWIP_DEBUG, which turns on the debugging check of oversized segments. Assertions
-- are taken to be compiled out, so that a function is modelled also where an assertion would fail.
-- Statistics and debug output are left out.
--
-- The pbufs of `inseg` have an owner in the model (`InsegBuf`): `inseg` itself, the application, or the
-- queue of out-of-sequence segments. In the last case the reference that tcp_seg_copy adds and the one
-- that tcp_input gives up at the end cancel out. A read through a null pointer is a run without a result.
-- Which of the lists of control blocks a block is on is a value of the type `Home`; where the lists
-- matter, in tcp_input, tcp_alloc and the functions that open connections, they are lists of control
-- blocks. What a callback does to the lists is not followed. A callback returns the control block it
-- leaves, and with ABRT there is none.
--
-- Loops are structural, but for six: a round of pbuf_copy uses up or fills a pbuf, the tail of
-- a pool chain takes a byte each round, the search for a port has as many rounds as there are ports,
-- the parse of the options moves on each round, the search for an identifier of a server has a round
-- more than there are identifiers in use, and phase 3 of tcp_write counts a pbuf more each round, of
-- which TCP_SND_QUEUELEN may be queued; each has that bound as its fuel. Where the congestion window
-- is 0, which C would divide by, the quotient is that of the natural numbers.
--
-- Not modelled: pbuf_free_ooseq; the loops of the timers over the lists; the setters of the
-- callbacks; src/timers.c, which this configuration compiles out; src/sys_arch.c, src/init.c and
-- src/stats.c, which hold no protocol logic; and the programs under test.
pub mod Memp
pub mod Err
pub mod Prelude
pub mod Pbuf
pub mod Tcp
