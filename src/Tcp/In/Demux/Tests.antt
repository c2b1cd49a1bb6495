-- ===== src/Tcp/In/Demux/Tests.antt =====
-- Runs of `tcp_input` of src/tcp_in.c: a packet whose options are split over two pbufs.
use rudp.Pbuf.Read.{byte_at}
use rudp.Tcp.Samples.{conn, bufs, busy, idle, world}
use rudp.Pbuf.Alloc.{new_pbuf}
use rudp.Prelude.{none, ◌+◌, ◌++◌, refl, arith, true, replicate, [], false, ◌≡◌, Bool, ℕ, ◌∷◌}
use rudp.Tcp.In.Demux.Confined.{input-Changes, ChangesIfAny}
use rudp.Tcp.In.Arrive.Took.{take_header-Took, Took}
use rudp.Pbuf.{ram, Chain, Pbuf}
use rudp.Tcp.In.Arrive.{taken, take_header}
use rudp.Tcp.Types.{time_wait, no_hdr_flags, Pcb, TcpHdr}
use rudp.Tcp.In.Demux.{input, Stack}

-- The header with the first two bytes of its option, and the rest with the data.
abbrev head : Pbuf
head = record (new_pbuf ram (replicate 20 0 ++ (2 ∷ 4 ∷ [])) 0 22 34) { tot_len = 34 }

abbrev tail : Pbuf
tail = new_pbuf ram (1 ∷ 0 ∷ replicate 10 7) 0 12 12

abbrev packet : Chain
packet = head ∷ tail ∷ []

abbrev packet_hdr : TcpHdr
packet_hdr = record {
  conn_id = conn;
  seqno = 100;
  ackno = 4;
  hdrlen = 6;
  flags = record no_hdr_flags { ack = true };
  wnd = 4000;
}

take_header-Took_example : Took 6 packet (take_header packet 6)
take_header-Took_example =
    take_header-Took head (tail ∷ []) 6
      (refl, omega arith, omega arith, (refl, omega arith, omega arith, tt)) (omega arith)
      (omega arith) (omega arith)

-- One connection is active, and another one waits.
abbrev stack : Stack ℕ
stack = record {
  pcbs = record {
    listeners = [];
    bound = [];
    active = busy ∷ [];
    tw = record busy { state = time_wait } ∷ [];
  };
  server_id = 1;
  iss = 0;
  s = bufs;
}

abbrev no_input : Pcb → Bool
no_input pcb = false

abbrev short_hdr : TcpHdr
short_hdr = record packet_hdr { hdrlen = 5 }

whole_header :
    take_header packet 5
    ≡ taken
        (record head { payload = 20; len = 2; tot_len = 14 } ∷ tail ∷ [])
        (record { opt1len = 0; opt1 = λ i. byte_at head (20 + i); opt2 = none })
unfolding take_header
whole_header = refl

input-Changes_example :
    ChangesIfAny short_hdr false stack.pcbs
      (input world 10 20 idle no_input stack 1 80 packet short_hdr)
input-Changes_example =
    input-Changes world 10 20 idle no_input stack 1 80 packet
      (record head { payload = 20; len = 2; tot_len = 14 } ∷ tail ∷ []) short_hdr
      (record { opt1len = 0; opt1 = λ i. byte_at head (20 + i); opt2 = none }) whole_header
