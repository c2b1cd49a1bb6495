-- ===== src/Tcp/Out/Wire.antt =====
-- A record of the packets that src/tcp_out.c hands to `ip_output_if`, and what the pbufs and the
-- segments that it allocates and frees leave of it.
use rudp.Tcp.Seq.{seq_lt}
use rudp.Pbuf.Release.{release, release_one}
use rudp.Pbuf.Alloc.{header_offset, Buffers, alloc}
use rudp.Prelude.{
  ◌∙◌, ◌==◌, ◌%◌, ◌-◌, ◌+◌, refl, Bool-cases, inl, inr, ◌⊎◌, [], ◌∷◌, if_elim, ◌++◌, ◌≡◌, List, ℕ,
}
use rudp.Tcp.Out.Output.{before_last, add_unacked}
use rudp.Tcp.Types.{Seg}
use rudp.Tcp.Segs.{seg_free, insert_seg}
use rudp.Tcp.Env.{Packet, Env}
use rudp.Pbuf.{u16_mod, PbufLayer, Pbuf, Chain, ram, rom, ref, pool}

-- A packet with the address and the port that it is sent to.
abbrev pub Posted : Type 0
Posted = Packet × ℕ × ℕ

-- `wire` reads off the outside world which packets were handed to `ip_output_if`, in order. The C
-- library's `malloc` and `free` send nothing.
pub record Records {W : Type 0} (env : Env W) (wire : W → List Posted) : Type 0 where
  pub ip_output_if-wire :
      (w : W) (packet : Packet) (remote_ip remote_udp_port : ℕ)
      → wire (env.ip_output_if w packet remote_ip remote_udp_port).1
        ≡ wire w ++ ((packet, remote_ip, remote_udp_port) ∷ [])
  pub mem_malloc-wire : (w : W) (n : ℕ) → wire (env.mem_malloc w n).1 ≡ wire w
  pub mem_free-wire : (w : W) (block : List ℕ) → wire (env.mem_free w block) ≡ wire w

-- The segment is on the list.
abbrev pub Among : Seg → List Seg → Type 0
Among seg [] = ⊥
Among seg (x ∷ xs) = (x ≡ seg) ⊎ Among seg xs

pub Among-append_left : (seg : Seg) (xs ys : List Seg) → Among seg xs → Among seg (xs ++ ys)
Among-append_left seg [] ys h = absurd h
Among-append_left seg (x ∷ xs) ys (inl e) = inl e
Among-append_left seg (x ∷ xs) ys (inr h) = inr (Among-append_left seg xs ys h)

Among-last : (seg : Seg) (xs : List Seg) → Among seg (xs ++ (seg ∷ []))
Among-last seg [] = inl refl
Among-last seg (x ∷ xs) = inr (Among-last seg xs)

insert_seg-Among :
    (seg x : Seg) (segs : List Seg) → (x ≡ seg) ⊎ Among seg segs → Among seg (insert_seg segs x)
unfolding insert_seg
insert_seg-Among seg x [] h = h
insert_seg-Among seg x (cur ∷ segs) h =
    if_elim (Among seg) (seq_lt cur.tcphdr.seqno x.tcphdr.seqno) (cur ∷ insert_seg segs x)
      (x ∷ (cur ∷ segs))
      (λ t. elim h [
        | inl e ↦ inr (insert_seg-Among seg x segs (inl e))
        | inr (inl e) ↦ inl e
        | inr (inr k) ↦ inr (insert_seg-Among seg x segs (inr k))
      ])
      (λ t. h)

-- A segment that joins the unacknowledged ones is among them then.
pub add_unacked-new : (segs : List Seg) (seg : Seg) → Among seg (add_unacked segs seg)
unfolding add_unacked
add_unacked-new segs seg =
    if_elim (Among seg) (before_last segs seg) (insert_seg segs seg) (segs ++ (seg ∷ []))
      (λ t. insert_seg-Among seg seg segs (inl refl)) (λ t. Among-last seg segs)

-- The others stay.
pub add_unacked-old :
    (segs : List Seg) (seg x : Seg) → Among x segs → Among x (add_unacked segs seg)
unfolding add_unacked
add_unacked-old segs seg x h =
    if_elim (Among x) (before_last segs seg) (insert_seg segs seg) (segs ++ (seg ∷ []))
      (λ t. insert_seg-Among x seg segs (inr h)) (λ t. Among-append_left x segs (seg ∷ []) h)

module _ {W : Type 0} (env : Env W) (wire : W → List Posted) (records : Records env wire) where
  release_one-wire :
      (s : Buffers W) (p : Pbuf) → wire (release_one env.mem_free s p).heap ≡ wire s.heap
  unfolding release_one
  release_one-wire s p =
      elim p.kind
        as (λ k. wire (release_one env.mem_free s (record p { kind = k })).heap ≡ wire s.heap) [
          | pool ↦ refl
          | rom ↦ refl
          | ref ↦ refl
          | ram ↦ records.mem_free-wire s.heap p.block
        ]

  pub release-wire :
      (ps : Chain) (s : Buffers W) → wire (release env.mem_free s ps).heap ≡ wire s.heap
  unfolding release
  release-wire [] s = refl
  release-wire (p ∷ ps) s = elim (Bool-cases ((p.refs + u16_mod - 1) % u16_mod == 0)) [
    | inl last ↦ rw last (release-wire ps (release_one env.mem_free s p) ∙ release_one-wire s p)
    | inr more ↦ rw more refl
  ]

  pub seg_free-wire : (s : Buffers W) (seg : Seg) → wire (seg_free env s seg).heap ≡ wire s.heap
  unfolding seg_free
  seg_free-wire s seg = release-wire seg.p s

  pub alloc-ram_wire :
      (s : Buffers W) (layer : PbufLayer) (length : ℕ)
      → wire (alloc env.mem_malloc s layer length ram).1.heap ≡ wire s.heap
  unfolding alloc
  alloc-ram_wire s layer length = records.mem_malloc-wire s.heap (header_offset layer + length)
