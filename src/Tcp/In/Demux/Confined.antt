-- ===== src/Tcp/In/Demux/Confined.antt =====
-- What `tcp_input` of src/tcp_in.c may do to the lists of control blocks.
use rudp.Tcp.Conn.Alloc.Evicted.{Evicted}
use rudp.Tcp.In.Listen.Asked.{listen_input-Asked, Asked, asks}
use rudp.Tcp.Out.Make.{head_payload}
use rudp.Tcp.In.Listen.{Listened}
use rudp.Tcp.In.Input.{find_active, input_active}
use rudp.Pbuf.{tot_len, Chain}
use rudp.Tcp.In.Process.{timewait_input}
use rudp.Tcp.Options.{OptBytes}
use rudp.Tcp.Conn.{Listener}
use rudp.Tcp.Timers.{Left}
use rudp.Pbuf.Alloc.{Buffers}
use rudp.Tcp.In.Demux.{
  input_taken, register, after_listen, input_inactive, demux, input, pass_over, after_active,
  settle, input_unmatched, input_tw, is_for_tw, Stack,
}
use rudp.Tcp.App.{App}
use rudp.Tcp.In.Input.Find.{find_active-Found, NoneFor, Found}
use rudp.Tcp.Conn.Alloc.{has_free, Pcbs}
use rudp.Prelude.{
  inr, inl, sym, subst, refl, [], ap, true, if_elim, false, ◌++◌, none, ◌≡◌, ◌∷◌, some, Bool, All,
  Option, ℕ, List,
}
use rudp.Tcp.Env.{Env}
use rudp.Tcp.Types.{time_wait, Seg, is_state, Pcb, TcpHdr}
use mathlib.Core.Option
use rudp.Tcp.In.Arrive.{take_header, taken}

-- The segment is for none of the control blocks in TIME-WAIT.
abbrev pub NoneWaits : TcpHdr → List Pcb → Type 0
NoneWaits tcphdr pcbs = All (λ pcb. is_for_tw tcphdr pcb ≡ false) pcbs

-- What a segment may change: the first active control block that it is for is kept, moved or freed;
-- else the first one in TIME-WAIT is changed in its place; else it is ignored, by a listener or for
-- want of one, or it asks the listener for a connection: `l'` is what is left of the lists then,
-- and a new control block may be in front of the active ones.
pub data Change (tcphdr : TcpHdr) (free : Bool) (l : Pcbs) : Pcbs → Type 0 where
  kept :
      (pcb pcb' : Pcb) (others : List Pcb)
      → Found tcphdr l.active (some (pcb, others))
      → Change tcphdr free l (record l { active = pcb' ∷ others })
  moved :
      (pcb pcb' : Pcb) (others : List Pcb)
      → Found tcphdr l.active (some (pcb, others))
      → is_state pcb'.state time_wait ≡ true
      → Change tcphdr free l (record l { active = others; tw = pcb' ∷ l.tw })
  freed :
      (pcb : Pcb) (others : List Pcb)
      → Found tcphdr l.active (some (pcb, others))
      → Change tcphdr free l (record l { active = others })
  waits :
      (before : List Pcb) (pcb pcb' : Pcb) (behind : List Pcb)
      → NoneFor tcphdr l.active
      → NoneWaits tcphdr before
      → is_for_tw tcphdr pcb ≡ true
      → l.tw ≡ before ++ (pcb ∷ behind)
      → Change tcphdr free l (record l { tw = before ++ (pcb' ∷ behind) })
  ignored : NoneFor tcphdr l.active → NoneWaits tcphdr l.tw → Change tcphdr free l l
  refused :
      (lpcb : Listener) (lpcbs : List Listener) (l' : Pcbs)
      → NoneFor tcphdr l.active
      → NoneWaits tcphdr l.tw
      → l.listeners ≡ lpcb ∷ lpcbs
      → asks tcphdr.flags ≡ true
      → Evicted free l l'
      → Change tcphdr free l l'
  opened :
      (lpcb : Listener) (lpcbs : List Listener) (l' : Pcbs) (npcb : Pcb)
      → NoneFor tcphdr l.active
      → NoneWaits tcphdr l.tw
      → l.listeners ≡ lpcb ∷ lpcbs
      → asks tcphdr.flags ≡ true
      → Evicted free l l'
      → Change tcphdr free l (record l' { active = npcb ∷ l'.active })

abbrev pub ChangesIfAny : {W : Type 0} → TcpHdr → (free : Bool) → Pcbs → Option (Stack W) → Type 0
ChangesIfAny tcphdr free l none = Unit {0}
ChangesIfAny tcphdr free l (some st) = Change tcphdr free l st.pcbs

-- The search through the control blocks in TIME-WAIT.
abbrev pub TwFound : {W : Type 0} → TcpHdr → List Pcb → Option (List Pcb × Buffers W) → Type 0
TwFound tcphdr pcbs none = NoneWaits tcphdr pcbs
TwFound tcphdr pcbs (some (pcbs', s)) =
    (before : List Pcb) × (pcb : Pcb) × (pcb' : Pcb) × (behind : List Pcb) × (pcbs
      ≡ before ++ (pcb ∷ behind))
    × (pcbs' ≡ before ++ (pcb' ∷ behind))
    × (is_for_tw tcphdr pcb ≡ true)
    × NoneWaits tcphdr before

pass_over-TwFound :
    {W : Type 0} (tcphdr : TcpHdr) (pcb : Pcb) (pcbs : List Pcb) (o : Option (List Pcb × Buffers W))
    → is_for_tw tcphdr pcb ≡ false
    → TwFound tcphdr pcbs o
    → TwFound tcphdr (pcb ∷ pcbs) (pass_over pcb o)
pass_over-TwFound tcphdr pcb pcbs none e f = (e, f)
pass_over-TwFound tcphdr pcb pcbs (some (pcbs', s)) e f =
    (pcb ∷ f.0, f.1, f.2, f.3, ap (λ xs. pcb ∷ xs) f.4, ap (λ xs. pcb ∷ xs) f.5, f.6, (e, f.7))

module _ {W : Type 0} (env : Env W) (tcp_ticks tcp_timer_ctr : ℕ) (app : App W)
    (is_input : Pcb → Bool) where
  input_tw-TwFound :
      (i : Seg) (pcbs : List Pcb) (s : Buffers W)
      → TwFound i.tcphdr pcbs (input_tw env tcp_ticks tcp_timer_ctr app is_input i pcbs s)
  unfolding input_tw
  input_tw-TwFound i [] s = tt
  input_tw-TwFound i (pcb ∷ pcbs) s =
      let (err, pcb', s') = timewait_input env tcp_ticks app (is_input pcb) pcb i s in
      if_elim (TwFound i.tcphdr (pcb ∷ pcbs)) (is_for_tw i.tcphdr pcb) (some (pcb' ∷ pcbs, s')) _
        (λ is. ([], pcb, pcb', pcbs, refl, refl, is, tt))
        (λ other.
          pass_over-TwFound i.tcphdr pcb pcbs
            (input_tw env tcp_ticks tcp_timer_ctr app is_input i pcbs s) other
            (input_tw-TwFound i pcbs s))

  settle-Change :
      (tcphdr : TcpHdr) (free : Bool) (l : Pcbs) (pcb : Pcb) (others : List Pcb) (left : Option Pcb)
      → Found tcphdr l.active (some (pcb, others))
      → Change tcphdr free l (settle l others left)
  settle-Change tcphdr free l pcb others none f = freed pcb others f
  settle-Change tcphdr free l pcb others (some pcb') f =
      if_elim (Change tcphdr free l) (is_state pcb'.state time_wait)
        (record l { active = others; tw = pcb' ∷ l.tw }) (record l { active = pcb' ∷ others })
        (λ t. moved pcb pcb' others f t) (λ t. kept pcb pcb' others f)

  active-Changes :
      (tcphdr : TcpHdr) (free : Bool) (st : Stack W) (pcb : Pcb) (others : List Pcb)
      (left : Option (Left W))
      → Found tcphdr st.pcbs.active (some (pcb, others))
      → ChangesIfAny tcphdr free st.pcbs
          (Option.map (after_active env tcp_ticks tcp_timer_ctr app is_input st others) left)
  active-Changes tcphdr free st pcb others none f = tt
  active-Changes tcphdr free st pcb others (some (pcb', s)) f =
      settle-Change tcphdr free st.pcbs pcb others pcb' f

  heard-Changes :
      (tcphdr : TcpHdr) (free : Bool) (l : Pcbs) (p : Chain) (lpcb : Listener)
      (lpcbs : List Listener) (result : Option (Listened W))
      → NoneFor tcphdr l.active
      → NoneWaits tcphdr l.tw
      → l.listeners ≡ lpcb ∷ lpcbs
      → Asked tcphdr.flags free l result
      → ChangesIfAny tcphdr free l
          (Option.map (after_listen env tcp_ticks tcp_timer_ctr app is_input p) result)
  heard-Changes tcphdr free l p lpcb lpcbs none a w e h = tt
  heard-Changes tcphdr free l p lpcb lpcbs (some r) a w e (inl (no_pcb, same)) =
      subst (λ x. Change tcphdr free l (register x r.pcbs)) (sym no_pcb)
        (subst (λ x. Change tcphdr free l x) (sym same) (ignored a w))
  heard-Changes tcphdr free l p lpcb lpcbs (some r) a w e (inr (asked, left)) =
      elim r.npcb as (λ x. Change tcphdr free l (register x r.pcbs)) [
        | none ↦ refused lpcb lpcbs r.pcbs a w e asked left
        | some npcb ↦ opened lpcb lpcbs r.pcbs npcb a w e asked left
      ]

  unmatched-Changes :
      (lpcbs : List Listener) (st : Stack W) (remote_ip port : ℕ) (i : Seg) (opts : OptBytes)
      → NoneFor i.tcphdr st.pcbs.active
      → NoneWaits i.tcphdr st.pcbs.tw
      → st.pcbs.listeners ≡ lpcbs
      → ChangesIfAny i.tcphdr
          (has_free st.s)
          st.pcbs
          (input_unmatched env tcp_ticks tcp_timer_ctr app is_input lpcbs st remote_ip port i opts)
  unfolding input_unmatched
  unmatched-Changes [] st remote_ip port i opts a w e =
      if_elim (ChangesIfAny i.tcphdr (has_free st.s) st.pcbs) i.tcphdr.flags.rst _ none
        (λ t. ignored a w) (λ t. tt)
  unmatched-Changes (lpcb ∷ lpcbs) st remote_ip port i opts a w e =
      heard-Changes i.tcphdr (has_free st.s) st.pcbs i.p lpcb lpcbs _ a w e (
        listen_input-Asked env tcp_ticks app is_input lpcb st.pcbs remote_ip port tcp_timer_ctr
          st.server_id st.iss i opts st.s)

  inactive-Changes :
      (found : Option (List Pcb × Buffers W)) (st : Stack W) (remote_ip port : ℕ) (i : Seg)
      (opts : OptBytes)
      → NoneFor i.tcphdr st.pcbs.active
      → TwFound i.tcphdr st.pcbs.tw found
      → ChangesIfAny i.tcphdr
          (has_free st.s)
          st.pcbs
          (input_inactive env tcp_ticks tcp_timer_ctr app is_input found st remote_ip port i opts)
  unfolding input_inactive
  inactive-Changes none st remote_ip port i opts a w =
      unmatched-Changes st.pcbs.listeners st remote_ip port i opts a w refl
  inactive-Changes (some (tw, s)) st remote_ip port i opts a w =
      let (before, pcb, pcb', behind, e, e', is, others) = w in
      subst (λ tw. Change i.tcphdr (has_free st.s) st.pcbs (record st.pcbs { tw = tw })) (sym e')
        (waits before pcb pcb' behind a others is e)

  demux-Changes :
      (found : Option (Pcb × List Pcb)) (st : Stack W) (remote_ip port : ℕ) (i : Seg)
      (opts : OptBytes)
      → Found i.tcphdr st.pcbs.active found
      → ChangesIfAny i.tcphdr
          (has_free st.s)
          st.pcbs
          (demux env tcp_ticks tcp_timer_ctr app is_input found st remote_ip port i opts)
  unfolding demux
  demux-Changes none st remote_ip port i opts f =
      inactive-Changes (input_tw env tcp_ticks tcp_timer_ctr app is_input i st.pcbs.tw st.s) st
        remote_ip port i opts f (input_tw-TwFound i st.pcbs.tw st.s)
  demux-Changes (some (pcb, others)) st remote_ip port i opts f =
      active-Changes i.tcphdr (has_free st.s) st pcb others
        (input_active env tcp_ticks app pcb i opts st.s) f

  -- The header of a packet is taken off, and `tcp_input` changes the lists of control blocks by one
  -- of the steps of `Change`, where it has a result: the first active connection that the segment
  -- is for is kept, moved to TIME-WAIT or freed, or else the first one in TIME-WAIT that it is for
  -- changes, and all others and the other lists stay as they are. When it is for none of them, all
  -- lists stay as they are, unless a listener is there and the segment is a SYN without ACK and
  -- RST. Then a new control block may come in front of the active ones, and when no control block
  -- was free, at most one connection in TIME-WAIT and three active ones are gone, but none is gone
  -- when one was free; the others stay in their order, and so do the listeners and the bound ones.
  pub input-Changes :
      (st : Stack W) (remote_ip port : ℕ) (p p' : Chain) (tcphdr : TcpHdr) (opts : OptBytes)
      → take_header p tcphdr.hdrlen ≡ taken p' opts
      → ChangesIfAny tcphdr
          (has_free st.s)
          st.pcbs
          (input env tcp_ticks tcp_timer_ctr app is_input st remote_ip port p tcphdr)
  unfolding input
  input-Changes st remote_ip port p p' tcphdr opts e =
      let i : Seg = record {
        p = p';
        len = tot_len p';
        oversize_left = 0;
        opt_mss = false;
        hdr_at = head_payload p;
        tcphdr = tcphdr;
      } in
      subst
        (λ t.
          ChangesIfAny tcphdr (has_free st.s) st.pcbs
            (input_taken env tcp_ticks tcp_timer_ctr app is_input t st remote_ip port p tcphdr))
        (sym e)
        (demux-Changes (find_active tcphdr st.pcbs.active) st remote_ip port i opts
          (find_active-Found tcphdr st.pcbs.active))
