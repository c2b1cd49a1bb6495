-- ===== src/Tcp/In/Listen/Asked.antt =====
-- src/tcp_in.c: what `tcp_listen_input` may do to the lists of control blocks.
use rudp.Tcp.Options.{OptBytes}
use rudp.Tcp.Conn.{Listener}
use rudp.Pbuf.Alloc.{Buffers}
use rudp.Tcp.Conn.Alloc.Evicted.{alloc_pcb-Evicted, Evicted}
use rudp.Tcp.App.{App}
use rudp.Tcp.In.Listen.{ids_in_use, new_server_id, listen_input, accept_request, Listened}
use rudp.Prelude.{
  sym, ◌⊎◌, subst, none, inr, some, inl, if_elim, refl, ◌&&◌, true, false, not, ℕ, Option, ◌≡◌,
  Bool,
}
use rudp.Tcp.Types.{Seg, Pcb, HdrFlags}
use rudp.Tcp.Env.{Env}
use rudp.Tcp.Conn.Alloc.{alloc_pcb, has_free, Pcbs}

-- The segment asks for a connection.
abbrev pub asks : HdrFlags → Bool
asks flags = not flags.rst && not flags.ack && flags.syn

-- Without a request the lists are kept, and there is no new control block; a request may take
-- others off the lists.
abbrev pub Asked : {W : Type 0} → HdrFlags → (free : Bool) → Pcbs → Option (Listened W) → Type 0
Asked flags free l none = Unit {0}
Asked flags free l (some r) =
    ((r.npcb ≡ none) × (r.pcbs ≡ l)) ⊎ ((asks flags ≡ true) × Evicted free l r.pcbs)

-- The lists of a result.
abbrev HasPcbs : {W : Type 0} → Pcbs → Option (Listened W) → Type 0
HasPcbs l none = Unit {0}
HasPcbs l (some r) = r.pcbs ≡ l

HasPcbs-Asked :
    {W : Type 0} (flags : HdrFlags) (free : Bool) (l l1 : Pcbs) (o : Option (Listened W))
    → asks flags ≡ true
    → Evicted free l l1
    → HasPcbs l1 o
    → Asked flags free l o
HasPcbs-Asked flags free l l1 none a v h = tt
HasPcbs-Asked flags free l l1 (some r) a v h = inr (a, subst (λ x. Evicted free l x) (sym h) v)

asks_lem :
    (flags : HdrFlags)
    → flags.rst ≡ false
    → flags.ack ≡ false
    → flags.syn ≡ true
    → asks flags ≡ true
asks_lem flags r a s = rw (r, a, s) refl

HasPcbs-elim :
    {W : Type 0} (l : Pcbs) (o : Option ℕ) (f : ℕ → Listened W)
    → ((id : ℕ) → (f id).pcbs ≡ l)
    → HasPcbs l (elim o [ none ↦ none | some id ↦ some (f id) ])
HasPcbs-elim l none f h = tt
HasPcbs-elim l (some id) f h = h id

module _ {W : Type 0} (env : Env W) (tcp_ticks : ℕ) (app : App W) (is_input : Pcb → Bool) where
  accept_request-HasPcbs :
      (a : Option Pcb × ℕ × Pcbs × Buffers W) (lpcb : Listener) (remote_ip port server_id : ℕ)
      (i : Seg) (opts : OptBytes)
      → HasPcbs a.2
          (accept_request env tcp_ticks app is_input a lpcb remote_ip port server_id i opts)
  unfolding accept_request
  accept_request-HasPcbs (none, iss, l, s) lpcb remote_ip port server_id i opts = refl
  accept_request-HasPcbs (some npcb, iss, l, s) lpcb remote_ip port server_id i opts =
      HasPcbs-elim l (new_server_id (ids_in_use l) server_id) _ (λ id. refl)

  pub listen_input-Asked :
      (lpcb : Listener) (l : Pcbs) (remote_ip port tcp_timer_ctr server_id iss : ℕ) (i : Seg)
      (opts : OptBytes) (s : Buffers W)
      → Asked i.tcphdr.flags (has_free s) l (
          listen_input env tcp_ticks app is_input lpcb l remote_ip port tcp_timer_ctr server_id iss
            i opts s)
  unfolding listen_input
  listen_input-Asked lpcb l remote_ip port tcp_timer_ctr server_id iss i opts s =
      let flags = i.tcphdr.flags in
      let shown : Option (Listened W) → Type 0 = λ o. Asked flags (has_free s) l o in
      let a = alloc_pcb env tcp_ticks app is_input lpcb.prio tcp_timer_ctr iss l s in
      if_elim shown flags.rst _ _ (λ rst. inl (refl, refl))
        (λ r.
          if_elim shown flags.ack _ _ (λ ack. inl (refl, refl))
            (λ k.
              if_elim shown flags.syn _ _
                (λ syn.
                  HasPcbs-Asked flags (has_free s) l a.2
                    (accept_request env tcp_ticks app is_input a lpcb remote_ip port server_id i
                      opts)
                    (asks_lem flags r k syn)
                    (alloc_pcb-Evicted env tcp_ticks app is_input lpcb.prio tcp_timer_ctr iss l s)
                    (accept_request-HasPcbs a lpcb remote_ip port server_id i opts))
                (λ other. inl (refl, refl))))
