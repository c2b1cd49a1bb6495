-- ===== src/Tcp/Out/Write/Outcome.antt =====
-- The outcomes of a call of `tcp_write` of src/tcp_out.c, and those of `tcp_write_checks`.
use rudp.Tcp.Seq.{u32_mod}
use rudp.Tcp.Segs.{free_segs}
use rudp.Tcp.Out.Output.{is_ok}
use rudp.Tcp.Out.Draft.{mss_local}
use rudp.Tcp.Out.Draft.Ready.{queued_bytes, IsReady}
use rudp.Err.{Err, ok}
use rudp.Pbuf.Alloc.{Buffers}
use rudp.Tcp.Types.{Seg, tcp_snd_queuelen, Pcb}
use rudp.Tcp.Out.Enqueue.{may_write, queue_full, write_checks}
use rudp.Prelude.{
  refl, ltb, ◌==◌, inr, none, ◌%◌, ◌++◌, ◌∙◌, true, inl, sym, ◌+◌, subst, length, ap, Bool-cases,
  some, ◌⊎◌, arith, ◌<◌, ◌≤◌, false, Option, ◌≡◌, ℕ, List,
}

-- The queue is ready for the next call, and no segment is lost or made. After an error the queue
-- holds the bytes that it held, and only the flags and the queue itself may differ; else the data
-- is behind those bytes, and the sequence number and the send buffer are counted by its length.
abbrev pub IsWritten :
    {W : Type 0} → List ℕ → (n : ℕ) → Pcb → Buffers W → Option (Err × Pcb × Buffers W) → Type 0
IsWritten data_bytes n pcb s none = ⊥
IsWritten data_bytes n pcb s (some (err, pcb', s')) =
    IsReady (mss_local pcb) pcb'.unsent_oversize n pcb'.snd_lbb pcb'.unsent
    × (length pcb'.unsent + free_segs s' ≡ length pcb.unsent + free_segs s)
    × (((is_ok err ≡ false)
          × (queued_bytes pcb'.unsent ≡ queued_bytes pcb.unsent)
          × (pcb' ≡ record pcb { flags = pcb'.flags; unsent = pcb'.unsent }))
        ⊎ ((is_ok err ≡ true)
            × (queued_bytes pcb'.unsent ≡ queued_bytes pcb.unsent ++ data_bytes)
            × (pcb' ≡ record pcb {
              unsent = pcb'.unsent;
              unsent_oversize = pcb'.unsent_oversize;
              snd_queuelen = pcb'.snd_queuelen;
              snd_lbb = (pcb.snd_lbb + length data_bytes) % u32_mod;
              snd_buf = pcb'.snd_buf;
            })
            × (pcb'.snd_buf + length data_bytes ≡ pcb.snd_buf)))

queue_full-room : (queuelen : ℕ) → queue_full queuelen ≡ false → queuelen ≤ tcp_snd_queuelen
queue_full-room queuelen h = ground arith

-- `tcp_write_checks` lets nothing pass that the send buffer has no room for.
pub write_checks-cases :
    (pcb : Pcb) (len : ℕ)
    → let (err, pcb') = write_checks pcb len in
      ((write_checks pcb len ≡ (ok, pcb))
        × (len ≤ pcb.snd_buf)
        × (0 < len → pcb.snd_queuelen ≤ tcp_snd_queuelen))
      ⊎ ((is_ok err ≡ false) × (pcb' ≡ record pcb { flags = pcb'.flags }))
unfolding write_checks
write_checks-cases pcb len = elim (Bool-cases (may_write pcb.state)) [
  | inr closed_state ↦ rw closed_state (inr (refl, refl))
  | inl open_state ↦ elim (Bool-cases (len == 0)) [
    | inl nothing ↦ rw (open_state, nothing) (inl (refl, ground arith, ground arith))
    | inr some_bytes ↦ elim (Bool-cases (ltb pcb.snd_buf len)) [
      | inl too_long ↦ rw (open_state, some_bytes, too_long) (inr (refl, refl))
      | inr fits ↦ elim (Bool-cases (queue_full pcb.snd_queuelen)) [
        | inl full ↦ rw (open_state, some_bytes, fits, full) (inr (refl, refl))
        | inr room ↦
            rw (open_state, some_bytes, fits, room)
              (inl (refl, ground arith, λ h. queue_full-room pcb.snd_queuelen room))
      ]
    ]
  ]
]

-- A call that is refused before its phases.
pub refused-IsWritten :
    {W : Type 0} (data_bytes : List ℕ) (n : ℕ) (pcb pcb' : Pcb) (s : Buffers W) (err : Err)
    → IsReady (mss_local pcb) pcb.unsent_oversize n pcb.snd_lbb pcb.unsent
    → is_ok err ≡ false
    → pcb' ≡ record pcb { flags = pcb'.flags }
    → IsWritten data_bytes n pcb s (some (err, pcb', s))
refused-IsWritten data_bytes n pcb pcb' s err r e frame =
    let same : pcb'.unsent ≡ pcb.unsent = ap (λ (q : Pcb). q.unsent) frame in
    (
      subst (λ (q : Pcb). IsReady (mss_local pcb) q.unsent_oversize n q.snd_lbb q.unsent)
          (sym frame) r,
      ap (λ (segs : List Seg). length segs + free_segs s) same,
      inl (
        e,
        ap queued_bytes same,
        frame ∙ ap {B = Pcb} (λ segs. record pcb { flags = pcb'.flags; unsent = segs }) (sym same),
      ),
    )
