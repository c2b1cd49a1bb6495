-- ===== src/Tcp/Out/Write/Written.antt =====
-- What `tcp_write` of src/tcp_out.c does to the control block and to the pool of segments, on each
-- branch.
use rudp.Tcp.Out.Write.Outcome.{refused-IsWritten, write_checks-cases, IsWritten}
use rudp.Tcp.Out.Enqueue.{write_checks}
use rudp.Tcp.Out.Make.{is_empty}
use rudp.Tcp.Out.Write.Rounds.{phase3-IsQueued, IsQueued}
use rudp.Tcp.Out.Write.Chained.{phase2-IsChained, IsChained}
use rudp.Pbuf.Release.{release-tcp_segs, release}
use rudp.Tcp.Out.Draft.Grows.{Grows-nil}
use rudp.Tcp.Out.Write.Grown.{grow, IsReady-same}
use rudp.Tcp.Segs.{segs_free-free_segs, free_segs}
use rudp.Err.{ok}
use rudp.Tcp.Out.Write.Drafted.{drafted_queue, IsOld, IsDraft}
use rudp.Tcp.Out.Draft.Ready.{length-on_last, queued_bytes, IsReady}
use rudp.Pbuf.{u16_mod, Chain}
use rudp.Tcp.Seq.{u32_mod}
use rudp.Pbuf.Alloc.{Buffers}
use rudp.Tcp.Out.Write.{write, phase3, phase2, after_phase2, after_phase3, write_phases, memerr}
use rudp.Tcp.Out.Draft.{phase1, last_seg, set_psh, on_last, mss_local, Draft, commit}
use rudp.Tcp.Types.{tcp_mss, tcp_snd_queuelen, Seg, Pcb}
use rudp.Tcp.Out.Write.Pieces.{SizedMalloc}
use rudp.Tcp.Env.{Env}
use rudp.Prelude.{
  take_all, inr, ◌∙◌, inl, length-append, ◌&&◌, [], arith, not, subst, ◌||◌, ap, none, ◌-◌, ◌%◌,
  ◌++◌, true, refl, false, ◌≤◌, some, ◌≡◌, ◌+◌, if◌then◌else◌, length, Option, ◌<◌, ℕ, Bool, List,
}

psh-IsReady :
    (push : Bool) (mss oversize n m : ℕ) (segs : List Seg)
    → m < u32_mod
    → IsReady mss oversize n m segs
    → let segs' = if push then on_last set_psh segs else segs in
      IsReady mss oversize n m segs'
      × (queued_bytes segs' ≡ queued_bytes segs)
      × (length segs' ≡ length segs)
psh-IsReady false mss oversize n m segs l r = (r, refl, refl)
psh-IsReady true mss oversize n m segs l r =
    let ready =
      IsReady-same mss oversize n m set_psh segs
        (λ seg c. Grows-nil seg (set_psh seg) c refl refl refl refl refl refl) (λ seg. refl) l r in
    (ready.0, ready.1, length-on_last set_psh segs)

module _ {W : Type 0} (env : Env W) (sized : SizedMalloc env) (data_bytes : List ℕ)
    (copy more : Bool) where
  memerr-IsWritten :
      (n : ℕ) (pcb pcb' : Pcb) (s s' : Buffers W) (concat_p : Chain) (queue : List Seg)
      → IsReady (mss_local pcb') pcb'.unsent_oversize n pcb'.snd_lbb pcb'.unsent
      → queued_bytes pcb'.unsent ≡ queued_bytes pcb.unsent
      → pcb' ≡ record pcb { unsent = pcb'.unsent }
      → length pcb'.unsent + length queue + free_segs s' ≡ length pcb.unsent + free_segs s
      → IsWritten data_bytes n pcb s (some (memerr env data_bytes copy more pcb' concat_p queue s'))
  unfolding memerr
  memerr-IsWritten n pcb pcb' s s' concat_p queue r b e t =
      let freed = release env.mem_free s' concat_p in
      let same : mss_local pcb' ≡ mss_local pcb = ap mss_local e in
      (
        subst (λ (k : ℕ). IsReady k pcb'.unsent_oversize n pcb'.snd_lbb pcb'.unsent) same r,
        omega (
          arith,
          t,
          segs_free-free_segs env queue freed,
          ap length (release-tcp_segs env.mem_free concat_p s'),
        ),
        inl (
          refl,
          b,
          ap {A = Pcb}
              (λ (q : Pcb). record q { flags = record pcb'.flags { nagle_mem_err = true } }) e,
        ),
      )

  commit-IsWritten :
      (n : ℕ) (pcb pcb' : Pcb) (s s' : Buffers W) (d : Draft)
      → IsDraft data_bytes copy n
          (length pcb.unsent + free_segs s)
          (queued_bytes pcb.unsent)
          pcb'
          d
          s'
      → length data_bytes ≤ d.pos
      → (length data_bytes ≤ pcb.snd_buf) × (pcb.snd_buf < u16_mod)
      → pcb' ≡ record pcb { unsent = pcb'.unsent }
      → IsWritten data_bytes n pcb s (some (ok, commit d pcb' data_bytes more, s'))
  unfolding commit
  commit-IsWritten n pcb pcb' s s' d g h b e =
      let queued = drafted_queue data_bytes pcb' d in
      let push = (d.touched || not (is_empty d.queue)) && not more in
      let all : d.pos ≡ length data_bytes = omega (arith, g.within, h) in
      let same : mss_local pcb' ≡ mss_local pcb = ap mss_local e in
      let end = (pcb'.snd_lbb + length data_bytes) % u32_mod in
      let ready : IsReady (mss_local pcb) d.oversize n end queued =
        subst (λ (k : ℕ). IsReady k d.oversize n end queued) same
          (subst
            (λ (i : ℕ). IsReady (mss_local pcb') d.oversize n ((pcb'.snd_lbb + i) % u32_mod) queued)
            all g.drafted) in
      let pushed = psh-IsReady push (mss_local pcb) d.oversize n end queued (omega arith) ready in
      let count : length queued ≡ length pcb'.unsent + length d.queue =
        length-append (on_last (grow d.concat_p d.oversize_used data_bytes) pcb'.unsent) d.queue
        ∙ ap (λ (k : ℕ). k + length d.queue)
            (length-on_last (grow d.concat_p d.oversize_used data_bytes) pcb'.unsent) in
      (
        pushed.0,
        omega (arith, pushed.2, count, g.drafted_segs),
        inr (
          refl,
          pushed.1
              ∙ g.drafted_bytes
              ∙ ap (◌++◌ (queued_bytes pcb.unsent)) (take_all d.pos data_bytes h),
          ap {A = Pcb}
              (λ (q : Pcb). record q {
                unsent_oversize = d.oversize;
                unsent = if push then on_last set_psh queued else queued;
                snd_queuelen = d.queuelen;
                snd_lbb = (q.snd_lbb + length data_bytes) % u32_mod;
                snd_buf = (pcb'.snd_buf + u16_mod - length data_bytes) % u16_mod;
              })
              e,
          omega (arith, ap (λ (q : Pcb). q.snd_buf) e, b),
        ),
      )

  after_phase3-IsWritten :
      (n : ℕ) (pcb pcb' : Pcb) (s s' : Buffers W) (result : Option (Draft × Bool × Buffers W))
      → IsOld n (length pcb.unsent + free_segs s) (queued_bytes pcb.unsent) pcb' s'
      → pcb' ≡ record pcb { unsent = pcb'.unsent }
      → IsQueued env sized data_bytes copy more n
          (length pcb.unsent + free_segs s)
          (queued_bytes pcb.unsent)
          pcb'
          result
      → (length data_bytes ≤ pcb.snd_buf) × (pcb.snd_buf < u16_mod)
      → IsWritten data_bytes n pcb s (after_phase3 env data_bytes copy more pcb' result)
  after_phase3-IsWritten n pcb pcb' s s' none o e q b = q
  after_phase3-IsWritten n pcb pcb' s s' (some (d, true, s3)) o e q b =
      commit-IsWritten n pcb pcb' s s3 d q.0 q.1 b e
  after_phase3-IsWritten n pcb pcb' s s' (some (d, false, s3)) o e q b =
      memerr-IsWritten n pcb pcb' s s3 d.concat_p d.queue o.old_ready o.old_bytes e q

  after_phase2-IsWritten :
      (n : ℕ) (pcb : Pcb) (s : Buffers W) (result : Option Draft × Pcb × Buffers W)
      → IsChained data_bytes copy n
          (length pcb.unsent + free_segs s)
          (queued_bytes pcb.unsent)
          pcb
          result
      → (0 < length data_bytes → pcb.snd_queuelen ≤ tcp_snd_queuelen)
      → (length data_bytes ≤ pcb.snd_buf) × (pcb.snd_buf < u16_mod)
      → IsWritten data_bytes n pcb s (after_phase2 env data_bytes copy more result)
  after_phase2-IsWritten n pcb s (none, pcb', s') c l b =
      memerr-IsWritten n pcb pcb' s s' [] [] c.0.old_ready c.0.old_bytes c.1
        (omega (arith, c.0.old_segs))
  after_phase2-IsWritten n pcb s (some d, pcb', s') c l b =
      let total = length pcb.unsent + free_segs s in
      after_phase3-IsWritten n pcb pcb' s s'
        (phase3 env data_bytes copy more (tcp_snd_queuelen + 2) pcb' d s') c.0 c.1
        (phase3-IsQueued env sized data_bytes copy more (tcp_snd_queuelen + 2) n total
          (queued_bytes pcb.unsent) pcb' d s' c.0.old_mss c.2 (omega arith)
          (λ h. (omega (arith, c.4, l (omega (arith, h))), omega arith)))
        b

  -- The phases of `tcp_write`, on each branch.
  pub write_phases-IsWritten :
      (n : ℕ) (pcb : Pcb) (s : Buffers W)
      → IsReady (mss_local pcb) pcb.unsent_oversize n pcb.snd_lbb pcb.unsent
      → pcb.mss < 1000
      → pcb.snd_lbb < u32_mod
      → (0 < length data_bytes → pcb.snd_queuelen ≤ tcp_snd_queuelen)
      → (length data_bytes ≤ pcb.snd_buf) × (pcb.snd_buf < u16_mod)
      → IsWritten data_bytes n pcb s (write_phases env data_bytes copy more pcb s)
  unfolding write_phases
  write_phases-IsWritten n pcb s r m l q b =
      let last = last_seg pcb.unsent in
      let o : IsOld n (length pcb.unsent + free_segs s) (queued_bytes pcb.unsent) pcb s = record {
        old_ready = r;
        old_bytes = refl;
        old_segs = refl;
        old_mss = grind arith;
        old_lbb = l;
      } in
      after_phase2-IsWritten n pcb s
        (phase2 env data_bytes copy more last pcb (phase1 pcb last (length data_bytes)) s)
        (phase2-IsChained env sized data_bytes copy more n (length pcb.unsent + free_segs s)
          (queued_bytes pcb.unsent) pcb s last o refl)
        q b

  -- Memory from `malloc` has the size that it was asked for, the segment size is at most TCP_MSS, and
  -- the next sequence number and the send buffer are in the range of their types. If the unsent queue
  -- runs on without a gap up to the next sequence number, its segments hold what they say, the bytes
  -- to spare at its end are there, and the last segment with its options and these bytes is within
  -- the segment size of this call (`mss_local`), then a call of `tcp_write` ends, on each branch, with such a
  -- queue, and with the segments of the queue and the free ones as many as before. After an error the
  -- queue holds the bytes that it held, and only the flags and the queue of the control block may
  -- differ; else the data of the call is behind those bytes, the sequence number is counted on by its
  -- length, and the send buffer is less by it.
  pub write-IsWritten :
      (n : ℕ) (pcb : Pcb) (s : Buffers W)
      → IsReady (mss_local pcb) pcb.unsent_oversize n pcb.snd_lbb pcb.unsent
      → pcb.mss ≤ tcp_mss
      → pcb.snd_lbb < u32_mod
      → pcb.snd_buf < u16_mod
      → IsWritten data_bytes n pcb s (write env (some data_bytes) copy more pcb s)
  unfolding write
  write-IsWritten n pcb s r m l k = elim (write_checks-cases pcb (length data_bytes)) [
    | inl (e, fits, room) ↦
        rw e (write_phases-IsWritten n pcb s r (omega (arith, m)) l room (fits, k))
    | inr (e, frame) ↦ rw e (
        refused-IsWritten data_bytes n pcb (write_checks pcb (length data_bytes)).1 s
          (write_checks pcb (length data_bytes)).0 r e frame)
  ]
