-- ===== src/Tcp/In/Input/Find.antt =====
-- The search of src/tcp_in.c for the control block of a segment.
use rudp.Tcp.Conn.{put_back}
use rudp.Prelude.{
  refl, none, inr, true, ◌++◌, ap, [], inl, some, false, ◌≡◌, Bool-cases, ◌∷◌, Option, All, List,
}
use rudp.Tcp.In.Input.{is_for, find_active}
use rudp.Tcp.Types.{Pcb, TcpHdr}

-- The segment is for none of them.
abbrev pub NoneFor : TcpHdr → List Pcb → Type 0
NoneFor tcphdr pcbs = All (λ pcb. is_for tcphdr pcb ≡ false) pcbs

-- What the search tells of the list `pcbs`.
abbrev pub Found : TcpHdr → List Pcb → Option (Pcb × List Pcb) → Type 0
Found tcphdr pcbs none = NoneFor tcphdr pcbs
Found tcphdr pcbs (some (pcb, others)) =
    (before : List Pcb) × (behind : List Pcb) × (pcbs ≡ before ++ (pcb ∷ behind))
    × (others ≡ before ++ behind)
    × (is_for tcphdr pcb ≡ true)
    × NoneFor tcphdr before

put_back-Found :
    (tcphdr : TcpHdr) (pcb : Pcb) (pcbs : List Pcb) (o : Option (Pcb × List Pcb))
    → is_for tcphdr pcb ≡ false
    → Found tcphdr pcbs o
    → Found tcphdr (pcb ∷ pcbs) (put_back pcb o)
put_back-Found tcphdr pcb pcbs none e f = (e, f)
put_back-Found tcphdr pcb pcbs (some (found, others)) e f =
    (pcb ∷ f.0, f.1, ap (λ xs. pcb ∷ xs) f.2, ap (λ xs. pcb ∷ xs) f.3, f.4, (e, f.5))

-- The search finds the first active control block that the segment is for, and takes it out of the
-- list, which stays as it is otherwise; it finds nothing exactly if the segment is for none of
-- them.
pub find_active-Found :
    (tcphdr : TcpHdr) (pcbs : List Pcb) → Found tcphdr pcbs (find_active tcphdr pcbs)
unfolding find_active
find_active-Found tcphdr [] = tt
find_active-Found tcphdr (pcb ∷ pcbs) = elim (Bool-cases (is_for tcphdr pcb)) [
  | inl is ↦ rw is ([], pcbs, refl, refl, is, tt)
  | inr other ↦ rw other (
      put_back-Found tcphdr pcb pcbs (find_active tcphdr pcbs) other
        (find_active-Found tcphdr pcbs))
]
