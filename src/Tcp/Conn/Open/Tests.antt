-- ===== src/Tcp/Conn/Open/Tests.antt =====
-- A run of `tcp_new_server_id` of src/tcp.c, whose counter is about to wrap.
use rudp.Tcp.Seq.{u32_mod}
use rudp.Tcp.Conn.Open.{new_server_id}
use rudp.Prelude.{arith, false, ◌<◌, ◌%◌, ◌+◌, ◌≡◌, ℕ, refl, some, ◌∷◌, []}
use rudp.Tcp.Conn.Open.ServerId.{new_server_id-ends}
use rudp.Tcp.Ports.{contains}

new_server_id-ends_example :
    (found : ℕ) × (new_server_id (1 ∷ 2 ∷ []) 4294967295 ≡ some ((found + 1) % u32_mod))
    × (0 < found)
    × (found < u32_mod)
    × (contains found (1 ∷ 2 ∷ []) ≡ false)
new_server_id-ends_example = new_server_id-ends (1 ∷ 2 ∷ []) 4294967295 (omega arith) (omega arith)

-- The two ids in use are passed over, and the next one too.
server_id_run : new_server_id (1 ∷ 2 ∷ []) 4294967295 ≡ some 4
unfolding new_server_id
server_id_run = refl
