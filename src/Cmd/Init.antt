-- ===== src/Cmd/Init.antt =====
-- `cmd_buf_init` of src/cmd_handle.c, and what it makes the sender and the receiver start from.
use a_test.Base.{ℕ, suc, ◌≡◌, refl, ap, ◌∙◌, Bool, true, false, List, [], ◌∷◌, length, All}
use a_test.Memory.{}
use a_test.Cmd.{CmdBuf, AllCmdBuf, Globals, cmd_buf_init, reset_bufs, reset_nodes, max_node_num}
use a_test.Cmd.Rx.{}
use a_test.Cmd.Rx.Messages.{HasRoom, AreBuffers}
use a_test.Cmd.Tx.Send.{}

-- The globals as they are declared: their sizes, whatever their contents.
pub record AreGlobals (g : Globals) : Type 0 where
  pub tx : AreBuffers g.g_tx_cmd_buf.cmd_buf
  pub nodes : length g.g_rx_cmd_buf ≡ max_node_num
  pub rx : All (λ a. AreBuffers a.cmd_buf) g.g_rx_cmd_buf

-- The buffers from type `i` on are empty, and each has its type and the given first flag.
abbrev pub AreReset : Bool → ℕ → List CmdBuf → Type 0
AreReset first i [] = Unit {0}
AreReset first i (b ∷ bs) =
    (b.len ≡ 0)
    × (b.cmd_hdr
        ≡ record { cmd_pdu_type = i; firstpkg = first; fragment = false; index = 0; sublen = 0 })
    × AreReset first (suc i) bs

reset_bufs-AreReset :
    (first : Bool) (i : ℕ) (bs : List CmdBuf) → AreReset first i (reset_bufs first i bs)
unfolding reset_bufs
reset_bufs-AreReset first i [] = tt
reset_bufs-AreReset first i (b ∷ bs) = (refl, refl, reset_bufs-AreReset first (suc i) bs)

reset_bufs-length :
    (first : Bool) (i : ℕ) (bs : List CmdBuf) → length (reset_bufs first i bs) ≡ length bs
unfolding reset_bufs
reset_bufs-length first i [] = refl
reset_bufs-length first i (b ∷ bs) = ap suc (reset_bufs-length first (suc i) bs)

reset_bufs-HasRoom :
    (first : Bool) (i : ℕ) (bs : List CmdBuf) → All HasRoom bs → All HasRoom (reset_bufs first i bs)
unfolding reset_bufs
reset_bufs-HasRoom first i [] h = tt
reset_bufs-HasRoom first i (b ∷ bs) h = (h.0, reset_bufs-HasRoom first (suc i) bs h.1)

reset_bufs-AreBuffers :
    (first : Bool) (bs : List CmdBuf) → AreBuffers bs → AreBuffers (reset_bufs first 0 bs)
reset_bufs-AreBuffers first bs h = record {
  three = reset_bufs-length first 0 bs ∙ h.three;
  rooms = reset_bufs-HasRoom first 0 bs h.rooms;
}

nodes_reset :
    (nodes : List AllCmdBuf)
    → All (λ a. AreBuffers a.cmd_buf) nodes
    → All (λ a. AreBuffers a.cmd_buf × AreReset false 0 a.cmd_buf) (reset_nodes nodes)
      × (length (reset_nodes nodes) ≡ length nodes)
unfolding reset_nodes
nodes_reset [] h = (tt, refl)
nodes_reset (a ∷ rest) h =
    let others = nodes_reset rest h.1 in
    (
      (
        (reset_bufs-AreBuffers false a.cmd_buf h.0, reset_bufs-AreReset false 0 a.cmd_buf),
        others.0,
      ),
      ap suc others.1,
    )

-- From globals with any contents, the sender's three buffers end empty and marked as first, the
-- receiver's three buffers of each of the 32 nodes end empty and not marked, every header has the
-- buffer's number as its type and no fragment, and no payload changes its size.
pub cmd_buf_init_lem :
    (g : Globals)
    → AreGlobals g
    → AreReset true 0 (cmd_buf_init g).g_tx_cmd_buf.cmd_buf
      × AreBuffers (cmd_buf_init g).g_tx_cmd_buf.cmd_buf
      × All (λ a. AreBuffers a.cmd_buf × AreReset false 0 a.cmd_buf) (cmd_buf_init g).g_rx_cmd_buf
      × (length (cmd_buf_init g).g_rx_cmd_buf ≡ max_node_num)
unfolding cmd_buf_init
cmd_buf_init_lem g h =
    let nodes = nodes_reset g.g_rx_cmd_buf h.rx in
    (
      reset_bufs-AreReset true 0 g.g_tx_cmd_buf.cmd_buf,
      reset_bufs-AreBuffers true g.g_tx_cmd_buf.cmd_buf h.tx,
      nodes.0,
      nodes.1 ∙ h.nodes,
    )
