-- ===== src/Socket/Frame.antt =====
-- The test message and the address of src/protocol_socket.c (lines 534 to 556), as the bytes that
-- the functions write through their pointers. The 15 bytes of data are followed by one of padding,
-- which is not written.
use a_test.Base.{ℕ, List, [], ◌∷◌, replicate}
use a_test.Memory.{Run, ok, ◌>>=◌, Object, store}

-- FRAME_HEAD and FRAME_TAIL, least byte first.
abbrev pub frame_head : List ℕ
frame_head = 0xF0 ∷ 0x0F ∷ []

abbrev pub frame_tail : List ℕ
frame_tail = 0x0E ∷ 0xE0 ∷ []

abbrev pub sizeof_frame_send : ℕ
sizeof_frame_send = 20

-- The 15 bytes of `data`.
abbrev pub frame_data : List ℕ
frame_data = replicate 15 0x0A

-- The buffer and the size that is returned.
unfoldable pub generate_msg : Object → Run (Object × ℕ)
generate_msg pbuf = do
  with_head ← store pbuf 0 frame_head
  with_tail ← store with_head 18 frame_tail
  with_data ← store with_tail 2 frame_data
  ok (with_data, sizeof_frame_send)

-- AF_INET, htons(20000) and 192.168.10.43, in a struct sockaddr_in.
unfoldable pub init_dst_addr : Object → Run Object
init_dst_addr psin = do
  with_family ← store psin 0 (2 ∷ 0 ∷ [])
  with_port ← store with_family 2 (78 ∷ 32 ∷ [])
  store with_port 4 (192 ∷ 168 ∷ 10 ∷ 43 ∷ [])
