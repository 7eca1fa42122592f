-- ===== src/Socks5/Relay.antt =====
-- socks5.c: a relay that answers each request in full, as RFC 1928 says.
use transocks_wong.Prelude.{ℕ, ◌≡◌, ◌≢◌, pos, List, [], ◌∷◌, length}
use transocks_wong.Machine.{Ptr, Bytes, Block, Call, Callback, Os}

-- What the relay is to answer next, by what it was last asked for.
pub data Stage : Type 0 where
  idle method connect : Stage

unfoldable pub stage : List Call → Stage
stage [] = idle
stage (Call.input_drain bev n ∷ tr) = idle
stage (Call.bufferevent_setcb bev Callback.socks_on_server_selected_method_readcb w e ∷ tr) = method
stage (Call.bufferevent_setcb bev Callback.socks_on_server_connect_reply_readcb w e ∷ tr) = connect
stage (c ∷ tr) = stage tr

abbrev pub answer_at : Stage → Bytes
answer_at idle = []
answer_at method = 5 ∷ 0 ∷ []
answer_at connect = 5 ∷ 0 ∷ 0 ∷ 1 ∷ 0 ∷ 0 ∷ 0 ∷ 0 ∷ 0 ∷ 0 ∷ []

-- The messages that were written, the latest first.
unfoldable pub messages : List Call → List Bytes
messages [] = []
messages (Call.bufferevent_write bev bytes ∷ tr) = bytes ∷ messages tr
messages (c ∷ tr) = messages tr

-- The relay answers in full, and libevent and the allocator do what they are asked.
pub record IsRelay (os : Os) : Type 0 where
  pub lengths :
      (tr : List Call) (bev : Ptr)
      → (os tr (Call.input_length bev)).size ≡ length (answer_at (stage tr))
  pub bytes :
      (tr : List Call) (bev : Ptr) (n : ℕ)
      → (os tr (Call.input_pullup bev n)).out ≡ answer_at (stage tr)
  pub drains : (tr : List Call) (bev : Ptr) (n : ℕ) → (os tr (Call.input_drain bev n)).ret ≡ pos 0
  pub allocates : (tr : List Call) (b : Block) → (os tr (Call.malloc b)).ptr ≢ 0
  pub enables :
      (tr : List Call) (bev : Ptr) (n : ℕ) → (os tr (Call.bufferevent_enable bev n)).ret ≡ pos 0
