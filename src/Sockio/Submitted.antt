-- ===== src/Sockio/Submitted.antt =====
-- What a submission leaves in the handle.
use rcli.Common.{ℕ, ◌≡◌, false, none, some, List, [], ◌∷◌, ◌++◌, update}
use rcli.Sockio.{Sockio, SockioMsg, MsgType, is_error, alloc_msg}
use rcli.Sockio.Submit.{sockio_recv}

abbrev pub fresh_msg : MsgType → ℕ → ℕ → ℕ → SockioMsg
fresh_msg type buf_data size min_size = record {
  user_data = none;
  buf_data = buf_data;
  size = size;
  min_size = min_size;
  type = type;
}

-- The handle once message `m` is taken from the free list, filled, and put to the handle's port.
abbrev pub posted : Sockio → ℕ → List ℕ → SockioMsg → Sockio
posted sio m rest msg = record sio {
  free_list = rest;
  msg_port = sio.msg_port ++ (m ∷ []);
  msgs = update sio.msgs m msg;
}

pub alloc_msg-some :
    (sio : Sockio) (type : MsgType) (d n k : ℕ) {m : ℕ} {rest : List ℕ}
    → sio.free_list ≡ m ∷ rest
    → alloc_msg sio type d n k
      ≡ some (m, record sio { free_list = rest; msgs = update sio.msgs m (fresh_msg type d n k) })
unfolding alloc_msg
alloc_msg-some sio type d n k e = rw (e, alloc_msg)

pub alloc_msg-none :
    (sio : Sockio) (type : MsgType) (d n k : ℕ)
    → sio.free_list ≡ []
    → alloc_msg sio type d n k ≡ none
unfolding alloc_msg
alloc_msg-none sio type d n k e = rw (e, alloc_msg)

pub sockio_recv-posted :
    (sio : Sockio) (buf n k : ℕ) {m : ℕ} {rest : List ℕ}
    → is_error sio.state ≡ false
    → sio.free_list ≡ m ∷ rest
    → sockio_recv sio buf n k ≡ (some m, posted sio m rest (fresh_msg MsgType.recv buf n k))
unfolding sockio_recv
sockio_recv-posted sio buf n k ok free = rw (ok, alloc_msg-some sio MsgType.recv buf n k free)
