-- ===== src/Rclid/Ledger/Start.antt =====
-- The server of rclid.c where `main_loop` starts: its books are empty, however the handshake has
-- used the socket.
use rcli.Common.{
  ℕ, ◌≡◌, refl, ◌∙◌, inl, inr, none, List, [], ◌∷◌, arith, ltb, Bool-cases, count, ◌==◌, Ram,
  is_null,
}
use rcli.Timer.{find_job}
use rcli.Sockio.{Sockio, sockio_init, sockio_free_msg}
use rcli.Sockio.Submit.{sockio_push_back}
use rcli.Sockio.Session.{
  Client, Event, reads, sends, waits, fires, handles, takes, frees, pushes, flushes, is_fresh, step,
  drive, fresh,
}
use rcli.Sockio.Still.{sockio_flush-Still}
use rcli.Sockio.Frames.{Frames, sockio_wait_handle-Frames}
use rcli.Sockio.Sent.{send-Parcel, recv-Parcel, wait-Parcel}
use rcli.Rclid.Cargo.{user_of}

-- No message carries anything.
abbrev pub Unloaded : Sockio → Type 0
Unloaded a = (m : ℕ) → user_of a m ≡ none

Frames-Unloaded : (a b : Sockio) → Frames a b → Unloaded a → Unloaded b
Frames-Unloaded a b f u m = elim (f.frame m) [
  | inl (free, same) ↦ same ∙ u m
  | inr (free, gone) ↦ gone
]

takes-Unloaded :
    (c : Client) (user : List ℕ)
    → c.sio.user_port ≡ user
    → Unloaded c.sio
    → Unloaded (step takes c).sio
unfolding step
takes-Unloaded c [] e u = rw (step, e) u
takes-Unloaded c (i ∷ rest) e u = rw (step, e) u

step-Unloaded : (e : Event) (c : Client) → Unloaded c.sio → Unloaded (step e c).sio
unfolding step sockio_free_msg sockio_push_back
step-Unloaded (reads buf n k) c u =
    let (f, h) = recv-Parcel c.sio buf n k c.sio.free_list refl in Frames-Unloaded c.sio _ f u
step-Unloaded (sends buf n) c u =
    let (f, h) = send-Parcel c.sio buf n c.sio.free_list refl in Frames-Unloaded c.sio _ f u
step-Unloaded (waits answer us) c u =
    let (f, h) = wait-Parcel c.sio answer us c.sio.free_list refl in
    elim (Bool-cases (is_fresh c.sio.timer answer.job)) [
      | inl e ↦ rw e (Frames-Unloaded c.sio _ f u)
      | inr e ↦ rw e u
    ]
step-Unloaded (fires a) c u = elim (Bool-cases (is_null (find_job a c.sio.timer.job_list))) [
  | inl e ↦ rw e u
  | inr e ↦ rw e u
]
step-Unloaded (handles mask sel) c u =
    Frames-Unloaded c.sio _ (sockio_wait_handle-Frames c.sio mask sel) u
step-Unloaded takes c u = takes-Unloaded c c.sio.user_port refl u
step-Unloaded (frees i) c u = elim (Bool-cases (count i c.held == 0)) [
  | inl e ↦ rw e u
  | inr e ↦ rw e (λ m. let old = u m in ground (arith, old))
]
step-Unloaded (pushes buf n) c u = elim (Bool-cases (ltb c.sio.push_back_max n)) [
  | inl e ↦ rw e u
  | inr e ↦ rw e u
]
step-Unloaded flushes c u = let s = sockio_flush-Still c.sio in λ m. s.users m ∙ u m

drive-Unloaded : (es : List Event) (c : Client) → Unloaded c.sio → Unloaded (drive es c).sio
unfolding drive
drive-Unloaded [] c u = u
drive-Unloaded (e ∷ es) c u = drive-Unloaded es (step e c) (step-Unloaded e c u)

-- The handshake knows no console messages.
pub fresh-Unloaded :
    (max_msgs push_back_size base b1 b2 : ℕ) (ram : Ram) (es : List Event)
    → Unloaded (drive es (fresh max_msgs push_back_size base b1 b2 ram)).sio
unfolding fresh sockio_init
fresh-Unloaded max_msgs push_back_size base b1 b2 ram es =
    drive-Unloaded es (fresh max_msgs push_back_size base b1 b2 ram) (λ m. refl)
