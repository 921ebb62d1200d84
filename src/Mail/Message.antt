-- ===== src/Mail/Message.antt =====
-- A message's way from its sender's memory to its reader's.
use security_monitor.Prelude.{
  ℕ, zero, suc, ◌+◌, ◌≤◌, ◌<◌, ◌≡◌, refl, sym, ap, ◌∙◌, ◌≢◌, ◌⊎◌, inl, inr, [], ◌∷◌, arith, update,
  length,
}
use security_monitor.Types.{
  Bytes, num_regions, mailbox_size, owner_untrusted, Machine, monitor_ok, empty, full,
}
use security_monitor.Address.{addr_to_region_id}
use security_monitor.Call.{returned}
use security_monitor.Memory.{read_user, write_user}
use security_monitor.Mail.{
  mailbox, receive_commit, mail_receive, sender_measurement, send_commit, mail_send,
}
use security_monitor.Mail.Delivery.{receive_spec, mail_receive-eq-spec}
use security_monitor.Mail.Send.{send_spec, mail_send-eq-spec}

length-read_user : (u : ℕ → ℕ) (a n : ℕ) → length (read_user u a n) ≡ n
unfolding read_user
length-read_user u a zero = refl
length-read_user u a (suc n) = ap suc (length-read_user u (a + 1) n)

write_user-below : (u : ℕ → ℕ) (a : ℕ) (bs : Bytes) (j : ℕ) → j < a → write_user u a bs j ≡ u j
unfolding write_user
write_user-below u a [] j h = refl
write_user-below u a (b ∷ bs) j h =
    ground (arith, write_user-below (update u a b) (a + 1) bs j (omega arith))

read_user-cong :
    (u v : ℕ → ℕ) (a n : ℕ)
    → ((j : ℕ) → a ≤ j → j < a + n → u j ≡ v j)
    → read_user u a n ≡ read_user v a n
unfolding read_user
read_user-cong u v a zero h = refl
read_user-cong u v a (suc n) h =
    rw
      (
        h a (omega arith) (omega arith),
        read_user-cong u v (a + 1) n (λ j p q. h j (omega arith) (omega arith)),
      )
      refl

-- What is written to memory is read back.
pub read_user-write_user :
    (u : ℕ → ℕ) (a : ℕ) (bs : Bytes) → read_user (write_user u a bs) a (length bs) ≡ bs
unfolding read_user write_user
read_user-write_user u a [] = refl
read_user-write_user u a (b ∷ bs) =
    rw
      (
        write_user-below (update u a b) (a + 1) bs a (omega arith),
        read_user-write_user (update u a b) (a + 1) bs,
      )
      (ground arith)

write_user-above :
    (u : ℕ → ℕ) (a : ℕ) (bs : Bytes) (j : ℕ) → a + length bs ≤ j → write_user u a bs j ≡ u j
unfolding write_user
write_user-above u a [] j h = refl
write_user-above u a (b ∷ bs) j h =
    ground (arith, write_user-above (update u a b) (a + 1) bs j (omega arith))

receive_spec-ok :
    (core id out out_sender : ℕ) (m n : Machine)
    → receive_spec core id out out_sender m ≡ returned monitor_ok n
    → ((mailbox (m.sm.cores core).owner id m).state ≡ full)
      × (n ≡ receive_commit (m.sm.cores core).owner id out out_sender m)
unfolding receive_spec
receive_spec-ok core id out out_sender m n e = ground arith

send_spec-ok :
    (core r id msg : ℕ) (m n : Machine)
    → send_spec core r id msg m ≡ returned monitor_ok n
    → ((mailbox r id m).expected_sender ≡ (m.sm.cores core).owner)
      × ((mailbox r id m).state ≡ empty)
      × (n ≡ send_commit (m.sm.cores core).owner r id msg m)
unfolding send_spec
send_spec-ok core r id msg m n e = ground arith

put-twice :
    (u : ℕ → ℕ) (a b : ℕ) (x y : Bytes)
    → (b + length y ≤ a) ⊎ (a + length x ≤ b)
    → (read_user (write_user (write_user u b y) a x) a (length x) ≡ x)
      × (read_user (write_user (write_user u b y) a x) b (length y) ≡ y)
put-twice u a b x y h = (
  read_user-write_user (write_user u b y) a x,
  read_user-cong _ (write_user u b y) b (length y) (outside h) ∙ read_user-write_user u b y,
)
  where
    outside :
        (b + length y ≤ a) ⊎ (a + length x ≤ b)
        → (j : ℕ) → b ≤ j
        → j < b + length y
        → write_user (write_user u b y) a x j ≡ write_user u b y j
    outside (inl p) j g k = write_user-below (write_user u b y) a x j (omega arith)
    outside (inr p) j g k = write_user-above (write_user u b y) a x j (omega arith)

receive_commit-user :
    (who id out out_sender : ℕ) (m : Machine)
    → (receive_commit who id out out_sender m).user
      ≡ write_user
          (write_user m.user out_sender (mailbox who id m).sender_measurement)
          out
          (mailbox who id m).message
unfolding receive_commit
receive_commit-user who id out out_sender m = ground arith

send_commit-box :
    (caller r id msg : ℕ) (m : Machine)
    → ((mailbox r id (send_commit caller r id msg m)).message ≡ read_user m.user msg mailbox_size)
      × ((mailbox r id (send_commit caller r id msg m)).sender_measurement
          ≡ sender_measurement caller m)
unfolding send_commit
send_commit-box caller r id msg m = (ground arith, ground arith)

-- A message that is sent, and then received from a mailbox that is as the sender left it, is the
-- sender's, byte for byte, and comes with the measurement that the monitor holds for the sender; the
-- mailbox was open for that sender. The places for the two do not overlap, a measurement has 64
-- bytes, and both callers are the untrusted system or lie in the RAM.
pub mail_send-receive :
    (s_core r_core r id msg out out_sender : ℕ) (m n x y : Machine)
    → ((m.sm.cores s_core).owner ≢ owner_untrusted
        → addr_to_region_id (m.sm.cores s_core).owner < num_regions)
    → ((x.sm.cores r_core).owner ≢ owner_untrusted
        → addr_to_region_id (x.sm.cores r_core).owner < num_regions)
    → mail_send s_core r id msg m ≡ returned monitor_ok n
    → (x.sm.cores r_core).owner ≡ r
    → mailbox r id x ≡ mailbox r id n
    → mail_receive r_core id out out_sender x ≡ returned monitor_ok y
    → length (sender_measurement (m.sm.cores s_core).owner m) ≡ 64
    → (out_sender + 64 ≤ out) ⊎ (out + mailbox_size ≤ out_sender)
    → ((mailbox r id m).expected_sender ≡ (m.sm.cores s_core).owner)
      × (read_user y.user out mailbox_size ≡ read_user m.user msg mailbox_size)
      × (read_user y.user out_sender 64 ≡ sender_measurement (m.sm.cores s_core).owner m)
mail_send-receive s_core r_core r id msg out out_sender m n x y hs hr es o same er len apart =
    let caller : ℕ = (m.sm.cores s_core).owner in
    let sent =
      send_spec-ok s_core r id msg m n (sym (mail_send-eq-spec s_core r id msg m hs) ∙ es) in
    let got =
      receive_spec-ok r_core id out out_sender x y
        (sym (mail_receive-eq-spec r_core id out out_sender x hr) ∙ er) in
    let box = send_commit-box caller r id msg m in
    let at = ap (λ k. mailbox k id x) o ∙ same ∙ ap (mailbox r id) sent.2 in
    let message : Bytes = read_user m.user msg mailbox_size in
    let measured : Bytes = sender_measurement caller m in
    let size = length-read_user m.user msg mailbox_size in
    let memory : y.user ≡ write_user (write_user x.user out_sender measured) out message =
      ap (λ k. k.user) got.1
      ∙ receive_commit-user (x.sm.cores r_core).owner id out out_sender x
      ∙ rw (ap (λ b. b.message) at ∙ box.0, ap (λ b. b.sender_measurement) at ∙ box.1) refl in
    let (p, q) = put-twice x.user out out_sender message measured (rw (len, size) apart) in
    (
      sent.0,
      ap (λ u. read_user u out mailbox_size) memory ∙ (rw size at p),
      ap (λ u. read_user u out_sender 64) memory ∙ (rw len at q),
    )
