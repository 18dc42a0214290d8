-- ===== src/Channel/Race.antt =====
-- `sendChannel` and `receiveChannel` of cyarg/channel.c, as the Pico build runs them on two cores:
-- the wait stands before the lock is taken, so that other threads may run between the two.
use yarg_lang.Prelude.{ℕ, ◌+◌, ◌≡◌, true, refl, arith, ◌%◌, ◌∙◌}
use native.Mathlib.Nat.{mod-eq_of_lt}
use yarg_lang.Channel.{Channel, send_channel, collect_from_channel, has_space, has_data}
use yarg_lang.Channel.Valid.{IsValid, sub_word, send_channel-IsValid, collect-IsValid}

-- A thread that is not there, one in its wait, and one between its wait and the lock.
pub data Pc : Type 0 where
  off waiting ready : Pc

-- Two senders and a receiver on one channel.
pub record System (A : Type 0) : Type 0 where
  pub channel : Channel A
  pub a : Pc
  pub b : Pc
  pub receiver : Pc

module _ {A : Type 0} (word : ℕ) (nil : A) where
  pub data Step (s : System A) : System A → Type 0 where
    a_ready :
        s.a ≡ waiting → has_space word nil (s.channel) ≡ true → Step s (record s { a = ready })
    a_send :
        (x : A)
        → s.a ≡ ready
        → Step s (record s { channel = send_channel word nil x (s.channel); a = waiting })
    b_ready :
        s.b ≡ waiting → has_space word nil (s.channel) ≡ true → Step s (record s { b = ready })
    b_send :
        (x : A)
        → s.b ≡ ready
        → Step s (record s { channel = send_channel word nil x (s.channel); b = waiting })
    receiver_ready :
        s.receiver ≡ waiting
        → has_data word nil (s.channel) ≡ true
        → Step s (record s { receiver = ready })
    receiver_take :
        s.receiver ≡ ready
        → Step s (record s {
          channel = (collect_from_channel word nil (s.channel)).1;
          receiver = waiting;
        })

  pub data Reach (s : System A) : System A → Type 0 where
    here : Reach s s
    next : {t u : System A} → Reach s t → Step t u → Reach s u

  -- What one sender and one receiver keep.
  pub record IsSafe (s : System A) : Type 0 where
    pub valid : IsValid word (s.channel)
    pub alone : s.b ≡ off
    pub room_seen : s.a ≡ ready → has_space word nil (s.channel) ≡ true
    pub data_seen : s.receiver ≡ ready → has_data word nil (s.channel) ≡ true

  has_data-send :
      (x : A) (ch : Channel A)
      → IsValid word ch
      → has_data word nil (send_channel word nil x ch) ≡ true
  unfolding has_data send_channel
  has_data-send x ch v =
      ground
        (arith, mod-eq_of_lt {n = ch.occupied + 1} {m = word} (omega (arith, v.small, v.not_more)))

  has_space-collect :
      (ch : Channel A)
      → IsValid word ch
      → has_data word nil ch ≡ true
      → has_space word nil (collect_from_channel word nil ch).1 ≡ true
  unfolding has_space has_data collect_from_channel
  has_space-collect ch v h = ground (
    arith,
    sub_word ch.occupied 1 word (ground (arith, h)) (omega (arith, v.not_more, v.small)),
    h,
    v.not_more,
  )

  Step-IsSafe : {s t : System A} → Step s t → IsSafe s → IsSafe t
  Step-IsSafe (a_ready w e) i = record {
    valid = i.valid;
    alone = i.alone;
    room_seen = λ _. e;
    data_seen = i.data_seen;
  }
  Step-IsSafe {s} (a_send x w) i = record {
    valid = send_channel-IsValid word nil x (s.channel) i.valid (i.room_seen w);
    alone = i.alone;
    room_seen = λ h. cc;
    data_seen = λ _. has_data-send x (s.channel) i.valid;
  }
  Step-IsSafe (b_ready w e) i = cc (i.alone)
  Step-IsSafe (b_send x w) i = cc (i.alone)
  Step-IsSafe (receiver_ready w e) i = record {
    valid = i.valid;
    alone = i.alone;
    room_seen = i.room_seen;
    data_seen = λ _. e;
  }
  Step-IsSafe {s} (receiver_take w) i = record {
    valid = collect-IsValid word nil (s.channel) i.valid (i.data_seen w);
    alone = i.alone;
    room_seen = λ _. has_space-collect (s.channel) i.valid (i.data_seen w);
    data_seen = λ h. cc;
  }

  -- With one sender and one receiver, whose waits end before they take the lock, every system
  -- reached from a safe one is safe: the channel is valid, a sender past its wait has room and a
  -- receiver past its wait has data.
  pub Reach-IsSafe : {s t : System A} → IsSafe s → Reach s t → IsSafe t
  Reach-IsSafe i here = i
  Reach-IsSafe i (next r st) = Step-IsSafe st (Reach-IsSafe i r)

  -- From a system with a valid channel that lacks one value of being full, and two senders in their
  -- waits, a system is reached whose channel holds one value more than its size, and is not valid.
  pub two_senders_overfill :
      (s : System A) (x y : A)
      → IsValid word (s.channel)
      → s.a ≡ waiting
      → s.b ≡ waiting
      → s.channel.occupied + 1 ≡ s.channel.buffer_size
      → (t : System A) × Reach s t
        × (t.channel.occupied ≡ t.channel.buffer_size + 1)
        × ¬ IsValid word (t.channel)
  unfolding send_channel has_space
  two_senders_overfill s x y v wa wb last =
      let space : has_space word nil (s.channel) ≡ true = ground (arith, last) in
      let first : (s.channel.occupied + 1) % word ≡ s.channel.buffer_size =
        mod-eq_of_lt {n = s.channel.occupied + 1} {m = word} (omega (arith, v.small)) ∙ last in
      let second : (s.channel.buffer_size + 1) % word ≡ s.channel.buffer_size + 1 =
        mod-eq_of_lt {n = s.channel.buffer_size + 1} {m = word}
          (omega (arith, v.small, v.some_room)) in
      let count : ((s.channel.occupied + 1) % word + 1) % word ≡ s.channel.buffer_size + 1 =
        rw first second in
      (
        record s {
          channel = send_channel word nil y (send_channel word nil x (s.channel));
          a = waiting;
          b = waiting;
        },
        next (next (next (next here (a_ready wa space)) (b_ready wb space)) (a_send x refl))
            (b_send y refl),
        count,
        λ broken. absurd (omega (arith, count, broken.not_more)),
      )
