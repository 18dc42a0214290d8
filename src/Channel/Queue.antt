-- ===== src/Channel/Queue.antt =====
-- What the operations of a channel (cyarg/channel.c) do to the values that it holds.
use yarg_lang.Prelude.{
  ℕ, zero, suc, ◌+◌, ◌-◌, ◌*◌, ◌%◌, ◌<◌, ◌≡◌, ◌⊎◌, inl, inr, refl, true, false, List, [], ◌∷◌, ◌++◌,
  arith, length, get_or, set, get_or-set_self, get_or-set_ne, ap, ap₂, ◌∙◌, sym, ltb, ◌==◌,
  if◌then◌else◌, Bool-cases,
}
use yarg_lang.Channel.{
  Channel, new_channel, send_channel, collect_from_channel, share_channel, peek_channel, has_space,
  has_data, read_cursor, walk, contents,
}
use yarg_lang.Channel.Valid.{
  IsValid, next, next_lem, sub_word, read_cursor_lem, send_channel-IsValid, collect-IsValid,
  share_channel-IsValid,
}
use native.Mathlib.Nat.{mod-eq_of_lt}

abbrev pub head_or {ℓ} : {A : Type ℓ} → A → List A → A
head_or d [] = d
head_or d (x ∷ xs) = x

abbrev pub tail {ℓ} : {A : Type ℓ} → List A → List A
tail [] = []
tail (x ∷ xs) = xs

-- `n` steps from `c` lead to `w`, going round the ring at most once.
abbrev Leads : ℕ → ℕ → ℕ → ℕ → Type 0
Leads size c n w = (c + n ≡ w) ⊎ (c + n ≡ w + size)

module _ {A : Type 0} (word : ℕ) (nil : A) (size : ℕ) (small : 2 * size < word) where
  next-lt : (c : ℕ) → c < size → next word size c < size
  next-lt c h = ground (arith, next_lem word size c h small)

  Leads-next :
      (c n w : ℕ) → c < size → w < size → Leads size c (suc n) w → Leads size (next word size c) n w
  Leads-next c n w hc hw l = ground (arith, next_lem word size c hc small, l)

  -- A write just past a window extends it.
  walk-set :
      (b : List A) (x : A) (w n c : ℕ)
      → length b ≡ size
      → w < size
      → c < size
      → n < size
      → Leads size c n w
      → walk word nil (set b w x) size c (suc n) ≡ walk word nil b size c n ++ x ∷ []
  unfolding walk
  walk-set b x w zero c e hw hc hn l =
      ap (λ y. y ∷ [])
        (ap (λ k. get_or (set b w x) k nil) (omega arith) ∙ get_or-set_self b w x nil (omega arith))
  walk-set b x w (suc n) c e hw hc hn l =
      ap₂ (λ y ys. y ∷ ys) (get_or-set_ne b x nil (omega arith))
        (walk-set b x w n (next word size c) e hw (next-lt c hc) (omega arith)
          (Leads-next c n w hc hw l))

  walk-suc :
      (b : List A) (c n : ℕ)
      → 0 < n
      → walk word nil b size c n ≡ get_or b c nil ∷ walk word nil b size (next word size c) (n - 1)
  unfolding walk
  walk-suc b c zero h = elim h [ ]
  walk-suc b c (suc n) h =
      ap (λ k. get_or b c nil ∷ walk word nil b size (next word size c) k) (omega arith)

  walk-zero : (b : List A) (c n : ℕ) → n ≡ 0 → walk word nil b size c n ≡ []
  unfolding walk
  walk-zero b c zero h = refl
  walk-zero b c (suc n) h = absurd (omega arith)

  length-walk : (b : List A) (c n : ℕ) → length (walk word nil b size c n) ≡ n
  unfolding walk
  length-walk b c zero = refl
  length-walk b c (suc n) = ap suc (length-walk b (next word size c) n)

module _ {A : Type 0} (word : ℕ) (nil : A) where
  -- A new channel holds nothing.
  pub new_channel-contents : (capacity : ℕ) → contents word nil (new_channel word nil capacity) ≡ []
  unfolding new_channel contents walk
  new_channel-contents capacity = refl

  module _ (ch : Channel A) (v : IsValid word ch) where
    pub length-contents : length (contents word nil ch) ≡ ch.occupied
    unfolding contents
    length-contents =
        length-walk word nil ch.buffer_size v.small ch.buffer (read_cursor word nil ch) ch.occupied

    read_cursor-lt : read_cursor word nil ch < ch.buffer_size
    read_cursor-lt = ground (arith, read_cursor_lem word nil ch v, v.cursor_in, v.not_more)

    reaches : Leads ch.buffer_size (read_cursor word nil ch) ch.occupied ch.write_cursor
    reaches = ground (arith, read_cursor_lem word nil ch v, v.cursor_in, v.not_more)

    more : (ch.occupied + 1) % word ≡ suc ch.occupied
    more =
        mod-eq_of_lt {n = ch.occupied + 1} {m = word} (omega (arith, v.small, v.not_more))
        ∙ omega arith

    step :
        next word ch.buffer_size ch.write_cursor
        ≡ (if ch.write_cursor + 1 == ch.buffer_size then 0 else ch.write_cursor + 1)
    step = next_lem word ch.buffer_size ch.write_cursor v.cursor_in v.small

    -- After a write with room, the oldest value stands where it did.
    read_cursor-send :
        (x : A)
        → has_space word nil ch ≡ true
        → read_cursor word nil (send_channel word nil x ch) ≡ read_cursor word nil ch
    unfolding send_channel has_space
    read_cursor-send x space = ground (
      arith,
      read_cursor_lem word nil ch v,
      read_cursor_lem word nil (send_channel word nil x ch)
          (send_channel-IsValid word nil x ch v space),
      more,
      step,
      v.cursor_in,
      v.not_more,
    )

    -- `send` on a valid channel that has room puts the value behind the others.
    pub send_channel-contents :
        (x : A)
        → has_space word nil ch ≡ true
        → contents word nil (send_channel word nil x ch) ≡ contents word nil ch ++ x ∷ []
    unfolding contents send_channel has_space
    send_channel-contents x space =
        ap₂ (walk word nil (set ch.buffer ch.write_cursor x) ch.buffer_size)
          (read_cursor-send x space) more
        ∙ walk-set word nil ch.buffer_size v.small ch.buffer x ch.write_cursor ch.occupied
            (read_cursor word nil ch) v.sized v.cursor_in read_cursor-lt
            (ground (arith, space, v.not_more)) reaches

    fewer : has_data word nil ch ≡ true → (ch.occupied + word - 1) % word ≡ ch.occupied - 1
    unfolding has_data
    fewer h = sub_word ch.occupied 1 word (ground (arith, h)) (omega (arith, v.not_more, v.small))

    read_cursor-collect :
        has_data word nil ch ≡ true
        → read_cursor word nil (collect_from_channel word nil ch).1
          ≡ next word ch.buffer_size (read_cursor word nil ch)
    unfolding collect_from_channel has_data
    read_cursor-collect h = ground (
      arith,
      read_cursor_lem word nil ch v,
      read_cursor_lem word nil (collect_from_channel word nil ch).1
          (collect-IsValid word nil ch v h),
      fewer h,
      next_lem word ch.buffer_size (read_cursor word nil ch) read_cursor-lt v.small,
      v.cursor_in,
      v.not_more,
    )

    -- On a valid channel that holds data, `collect_from_channel` takes out the oldest value and
    -- leaves the others in order.
    pub collect-contents :
        has_data word nil ch ≡ true
        → contents word nil ch
          ≡ (collect_from_channel word nil ch).0
            ∷ contents word nil (collect_from_channel word nil ch).1
    unfolding contents collect_from_channel has_data
    collect-contents h =
        walk-suc word nil ch.buffer_size v.small ch.buffer (read_cursor word nil ch) ch.occupied
          (ground (arith, h))
        ∙ ap (λ ys. get_or ch.buffer (read_cursor word nil ch) nil ∷ ys)
            (sym (ap₂ (walk word nil ch.buffer ch.buffer_size) (read_cursor-collect h) (fewer h)))

    -- `peek_channel` on a valid channel reads the oldest value, and gives `nil` where there is none.
    pub peek_channel-head : peek_channel word nil ch ≡ head_or nil (contents word nil ch)
    unfolding contents peek_channel
    peek_channel-head = elim (Bool-cases (ltb 0 ch.occupied)) [
      | inl some_there ↦ rw some_there (
          sym (
            ap (head_or nil) (
              walk-suc word nil ch.buffer_size v.small ch.buffer (read_cursor word nil ch)
                ch.occupied (ground (arith, some_there)))))
      | inr none_there ↦ rw none_there (
          sym (
            ap (head_or nil) (
              walk-zero word nil ch.buffer_size v.small ch.buffer (read_cursor word nil ch)
                ch.occupied (ground (arith, none_there)))))
    ]

    -- `share` with room is `send` with room.
    share_channel-send :
        (x : A)
        → has_space word nil ch ≡ true
        → share_channel word nil x ch ≡ (false, send_channel word nil x ch)
    unfolding share_channel send_channel has_space
    share_channel-send x space = ground (arith, space, more, v.not_more, v.overflow_full)

    -- `share` on a valid channel that has room reports no overflow and puts the value behind the
    -- others.
    pub share_channel-space :
        (x : A)
        → has_space word nil ch ≡ true
        → ((share_channel word nil x ch).0 ≡ false)
          × (contents word nil (share_channel word nil x ch).1 ≡ contents word nil ch ++ x ∷ [])
    share_channel-space x space =
        rw (share_channel-send x space) (refl, send_channel-contents x space)

    -- The full ring begins where it ends.
    begins_at_cursor : has_space word nil ch ≡ false → read_cursor word nil ch ≡ ch.write_cursor
    unfolding has_space
    begins_at_cursor full = ground (arith, read_cursor_lem word nil ch v, full, v.cursor_in)

    read_cursor-share :
        (x : A)
        → has_space word nil ch ≡ false
        → (read_cursor word nil (share_channel word nil x ch).1
            ≡ next word ch.buffer_size ch.write_cursor)
          × ((share_channel word nil x ch).1.occupied ≡ suc (ch.buffer_size - 1))
          × ((share_channel word nil x ch).0 ≡ true)
    unfolding share_channel has_space
    read_cursor-share x full =
        let occ : (share_channel word nil x ch).1.occupied ≡ ch.buffer_size =
          ground (arith, full, more) in
        (
          ground (
            arith,
            read_cursor_lem word nil (share_channel word nil x ch).1
                (share_channel-IsValid word nil x ch v),
            occ,
            step,
            v.cursor_in,
          ),
          omega (arith, occ, v.some_room),
          ground (arith, full, more),
        )

    tail_full :
        has_space word nil ch ≡ false
        → tail (contents word nil ch)
          ≡ walk word nil ch.buffer ch.buffer_size
              (next word ch.buffer_size ch.write_cursor)
              (ch.buffer_size - 1)
    unfolding contents has_space
    tail_full full =
        ap₂ (λ c n. tail (walk word nil ch.buffer ch.buffer_size c n)) (begins_at_cursor full)
          (ground (arith, full))
        ∙ ap tail (
            walk-suc word nil ch.buffer_size v.small ch.buffer ch.write_cursor ch.buffer_size
              v.some_room)

    -- `share` on a valid channel that is full reports the overflow, drops the oldest value and puts
    -- the new one behind the others.
    pub share_channel-full :
        (x : A)
        → has_space word nil ch ≡ false
        → ((share_channel word nil x ch).0 ≡ true)
          × (contents word nil (share_channel word nil x ch).1
              ≡ tail (contents word nil ch) ++ x ∷ [])
    unfolding contents share_channel
    share_channel-full x full =
        let (cursor, occ, flag) = read_cursor-share x full in
        (
          flag,
          ap₂ (walk word nil (set ch.buffer ch.write_cursor x) ch.buffer_size) cursor occ
              ∙ walk-set word nil ch.buffer_size v.small ch.buffer x ch.write_cursor
                  (ch.buffer_size - 1) (next word ch.buffer_size ch.write_cursor) v.sized
                  v.cursor_in (ground (arith, step, v.cursor_in)) (omega (arith, v.some_room))
                  (ground (arith, step, v.cursor_in))
              ∙ ap (λ ys. ys ++ x ∷ []) (sym (tail_full full)),
        )
