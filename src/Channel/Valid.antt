-- ===== src/Channel/Valid.antt =====
-- The invariant of a channel (cyarg/channel.c), kept by every operation.
use yarg_lang.Prelude.{
  ℕ, ◌+◌, ◌-◌, ◌*◌, ◌%◌, ◌≤◌, ◌<◌, ◌≡◌, true, arith, length, length-set, length-replicate, ap, ◌∙◌,
  leb, ◌==◌, if◌then◌else◌,
}
use mathlib.Core.Bool.{false≢true}
use native.Mathlib.Decide.{ℕ_discrete, dec_le}
use native.Mathlib.Nat.{mod-eq_of_lt, mod-eq-sub-mod}
use yarg_lang.Channel.{
  Channel, new_channel, send_channel, collect_from_channel, share_channel, has_space, has_data,
  read_cursor,
}

-- The ring has its size, the sizes leave room in a `size_t`, and `overflow` means full.
pub record IsValid {A : Type 0} (word : ℕ) (ch : Channel A) : Type 0 where
  pub some_room : 1 ≤ ch.buffer_size
  pub small : 2 * ch.buffer_size < word
  pub sized : length ch.buffer ≡ ch.buffer_size
  pub cursor_in : ch.write_cursor < ch.buffer_size
  pub not_more : ch.occupied ≤ ch.buffer_size
  pub overflow_full : ch.overflow ≡ true → ch.occupied ≡ ch.buffer_size

-- A cursor steps round the ring, and `size_t` does not wrap.
abbrev pub next : ℕ → ℕ → ℕ → ℕ
next word size c = (c + 1) % word % size

pub next_lem :
    (word size c : ℕ)
    → c < size
    → 2 * size < word
    → next word size c ≡ (if c + 1 == size then 0 else c + 1)
next_lem word size c h small =
    rw (mod-eq_of_lt {n = c + 1} {m = word} (omega arith)) (elim (ℕ_discrete (c + 1) size) [
      | yes e ↦ ground (
        arith,
        mod-eq-sub-mod {n = c + 1} {m = size} (omega arith),
        mod-eq_of_lt {n = 0} {m = size} (omega arith),
      )
      | no ne ↦ ground (arith, mod-eq_of_lt {n = c + 1} {m = size} (omega arith))
    ])

-- A difference in `size_t` that is not negative.
pub sub_word : (a b word : ℕ) → b ≤ a → a < word → (a + word - b) % word ≡ a - b
sub_word a b word le lt =
    mod-eq-sub-mod {n = a + word - b} {m = word} (omega arith)
    ∙ ap (λ k. k % word) (omega arith)
    ∙ mod-eq_of_lt {n = a - b} {m = word} (omega arith)

module _ {A : Type 0} (word : ℕ) (nil : A) where
  -- A new channel of at least one value, of a size whose double a `size_t` holds, is valid.
  pub new_channel-IsValid :
      (capacity : ℕ)
      → 1 ≤ capacity
      → 2 * capacity < word
      → IsValid word (new_channel word nil capacity)
  unfolding new_channel
  new_channel-IsValid capacity lo hi = record {
    some_room = lo;
    small = hi;
    sized = length-replicate capacity nil;
    cursor_in = lo;
    not_more = omega arith;
    overflow_full = λ h. absurd (false≢true h);
  }

  -- Where the oldest value stands.
  pub read_cursor_lem :
      (ch : Channel A)
      → IsValid word ch
      → read_cursor word nil ch ≡ (
          if leb ch.occupied ch.write_cursor
          then ch.write_cursor - ch.occupied
          else ch.write_cursor + ch.buffer_size - ch.occupied)
  unfolding read_cursor
  read_cursor_lem ch v =
      let size = ch.buffer_size in
      let back = ch.write_cursor + size - ch.occupied in
      let e : (ch.write_cursor + size + word - ch.occupied) % word ≡ back =
        sub_word (ch.write_cursor + size) ch.occupied word (omega (arith, v.not_more))
          (omega (arith, v.cursor_in, v.small)) in
      rw e (elim (dec_le ch.occupied ch.write_cursor) [
        | yes le ↦ ground (
          arith,
          mod-eq-sub-mod {n = back} {m = size} (omega arith),
          mod-eq_of_lt {n = back - size} {m = size} (omega (arith, v.cursor_in)),
        )
        | no gt ↦ ground (arith, mod-eq_of_lt {n = back} {m = size} (omega (arith, v.cursor_in)))
      ])

  -- `send_channel` keeps a channel valid where there is room.
  pub send_channel-IsValid :
      (x : A) (ch : Channel A)
      → IsValid word ch
      → has_space word nil ch ≡ true
      → IsValid word (send_channel word nil x ch)
  unfolding send_channel has_space
  send_channel-IsValid x ch v space =
      let i = next_lem word ch.buffer_size ch.write_cursor v.cursor_in v.small in
      let n : (ch.occupied + 1) % word ≡ ch.occupied + 1 =
        mod-eq_of_lt {n = ch.occupied + 1} {m = word} (omega (arith, v.small, v.not_more)) in
      record {
        some_room = v.some_room;
        small = v.small;
        sized = length-set ch.buffer ch.write_cursor x ∙ v.sized;
        cursor_in = ground (arith, i, v.cursor_in);
        not_more = ground (arith, n, space, v.not_more);
        overflow_full = λ h. absurd (false≢true h);
      }

  -- `collect_from_channel` keeps a channel valid where there is data.
  pub collect-IsValid :
      (ch : Channel A)
      → IsValid word ch
      → has_data word nil ch ≡ true
      → IsValid word (collect_from_channel word nil ch).1
  unfolding collect_from_channel has_data
  collect-IsValid ch v data_there =
      let n : (ch.occupied + word - 1) % word ≡ ch.occupied - 1 =
        sub_word ch.occupied 1 word (ground (arith, data_there))
          (omega (arith, v.not_more, v.small)) in
      record {
        some_room = v.some_room;
        small = v.small;
        sized = v.sized;
        cursor_in = v.cursor_in;
        not_more = omega (arith, n, v.not_more);
        overflow_full = λ h. absurd (false≢true h);
      }

  -- `share_channel` keeps a channel valid, full or not.
  pub share_channel-IsValid :
      (x : A) (ch : Channel A) → IsValid word ch → IsValid word (share_channel word nil x ch).1
  unfolding share_channel
  share_channel-IsValid x ch v =
      let i = next_lem word ch.buffer_size ch.write_cursor v.cursor_in v.small in
      let n : (ch.occupied + 1) % word ≡ ch.occupied + 1 =
        mod-eq_of_lt {n = ch.occupied + 1} {m = word} (omega (arith, v.small, v.not_more)) in
      record {
        some_room = v.some_room;
        small = v.small;
        sized = length-set ch.buffer ch.write_cursor x ∙ v.sized;
        cursor_in = ground (arith, i, v.cursor_in);
        not_more = ground (arith, n, v.not_more);
        overflow_full = λ h. ground (arith, n, h, v.overflow_full, v.not_more);
      }
