-- ===== src/Channel.antt =====
-- cyarg/channel.c: a channel is a ring of values, filled by `send` and `share` and emptied by
-- `receive`. Each function below is the critical section of its C function, between the calls of the
-- mutex; `word` is the number of values of `size_t`, and `nil` is NIL_VAL.
pub mod Valid
pub mod Queue
pub mod Fifo
pub mod Race
pub mod Tests
use yarg_lang.Prelude.{
  ℕ, zero, suc, ◌+◌, ◌-◌, ◌%◌, Bool, true, false, List, [], ◌∷◌, ltb, ◌==◌, if◌then◌else◌, get_or,
  set, replicate, not,
}

-- `own_lock` says whether `lock_access` is the channel's own lock or that of a sync group.
pub record Channel (A : Type 0) : Type 0 where
  pub overflow : Bool
  pub write_cursor : ℕ
  pub own_lock : Bool
  pub buffer : List A
  pub buffer_size : ℕ
  pub occupied : ℕ

module _ {A : Type 0} (word : ℕ) (nil : A) where
  -- `allocateObject` fills the object with zeros.
  pub new_channel : ℕ → Channel A
  new_channel capacity = record {
    overflow = false;
    write_cursor = 0;
    own_lock = true;
    buffer = replicate capacity nil;
    buffer_size = capacity;
    occupied = 0;
  }

  unfoldable pub read_cursor : Channel A → ℕ
  read_cursor ch = ((ch.write_cursor + ch.buffer_size + word - ch.occupied) % word) % ch.buffer_size

  -- The wait of `sendChannel` and that of `receiveChannel` end on these tests.
  pub has_space : Channel A → Bool
  has_space ch = not (ch.occupied == ch.buffer_size)

  pub has_data : Channel A → Bool
  has_data ch = not (ch.occupied == 0)

  pub send_channel : A → Channel A → Channel A
  send_channel x ch = record ch {
    buffer = set ch.buffer ch.write_cursor x;
    occupied = (ch.occupied + 1) % word;
    write_cursor = (ch.write_cursor + 1) % word % ch.buffer_size;
    overflow = false;
  }

  unfoldable pub collect_from_channel : Channel A → A × Channel A
  collect_from_channel ch = (
    get_or ch.buffer (read_cursor ch) nil,
    record ch { occupied = (ch.occupied + word - 1) % word; overflow = false },
  )

  -- An older value is lost where the ring is full.
  pub share_channel : A → Channel A → Bool × Channel A
  share_channel x ch =
      let n = (ch.occupied + 1) % word in
      let over = ltb ch.buffer_size n in
      let ch' : Channel A = record ch {
        buffer = set ch.buffer ch.write_cursor x;
        write_cursor = (ch.write_cursor + 1) % word % ch.buffer_size;
        occupied = if over then ch.buffer_size else n;
        overflow = if over then true else ch.overflow;
      } in
      (ch'.overflow, ch')

  unfoldable pub peek_channel : Channel A → A
  peek_channel ch = if ltb 0 ch.occupied then get_or ch.buffer (read_cursor ch) nil else nil

  pub join_sync_group : Channel A → Channel A
  join_sync_group ch = record ch { own_lock = false }

  pub leave_sync_group : Channel A → Channel A
  leave_sync_group ch = record ch { own_lock = true }

  -- The loop of `markChannel` and `channelToString`: the values held, oldest first.
  pub walk : List A → ℕ → ℕ → ℕ → List A
  walk buffer size cursor zero = []
  walk buffer size cursor (suc n) =
      get_or buffer cursor nil ∷ walk buffer size ((cursor + 1) % word % size) n

  pub contents : Channel A → List A
  contents ch = walk ch.buffer ch.buffer_size (read_cursor ch) ch.occupied
