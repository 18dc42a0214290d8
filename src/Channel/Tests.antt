-- ===== src/Channel/Tests.antt =====
-- A channel (cyarg/channel.c) of two values, with a `size_t` of 32 bits.
use yarg_lang.Prelude.{ℕ, ◌+◌, ◌≡◌, true, false, List, [], ◌∷◌, arith, refl}
use yarg_lang.Channel.{
  Channel, send_channel, collect_from_channel, share_channel, has_space, has_data, contents,
  read_cursor,
}
use yarg_lang.Channel.Valid.{IsValid}
use yarg_lang.Channel.Fifo.{
  Op, send, share, receive, done, waits, got, overflowed, pico_step, pico_run, queue_run,
  pico_run-queue_run,
}
use yarg_lang.Channel.Race.{
  System, off, waiting, ready, Reach, here, next, a_ready, IsSafe, Reach-IsSafe,
  two_senders_overfill,
}

abbrev word : ℕ
word = 4294967296

-- 7 is in the channel, behind a value already taken.
abbrev one_held : Channel ℕ
one_held = record {
  overflow = false;
  write_cursor = 0;
  own_lock = true;
  buffer = 5 ∷ 7 ∷ [];
  buffer_size = 2;
  occupied = 1;
}

abbrev both_held : Channel ℕ
both_held = record {
  overflow = false;
  write_cursor = 1;
  own_lock = true;
  buffer = 8 ∷ 7 ∷ [];
  buffer_size = 2;
  occupied = 2;
}

one_held-IsValid : IsValid word one_held
one_held-IsValid = record {
  some_room = omega arith;
  small = omega arith;
  sized = refl;
  cursor_in = omega arith;
  not_more = omega arith;
  overflow_full = λ e. cc;
}

both_held-IsValid : IsValid word both_held
both_held-IsValid = record {
  some_room = omega arith;
  small = omega arith;
  sized = refl;
  cursor_in = omega arith;
  not_more = omega arith;
  overflow_full = λ e. refl;
}

one_has_space : has_space word 0 one_held ≡ true
unfolding has_space
one_has_space = refl

one_has_data : has_data word 0 one_held ≡ true
unfolding has_data
one_has_data = refl

both_full : has_space word 0 both_held ≡ false
unfolding has_space
both_full = refl

abbrev script : List (Op ℕ)
script = send 9 ∷ send 4 ∷ share 3 ∷ receive ∷ receive ∷ receive ∷ []

-- 4 does not go in, 3 pushes 7 out, and the last call finds nothing.
script_run :
    pico_run word 0 script one_held ≡ done ∷ waits ∷ overflowed true ∷ got 9 ∷ got 3 ∷ waits ∷ []
unfolding pico_run pico_step send_channel collect_from_channel share_channel has_space has_data
    read_cursor
script_run = refl

pico_run-queue_run_example :
    pico_run word 0 script one_held ≡ queue_run 0 2 script (contents word 0 one_held)
pico_run-queue_run_example = pico_run-queue_run word 0 script one_held one_held-IsValid

-- One sender and one receiver in their waits.
abbrev pair : System ℕ
pair = record { channel = one_held; a = waiting; b = off; receiver = waiting }

pair-IsSafe : IsSafe word 0 pair
pair-IsSafe = record {
  valid = one_held-IsValid;
  alone = refl;
  room_seen = λ e. cc;
  data_seen = λ e. cc;
}

Reach-IsSafe_example : IsSafe word 0 (record pair { a = ready })
Reach-IsSafe_example = Reach-IsSafe word 0 pair-IsSafe (next here (a_ready refl one_has_space))

abbrev senders : System ℕ
senders = record { channel = one_held; a = waiting; b = waiting; receiver = off }

two_senders_overfill_example :
    (t : System ℕ) × Reach word 0 senders t
    × (t.channel.occupied ≡ t.channel.buffer_size + 1)
    × ¬ IsValid word (t.channel)
two_senders_overfill_example =
    two_senders_overfill word 0 senders 8 9 one_held-IsValid refl refl refl
