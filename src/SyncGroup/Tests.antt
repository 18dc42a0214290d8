-- ===== src/SyncGroup/Tests.antt =====
-- A group (cyarg/sync_group.c) of two channels of numbers, where 0 is nil, and an entry that is nil.
use yarg_lang.Prelude.{
  ℕ, ◌≡◌, refl, Bool, true, false, List, [], ◌∷◌, Option, none, some, ◌==◌, if◌then◌else◌,
}
use yarg_lang.Channel.{Channel, read_cursor, peek_channel, collect_from_channel}
use yarg_lang.SyncGroup.{Store, update, pass, receive_sync_group}

abbrev ring : List ℕ → ℕ → Channel ℕ
ring b n = record {
  overflow = false;
  write_cursor = 0;
  own_lock = true;
  buffer = b;
  buffer_size = 2;
  occupied = n;
}

abbrev is_zero : ℕ → Bool
is_zero n = n == 0

-- The channel at 3 holds 8 and 9; that at 4 a nil and 6; and that at 5 nothing.
abbrev store : Store ℕ
store p =
    if p == 3
    then ring (8 ∷ 9 ∷ []) 2
    else if p == 4
    then ring (0 ∷ 6 ∷ []) 2
    else ring (0 ∷ 0 ∷ []) 0

abbrev members : List (Option ℕ)
members = some 5 ∷ none ∷ some 4 ∷ some 3 ∷ []

abbrev fill : Store ℕ → Store ℕ
fill s p = if p == 5 then ring (7 ∷ 0 ∷ []) 2 else s p

-- The others fill the channel at 5, and do nothing else.
abbrev turn : ℕ → Store ℕ → Store ℕ
turn t s = fill s

abbrev no_turn : ℕ → Store ℕ → Store ℕ
no_turn t s = s

-- The other receiver, between a look at the channel at 3 and the collect.
abbrev thief : ℕ → Store ℕ → Store ℕ
thief t s = if t == 1 then update s 3 (ring (0 ∷ 0 ∷ []) 0) else s

-- A nil on top holds back what is behind it; and what was seen may be gone.
one_pass :
    ((pass 256 0 is_zero no_turn members 0 store).results ≡ 0 ∷ 0 ∷ 0 ∷ 8 ∷ [])
    × ((pass 256 0 is_zero no_turn (some 4 ∷ []) 0 store).complete ≡ false)
    × (receive_sync_group 256 0 is_zero no_turn 3 (some 4 ∷ []) [] 0 store ≡ none)
    × (((pass 256 0 is_zero thief (some 3 ∷ []) 0 store).store 3).occupied ≡ 255)
unfolding pass receive_sync_group peek_channel collect_from_channel read_cursor
one_pass = (refl, refl, refl, refl)
